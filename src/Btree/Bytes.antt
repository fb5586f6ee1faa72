-- ===== src/Btree/Bytes.antt =====
-- The bytes of values in a block.
use scoutfs_kmod_dev.Base.{
  ℕ, zero, suc, ◌+◌, ◌-◌, ◌<◌, ◌≤◌, ◌≡◌, ◌⊎◌, inl, inr, ◌==◌, if◌then◌else◌, List, [], ◌∷◌, arith,
  refl, ◌∙◌,
}
use scoutfs_kmod_dev.Base.Lists.{length}
use scoutfs_kmod_dev.Srch.{Memory}
use scoutfs_kmod_dev.Srch.Memory.{put_le-other}
use scoutfs_kmod_dev.Btree.{write_bytes, read_bytes, set_val_owner}

pub read_bytes_agree :
    (n : ℕ) (m m' : Memory) (at : ℕ)
    → ((i : ℕ) → at ≤ i → i < at + n → m i ≡ m' i)
    → read_bytes n m at ≡ read_bytes n m' at
unfolding read_bytes
read_bytes_agree zero m m' at h = refl
read_bytes_agree (suc n) m m' at h =
    let rest =
      read_bytes_agree n m m' (at + 1) (λ i p q. h i (omega (arith, p)) (omega (arith, q))) in
    let here = h at (omega arith) (omega arith) in rw (here, rest) refl

pub write_bytes-other :
    (xs : List ℕ) (m : Memory) (at i : ℕ)
    → (i < at) ⊎ (at + length xs ≤ i)
    → write_bytes m at xs i ≡ m i
unfolding write_bytes
write_bytes-other [] m at i h = refl
write_bytes-other (x ∷ xs) m at i (inl p) =
    write_bytes-other xs _ (at + 1) i (inl (omega (arith, p))) ∙ ground (arith, p)
write_bytes-other (x ∷ xs) m at i (inr p) =
    write_bytes-other xs _ (at + 1) i (inr (omega (arith, p))) ∙ ground (arith, p)

pub read_bytes-write_bytes :
    (xs : List ℕ) (m : Memory) (at : ℕ) → read_bytes (length xs) (write_bytes m at xs) at ≡ xs
unfolding read_bytes write_bytes
read_bytes-write_bytes [] m at = refl
read_bytes-write_bytes (x ∷ xs) m at =
    let m' : Memory = λ i. if i == at then x else m i in
    let here : write_bytes m' (at + 1) xs at ≡ x =
      write_bytes-other xs m' (at + 1) at (inl (omega arith)) ∙ ground arith in
    let rest = read_bytes-write_bytes xs m' (at + 1) in rw (here, rest) refl

-- A value's owner stands in the value's last two bytes.
pub set_val_owner-other :
    (m : Memory) (val_off vb owner i : ℕ)
    → 2 ≤ vb
    → (i + 2 < val_off + vb) ⊎ (val_off + vb ≤ i)
    → set_val_owner m val_off vb owner i ≡ m i
unfolding set_val_owner
set_val_owner-other m val_off vb owner i h (inl p) =
    put_le-other 2 m (val_off + vb - 2) _ i (inl (omega (arith, h, p)))
set_val_owner-other m val_off vb owner i h (inr p) =
    put_le-other 2 m (val_off + vb - 2) _ i (inr (omega (arith, h, p)))
