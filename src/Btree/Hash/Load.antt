-- ===== src/Btree/Hash/Load.antt =====
-- How many buckets are populated.
use scoutfs_kmod_dev.Base.{
  ℕ, zero, suc, ◌+◌, ◌<◌, ◌≡◌, ◌≢◌, ◌==◌, ==_iff, Bool-cases, inl, inr, if◌then◌else◌, arith, refl,
}
use scoutfs_kmod_dev.Btree.Hash.{hash_nr, Buckets, set_bucket}

-- those below bucket `n`
unfoldable pub populated : ℕ → Buckets → ℕ
populated zero b = 0
populated (suc n) b = (if b n == 0 then 0 else 1) + populated n b

abbrev pub load : Buckets → ℕ
load b = populated hash_nr b

populated_agree :
    (n : ℕ) (b b' : Buckets) → ((i : ℕ) → i < n → b i ≡ b' i) → populated n b ≡ populated n b'
unfolding populated
populated_agree zero b b' h = refl
populated_agree (suc n) b b' h =
    let here = h n (omega arith) in
    let rest = populated_agree n b b' (λ i p. h i (omega (arith, p))) in ground (arith, here, rest)

-- one bucket is written
populated_write :
    (n : ℕ) (b : Buckets) (p off : ℕ)
    → p < n
    → populated n (set_bucket b p off) + (if b p == 0 then 0 else 1)
      ≡ populated n b + (if off == 0 then 0 else 1)
unfolding populated
populated_write zero b p off h = absurd (omega (arith, h))
populated_write (suc n) b p off h = elim (Bool-cases (n == p)) [
  | inl e ↦
      let at : n ≡ p = (==_iff n p).0 e in
      let rest = populated_agree n (set_bucket b p off) b (λ i q. ground (arith, q, at)) in
      ground (arith, rest, at)
  | inr e ↦ let rest = populated_write n b p off (ground (arith, h, e)) in ground (arith, rest, e)
]

pub load-fill :
    (b : Buckets) (p off : ℕ)
    → p < hash_nr
    → b p ≡ 0
    → off ≢ 0
    → load (set_bucket b p off) ≡ load b + 1
load-fill b p off h e m = ground (arith, populated_write hash_nr b p off h, e, m)

pub load-empty :
    (b : Buckets) (p : ℕ) → p < hash_nr → b p ≢ 0 → load (set_bucket b p 0) + 1 ≡ load b
load-empty b p h m = ground (arith, populated_write hash_nr b p 0 h, m)

pub load-change :
    (b : Buckets) (p off : ℕ) → p < hash_nr → b p ≢ 0 → off ≢ 0 → load (set_bucket b p off) ≡ load b
load-change b p off h m n = ground (arith, populated_write hash_nr b p off h, m, n)

populated-room : (n : ℕ) (b : Buckets) → populated n b < n → (p : ℕ) × (p < n) × (b p ≡ 0)
unfolding populated
populated-room zero b h = absurd (omega (arith, h))
populated-room (suc n) b h = elim (Bool-cases (b n == 0)) [
  | inl e ↦ (n, omega arith, (==_iff (b n) 0).0 e)
  | inr e ↦ let (p, l, f) = populated-room n b (ground (arith, h, e)) in (p, omega (arith, l), f)
]

-- a table that is not full has an empty bucket
pub load-room : (b : Buckets) → load b < hash_nr → (p : ℕ) × (p < hash_nr) × (b p ≡ 0)
load-room b h = populated-room hash_nr b h
