-- ===== src/Srch/Memory.antt =====
-- Words in memory.
use scoutfs_kmod_dev.Base.{
  ℕ, zero, suc, ◌+◌, ◌*◌, ◌/◌, ◌^◌, ◌<◌, ◌≤◌, ◌≡◌, ◌⊎◌, inl, inr, ◌==◌, if◌then◌else◌, u8, arith,
  refl, ◌∙◌,
}
use scoutfs_kmod_dev.Srch.{Memory, put_le, get_le, mask_bytes}

-- one more than the greatest word of `n` bytes
abbrev pub word_size : ℕ → ℕ
word_size zero = 1
word_size (suc n) = 2 ^ 8 * word_size n

pub put_le-other :
    (n : ℕ) (m : Memory) (at val i : ℕ) → (i < at) ⊎ (at + n ≤ i) → put_le n m at val i ≡ m i
unfolding put_le
put_le-other zero m at val i h = refl
put_le-other (suc n) m at val i (inl p) =
    put_le-other n _ (at + 1) (val / 2 ^ 8) i (inl (omega (arith, p))) ∙ ground (arith, p)
put_le-other (suc n) m at val i (inr p) =
    put_le-other n _ (at + 1) (val / 2 ^ 8) i (inr (omega (arith, p))) ∙ ground (arith, p)

pub get_le-agree :
    (n : ℕ) (m m' : Memory) (at : ℕ)
    → ((i : ℕ) → at ≤ i → i < at + n → m i ≡ m' i)
    → get_le n m at ≡ get_le n m' at
unfolding get_le
get_le-agree zero m m' at h = refl
get_le-agree (suc n) m m' at h =
    let rest = get_le-agree n m m' (at + 1) (λ i p q. h i (omega (arith, p)) (omega (arith, q))) in
    let here = h at (omega arith) (omega arith) in ground (arith, rest, here)

pub get_le-put_le :
    (b n : ℕ) (m : Memory) (at val : ℕ)
    → b ≤ n
    → val < word_size b
    → get_le b (put_le n m at val) at ≡ val
unfolding get_le put_le u8
get_le-put_le zero n m at val p q = omega (arith, q)
get_le-put_le (suc b) zero m at val p q = absurd (omega (arith, p))
get_le-put_le (suc b) (suc n) m at val p q =
    let m' : Memory = λ i. if i == at then u8 val else m i in
    let here : put_le n m' (at + 1) (val / 2 ^ 8) at ≡ u8 val =
      put_le-other n m' (at + 1) (val / 2 ^ 8) at (inl (omega arith)) ∙ ground arith in
    let rest = get_le-put_le b n m' (at + 1) (val / 2 ^ 8) (omega (arith, p)) (omega (arith, q)) in
    omega (arith, here, rest)

-- what holds of the numbers of bytes of a word
pub up_to_8 {ℓ} :
    (P : ℕ → Type ℓ) → P 0 → P 1 → P 2 → P 3 → P 4 → P 5 → P 6 → P 7 → P 8 → (n : ℕ) → n ≤ 8 → P n
up_to_8 P a b c d e f g h i zero p = a
up_to_8 P a b c d e f g h i (suc zero) p = b
up_to_8 P a b c d e f g h i (suc (suc zero)) p = c
up_to_8 P a b c d e f g h i (suc (suc (suc zero))) p = d
up_to_8 P a b c d e f g h i (suc (suc (suc (suc zero)))) p = e
up_to_8 P a b c d e f g h i (suc (suc (suc (suc (suc zero))))) p = f
up_to_8 P a b c d e f g h i (suc (suc (suc (suc (suc (suc zero)))))) p = g
up_to_8 P a b c d e f g h i (suc (suc (suc (suc (suc (suc (suc zero))))))) p = h
up_to_8 P a b c d e f g h i (suc (suc (suc (suc (suc (suc (suc (suc zero)))))))) p = i
up_to_8 P a b c d e f g h i (suc (suc (suc (suc (suc (suc (suc (suc (suc k))))))))) p =
    absurd (omega (arith, p))

-- The low bytes of a word of eight bytes are a word of so many bytes.
pub mask_bytes-get_le :
    (m : Memory) (at b : ℕ) → b ≤ 8 → mask_bytes b (get_le 8 m at) ≡ get_le b m at
unfolding mask_bytes get_le u8
mask_bytes-get_le m at =
    up_to_8 (λ b. mask_bytes b (get_le 8 m at) ≡ get_le b m at) (omega arith) (omega arith)
      (omega arith) (omega arith) (omega arith) (omega arith) (omega arith) (omega arith)
      (omega arith)
