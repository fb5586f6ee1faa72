-- ===== src/Srch/Tree.antt =====
-- calc_ref_ind and height_for_blk: the way to a block through the parent blocks.
use scoutfs_kmod_dev.Base.{
  ℕ, zero, suc, ◌+◌, ◌*◌, ◌-◌, ◌/◌, ◌%◌, ◌^◌, ◌<◌, ◌≤◌, ◌≡◌, arith, refl, some, done, u64, u8,
}
use native.Mathlib.Decide.{dec_lt}
use native.Mathlib.Numerals.{unary_clauses}
use scoutfs_kmod_dev.Srch.{parent_refs, ref_ind_from, calc_ref_ind, height_from, height_for_blk}

-- the number whose digits from the lowest on are the indices
abbrev pub digits : (ℕ → ℕ) → ℕ → ℕ
digits ind zero = 0
digits ind (suc n) = ind 1 + parent_refs * digits (λ l. ind (suc l)) n

-- At each of the levels from 1 to `n` calc_ref_ind hands back an index of a parent block, and these
-- are the digits of `blk`.
abbrev pub Spells : ℕ → ℕ → Type 0
Spells blk n =
    (ind : ℕ → ℕ) × ((l : ℕ) → 1 ≤ l → (calc_ref_ind blk l ≡ done (ind l)) × (ind l < parent_refs))
    × (digits ind n ≡ blk)

ref_ind-lt : (n blk ind : ℕ) → ind < parent_refs → ref_ind_from n blk ind < parent_refs
unfolding ref_ind_from
ref_ind-lt zero blk ind h = h
ref_ind-lt (suc n) blk ind h = ref_ind-lt n (blk / parent_refs) (blk % parent_refs) (omega arith)

digits-ref_ind :
    (n blk : ℕ) (ind : ℕ → ℕ)
    → blk < parent_refs ^ n
    → ((l : ℕ) → ind (suc l) ≡ ref_ind_from l (blk / parent_refs) (blk % parent_refs))
    → digits ind n ≡ blk
unfolding ref_ind_from
digits-ref_ind zero blk ind h e = omega (arith, h)
digits-ref_ind (suc n) blk ind h e =
    let step : parent_refs ^ suc n ≡ parent_refs ^ n * 4094 = simp unary_clauses in
    let rest =
      digits-ref_ind n (blk / parent_refs) (λ l. ind (suc l)) (omega (arith, h, step))
        (λ l. e (suc l)) in
    let low : ind 1 ≡ blk % parent_refs = e 0 in omega (arith, rest, low)

-- the least height of which the blocks number more than `blk`, which height_for_blk hands back
abbrev pub Bounds : ℕ → ℕ → Type 0
Bounds blk h =
    (height_for_blk 5 blk ≡ some h)
    × (1 ≤ h)
    × (blk < parent_refs ^ (h - 1))
    × (2 ≤ h → parent_refs ^ (h - 2) ≤ blk)

height_for_blk-Bounds : (blk : ℕ) → blk < parent_refs ^ 5 → (h : ℕ) × Bounds blk h
unfolding height_for_blk height_from u64 u8
height_for_blk-Bounds blk p = elim (dec_lt blk 1) [
  | yes a ↦
      (1, (ground (arith, a), omega arith, omega (arith, a), λ high. absurd (omega (arith, high))))
  | no a ↦ elim (dec_lt blk 4094) [
    | yes b ↦ (2, (ground (arith, a, b), omega arith, omega (arith, b), λ _. omega (arith, a)))
    | no b ↦ elim (dec_lt blk (4094 ^ 2)) [
      | yes c ↦ (3, (ground (arith, a, b, c), omega arith, omega (arith, c), λ _. omega (arith, b)))
      | no c ↦ elim (dec_lt blk (4094 ^ 3)) [
        | yes d ↦
            (4, (ground (arith, b, c, d), omega arith, omega (arith, d), λ _. omega (arith, c)))
        | no d ↦ elim (dec_lt blk (4094 ^ 4)) [
          | yes e ↦
              (5, (ground (arith, c, d, e), omega arith, omega (arith, e), λ _. omega (arith, d)))
          | no e ↦
              (6, (ground (arith, d, e, p), omega arith, omega (arith, p), λ _. omega (arith, e)))
        ]
      ]
    ]
  ]
]

-- For a block number below 4094^5, which five rounds are enough for, height_for_blk hands back the
-- least height that is enough for the number, and the indices that calc_ref_ind hands back at the
-- levels below it are in the bounds of a parent block and spell the number.
pub height_for_blk-Spells :
    (blk : ℕ) → blk < parent_refs ^ 5 → (h : ℕ) × Bounds blk h × Spells blk (h - 1)
unfolding calc_ref_ind ref_ind_from
height_for_blk-Spells blk p =
    let (h, bounds) = height_for_blk-Bounds blk p in
    (
      h,
      bounds,
      (
        λ l. ref_ind_from l blk 0,
        λ l q. (ground (arith, q), ref_ind-lt l blk 0 (omega arith)),
        digits-ref_ind (h - 1) blk (λ l. ref_ind_from l blk 0) bounds.2 (λ l. refl),
      ),
    )
