-- ===== src/Tseq/Fill.antt =====
-- Growing positions fill a range where there are as many of them as it has places.
use scoutfs_kmod_dev.Base.{
  ℕ, ◌+◌, ◌<◌, ◌≤◌, ◌≡◌, ◌==◌, ◌||◌, Bool, true, false, List, [], ◌∷◌, ◌++◌, arith, refl, inl, inr,
  Bool-cases, subst, sym, ==_iff,
}
use scoutfs_kmod_dev.Base.Lists.{All, Pairs, length}
use native.Mathlib.Decide.{dec_lt}

abbrev pub Growing : List ℕ → Type 0
Growing = Pairs (λ (a b : ℕ). a < b)

unfoldable pub mem : ℕ → List ℕ → Bool
mem q [] = false
mem q (x ∷ xs) = q == x || mem q xs

pub mem-append : (q : ℕ) (xs ys : List ℕ) → mem q (xs ++ ys) ≡ (mem q xs || mem q ys)
unfolding mem
mem-append q [] ys = refl
mem-append q (x ∷ xs) ys = ground (arith, mem-append q xs ys)

pub mem-All-false : (q : ℕ) (P : ℕ → Type 0) (xs : List ℕ) → ¬ (P q) → All P xs → mem q xs ≡ false
unfolding mem
mem-All-false q P [] n h = refl
mem-All-false q P (x ∷ xs) n h = elim (Bool-cases (q == x)) [
  | inl t ↦ absurd (n (subst P (sym ((==_iff q x).0 t)) h.0))
  | inr t ↦ ground (arith, t, mem-All-false q P xs n h.1)
]

after : (x : ℕ) (xs : List ℕ) → All (λ y. x < y) xs → All (λ y. x + 1 ≤ y) xs
after x [] h = tt
after x (y ∷ ys) h = (omega (arith, h.0), after x ys h.1)

room :
    (xs : List ℕ) (a n : ℕ)
    → a ≤ n
    → Growing xs
    → All (λ x. a ≤ x) xs
    → All (λ x. x < n) xs
    → a + length xs ≤ n
room [] a n q g above below = omega (arith, q)
room (x ∷ xs) a n q g above below =
    omega (arith, above.0, room xs (x + 1) n (omega (arith, below.0)) g.1 (after x xs g.0) below.1)

-- Growing positions from `m` on and below `n`, as many as there are numbers: none is missing.
pub all_taken :
    (xs : List ℕ) (m n q : ℕ)
    → Growing xs
    → All (λ x. m ≤ x) xs
    → All (λ x. x < n) xs
    → n ≤ m + length xs
    → m ≤ q
    → q < n
    → mem q xs ≡ true
unfolding mem
all_taken [] m n q g above below full i j = absurd (omega (arith, full, i, j))
all_taken (x ∷ xs) m n q g above below full i j =
    let next = after x xs g.0 in
    let first : x ≡ m =
      omega (arith, full, above.0, room xs (x + 1) n (omega (arith, below.0)) g.1 next below.1) in
    elim (dec_lt m q) [
      | yes later ↦ ground (
        arith,
        all_taken xs (x + 1) n q g.1 next below.1 (omega (arith, full, first))
            (omega (arith, later, first)) j,
      )
      | no now ↦ ground (arith, first, now, i)
    ]
