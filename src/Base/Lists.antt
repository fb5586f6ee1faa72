-- ===== src/Base/Lists.antt =====
-- Lists measured by native numbers, and predicates over their members.
use Prim.Native.Nat.{ℕ, suc, ◌+◌}
use mathlib.Core.Path.{◌≡◌}
use mathlib.Core.List.{List, [], ◌∷◌, ◌++◌}
use native.Mathlib.Omega.{arith}

module _ {ℓ} {A : Type ℓ} where
  abbrev pub length : List A → ℕ
  length [] = 0
  length (x ∷ xs) = suc (length xs)

  pub length-append : (xs ys : List A) → length (xs ++ ys) ≡ length xs + length ys
  length-append [] ys = omega arith
  length-append (x ∷ xs) ys = omega (arith, length-append xs ys)

-- A predicate by recursion computes to tuples, which the tactics read and build.
abbrev pub All {ℓ κ} : {A : Type ℓ} → (A → Type κ) → List A → Type κ
All P [] = Unit
All P (x ∷ xs) = P x × All P xs

module _ {ℓ κ} {A : Type ℓ} (P : A → Type κ) where
  pub All-append : (xs ys : List A) → All P xs → All P ys → All P (xs ++ ys)
  All-append [] ys hx hy = hy
  All-append (x ∷ xs) ys hx hy = (hx.0, All-append xs ys hx.1 hy)

  pub All-append_left : (xs ys : List A) → All P (xs ++ ys) → All P xs
  All-append_left [] ys h = tt
  All-append_left (x ∷ xs) ys h = (h.0, All-append_left xs ys h.1)

  pub All-append_right : (xs ys : List A) → All P (xs ++ ys) → All P ys
  All-append_right [] ys h = h
  All-append_right (x ∷ xs) ys h = All-append_right xs ys h.1

pub All-imp {ℓ κ μ} :
    {A : Type ℓ} {P : A → Type κ} {Q : A → Type μ}
    → ((a : A) → P a → Q a)
    → (xs : List A) → All P xs
    → All Q xs
All-imp f [] h = tt
All-imp f (x ∷ xs) h = (f x h.0, All-imp f xs h.1)

-- Every member stands in `R` to every later one.
abbrev pub Pairs {ℓ κ} : {A : Type ℓ} → (A → A → Type κ) → List A → Type κ
Pairs R [] = Unit
Pairs R (x ∷ xs) = All (R x) xs × Pairs R xs

module _ {ℓ κ} {A : Type ℓ} (R : A → A → Type κ) (flip : (a b : A) → R a b → R b a) where
  -- A member is taken out, and stands in `R` to those that are left.
  pub Pairs-middle :
      (xs : List A) (a : A) (ys : List A)
      → Pairs R (xs ++ a ∷ ys)
      → Pairs R (xs ++ ys) × All (R a) (xs ++ ys)
  Pairs-middle [] a ys h = (h.1, h.0)
  Pairs-middle (x ∷ xs) a ys h =
      let (rest, apart) = Pairs-middle xs a ys h.1 in
      let here = All-append_right (R x) xs (a ∷ ys) h.0 in
      (
        (All-append (R x) xs ys (All-append_left (R x) xs (a ∷ ys) h.0) here.1, rest),
        (flip x a here.0, apart),
      )

  pub Pairs-snoc : (xs : List A) (a : A) → Pairs R xs → All (R a) xs → Pairs R (xs ++ a ∷ [])
  Pairs-snoc [] a h k = (tt, tt)
  Pairs-snoc (x ∷ xs) a h k =
      (All-append (R x) xs (a ∷ []) h.0 (flip a x k.0, tt), Pairs-snoc xs a h.1 k.1)

  pub Pairs-append_left : (xs ys : List A) → Pairs R (xs ++ ys) → Pairs R xs
  Pairs-append_left [] ys h = tt
  Pairs-append_left (x ∷ xs) ys h = (All-append_left (R x) xs ys h.0, Pairs-append_left xs ys h.1)

  -- A member is put between two lists.
  pub Pairs-insert :
      (xs : List A) (a : A) (ys : List A)
      → Pairs R (xs ++ ys)
      → All (R a) (xs ++ ys)
      → Pairs R ((xs ++ a ∷ []) ++ ys)
  Pairs-insert [] a ys h k = (k, h)
  Pairs-insert (x ∷ xs) a ys h k = (
    All-append (R x) (xs ++ a ∷ []) ys
        (All-append (R x) xs (a ∷ []) (All-append_left (R x) xs ys h.0) (flip a x k.0, tt))
        (All-append_right (R x) xs ys h.0),
    Pairs-insert xs a ys h.1 k.1,
  )
