-- ===== src/Ext/ListStore.antt =====
-- A store of extents as a list: what shows that the promises of a store can be kept.
use mathlib.Core.Path.{fun_ext}
use mathlib.Core.Bool.{false≢true}
use scoutfs_kmod_dev.Base.{
  ◌&&◌, ◌||◌, subst, ℕ, ◌+◌, ◌≤◌, ◌<◌, ◌≡◌, ◌⊎◌, inl, inr, ltb, leb, Bool-cases, true, false, refl,
  sym, arith, Ret, ok, err, enoent, eexist, Errno, List, [], ◌∷◌, Option, none, some, if◌then◌else◌,
  ◌||◌,
}
use scoutfs_kmod_dev.Ext.{Extent, ext_zero, ExtOps}
use scoutfs_kmod_dev.Ext.Store.{
  EndsBefore, ExtSet, add_to, remove_from, ext_eq, ext_eq_iff, IsExtStore,
}

abbrev pub member : List Extent → ExtSet
member [] x = false
member (e ∷ es) x = ext_eq x e || member es x

-- the member that ends first among those that end after block `b`
first_of : Extent → ℕ → Option Extent → Option Extent
first_of e b none = if ltb b (e.start + e.len) then some e else none
first_of e b (some r) =
    if ltb b (e.start + e.len) && leb (e.start + e.len) (r.start + r.len) then some e else some r

unfoldable pub first_after : List Extent → ℕ → Option Extent
unfolding first_of
first_after [] b = none
first_after (e ∷ es) b = first_of e b (first_after es b)

unfoldable pub without : List Extent → Extent → List Extent
without [] x = []
without (e ∷ es) x = if ext_eq x e then without es x else e ∷ without es x

abbrev answer : Option Extent → Ret × Extent
answer none = (err enoent, ext_zero)
answer (some e) = (ok, e)

unfoldable pub list_next : List Extent → ℕ → ℕ → Ret × Extent
list_next es b len = answer (first_after es b)

abbrev pub list_ops : ExtOps (List Extent)
list_ops = record {
  next = list_next;
  insert = λ es e. if member es e then (err eexist, es) else (ok, e ∷ es);
  remove = λ es e. if member es e then (ok, without es e) else (err enoent, es);
}

First : List Extent → ℕ → Option Extent → Type 0
First es b none = (x : Extent) → member es x ≡ true → x.start + x.len ≤ b
First es b (some e) =
    (member es e ≡ true)
    × (b < e.start + e.len)
    × ((x : Extent) → member es x ≡ true → b < x.start + x.len → e.start + e.len ≤ x.start + x.len)

member-cons :
    (e : Extent) (es : List Extent) (x : Extent)
    → member (e ∷ es) x ≡ true
    → (x ≡ e) ⊎ (member es x ≡ true)
member-cons e es x h = ground (arith, ext_eq_iff x e)

member-cons_self : (e : Extent) (es : List Extent) → member (e ∷ es) e ≡ true
member-cons_self e es = ground arith

member-cons_tail :
    (e : Extent) (es : List Extent) (x : Extent) → member es x ≡ true → member (e ∷ es) x ≡ true
member-cons_tail e es x h = ground arith

-- A statement about the end of each member holds of the list with one more.
ends_cons :
    (P : ℕ → Type 0) (e : Extent) (es : List Extent)
    → P (e.start + e.len)
    → ((x : Extent) → member es x ≡ true → P (x.start + x.len))
    → (x : Extent) → member (e ∷ es) x ≡ true
    → P (x.start + x.len)
ends_cons P e es here there x h = elim (member-cons e es x h) [
  | inl u ↦ subst (λ (z : Extent). P (z.start + z.len)) (sym u) here
  | inr u ↦ there x u
]

nothing : (b : ℕ) → First [] b none
unfolding First
nothing b x h = absurd (false≢true h)

first_of-First :
    (e : Extent) (es : List Extent) (b : ℕ) (r : Option Extent)
    → First es b r
    → First (e ∷ es) b (first_of e b r)
unfolding first_of First
first_of-First e es b none h = elim (Bool-cases (ltb b (e.start + e.len))) [
  | inl t ↦
      rw (t, First)
        (
          member-cons_self e es,
          ground (arith, t),
          ends_cons (λ n. b < n → e.start + e.len ≤ n) e es (λ _. omega arith)
              (λ x m l. absurd (omega (arith, h x m))),
        )
  | inr t ↦ rw (t, First) (ends_cons (λ n. n ≤ b) e es (ground (arith, t)) h)
]
first_of-First e es b (some r) h =
    elim (Bool-cases (ltb b (e.start + e.len) && leb (e.start + e.len) (r.start + r.len))) [
      | inl t ↦
          rw (t, First)
            (
              member-cons_self e es,
              ground (arith, t),
              ends_cons (λ n. b < n → e.start + e.len ≤ n) e es (λ _. omega arith)
                  (λ x m l. ground (arith, t, h.2 x m)),
            )
      | inr t ↦
          rw (t, First)
            (
              member-cons_tail e es r h.0,
              h.1,
              ends_cons (λ n. b < n → r.start + r.len ≤ n) e es (λ l. ground (arith, t)) h.2,
            )
    ]

first_after-First : (es : List Extent) (b : ℕ) → First es b (first_after es b)
unfolding first_after
first_after-First [] b = nothing b
first_after-First (e ∷ es) b = first_of-First e es b (first_after es b) (first_after-First es b)

member-without :
    (es : List Extent) (e x : Extent) → member (without es e) x ≡ remove_from (member es) e x
unfolding without remove_from
member-without [] e x = ground arith
member-without (d ∷ es) e x =
    ground (arith, member-without es e x, ext_eq_iff x d, ext_eq_iff e d, ext_eq_iff x e)

answer_ok :
    (es : List Extent) (b : ℕ) (r : Option Extent)
    → First es b r
    → (answer r).0 ≡ ok
    → (member es (answer r).1 ≡ true)
      × (b < (answer r).1.start + (answer r).1.len)
      × ((x : Extent)
          → member es x ≡ true
          → b < x.start + x.len
          → (answer r).1.start + (answer r).1.len ≤ x.start + x.len)
unfolding First
answer_ok es b none h q = cc
answer_ok es b (some e) h q = h

answer_enoent :
    (es : List Extent) (b : ℕ) (r : Option Extent)
    → First es b r
    → (answer r).0 ≡ err enoent
    → ((answer r).1 ≡ ext_zero) × ((x : Extent) → member es x ≡ true → EndsBefore x b)
unfolding First
answer_enoent es b none h q = (refl, h)
answer_enoent es b (some e) h q = cc

added : (s : List Extent) (e x : Extent) → member (e ∷ s) x ≡ add_to (member s) e x
unfolding add_to
added s e x = refl

-- The list keeps every promise of a store.
pub list-IsExtStore : IsExtStore list_ops member
unfolding list_next
list-IsExtStore = record {
  next_ok = λ s b q. answer_ok s b (first_after s b) (first_after-First s b) q;
  next_held = λ s b len q. (answer_ok s b (first_after s b) (first_after-First s b) q).0;
  next_enoent = λ s b q. answer_enoent s b (first_after s b) (first_after-First s b) q;
  insert_ok = λ s e q. elim (Bool-cases (member s e)) [
    | inl t ↦ ground (arith, t)
    | inr t ↦ (t, rw t (fun_ext (λ x. added s e x)))
  ];
  insert_err =
      λ s e r q. elim (Bool-cases (member s e)) [ inl t ↦ rw t | inr t ↦ ground (arith, t) ];
  remove_ok = λ s e h q. rw h (fun_ext (λ x. member-without s e x));
  remove_err =
      λ s e r q. elim (Bool-cases (member s e)) [ inl t ↦ ground (arith, t) | inr t ↦ rw t ];
}

answer-err : (o : Option Extent) (r : Errno) → (answer o).0 ≡ err r → r ≡ enoent
answer-err none r h = cc
answer-err (some x) r h = cc

pub list_next-err :
    (es : List Extent) (b len : ℕ) (r : Errno) → (list_next es b len).0 ≡ err r → r ≡ enoent
unfolding list_next
list_next-err es b len r h = answer-err (first_after es b) r h
