-- ===== src/Btree/Nodes.antt =====
-- The nodes of a block's tree by the offsets of their items: delete_node and relocate_node.
use scoutfs_kmod_dev.Base.Lists.{All}
use scoutfs_kmod_dev.Base.{
  ℕ, ◌⊎◌, inl, inr, List, [], ◌∷◌, ◌++◌, ◌≡◌, none, ◌↔◌, Option, some, Bool-cases, subst, refl, sym,
  ◌==◌, ==_iff, ap, arith,
}
use scoutfs_kmod_dev.Avl.{Avl, nil, node, Above, whole, items, Place, from_left, from_right}
use scoutfs_kmod_dev.Btree.{node_at}

abbrev pub Among : ℕ → List ℕ → Type 0
Among o [] = ⊥
Among o (x ∷ xs) = (o ≡ x) ⊎ Among o xs

pub Among-append : (o : ℕ) (xs ys : List ℕ) → Among o (xs ++ ys) ↔ (Among o xs ⊎ Among o ys)
Among-append o [] ys = (inr, λ h. elim h [ inl m ↦ absurd m | inr m ↦ m ])
Among-append o (x ∷ xs) ys =
    let rest = Among-append o xs ys in
    (
      λ h. elim h [
        | inl e ↦ inl (inl e)
        | inr m ↦ elim (rest.0 m) [ inl a ↦ inl (inr a) | inr b ↦ inr b ]
      ],
      λ h. elim h [
        | inl (inl e) ↦ inl e
        | inl (inr m) ↦ inr (rest.1 (inl m))
        | inr m ↦ inr (rest.1 (inr m))
      ],
    )

-- Whether an offset stands on either side of another.
pub Among-around :
    (o x : ℕ) (xs ys : List ℕ) → Among o (xs ++ x ∷ ys) ↔ ((o ≡ x) ⊎ Among o (xs ++ ys))
Among-around o x xs ys = (
  λ h. elim ((Among-append o xs (x ∷ ys)).0 h) [
    | inl a ↦ inr ((Among-append o xs ys).1 (inl a))
    | inr (inl e) ↦ inl e
    | inr (inr b) ↦ inr ((Among-append o xs ys).1 (inr b))
  ],
  λ h. elim h [
    | inl e ↦ (Among-append o xs (x ∷ ys)).1 (inr (inl e))
    | inr m ↦ elim ((Among-append o xs ys).0 m) [
      | inl a ↦ (Among-append o xs (x ∷ ys)).1 (inl a)
      | inr b ↦ (Among-append o xs (x ∷ ys)).1 (inr (inr b))
    ]
  ],
)

pub All-Among : (P : ℕ → Type 0) (xs : List ℕ) → ((o : ℕ) → Among o xs → P o) → All P xs
All-Among P [] f = tt
All-Among P (x ∷ xs) f = (f x (inl refl), All-Among P xs (λ o m. f o (inr m)))

pub Among-All : (P : ℕ → Type 0) (xs : List ℕ) → All P xs → (o : ℕ) → Among o xs → P o
Among-All P [] h o m = absurd m
Among-All P (x ∷ xs) h o (inl e) = subst P (sym e) h.0
Among-All P (x ∷ xs) h o (inr m) = Among-All P xs h.1 o m

-- a pointer to the node of the item at `off`, in the tree `root`
abbrev pub Points : Avl ℕ → ℕ → Option (Place ℕ) → Type 0
Points root off r =
    (up : Above ℕ) × (l : Avl ℕ) × (h : ℕ) × (rt : Avl ℕ) × (r
      ≡ some (record { above = up; tree = node l off h rt }))
    × (whole up (node l off h rt) ≡ root)

pub node_at-Points :
    (up : Above ℕ) (t : Avl ℕ) (off : ℕ)
    → ((node_at up t off ≡ none) × (Among off (items t) → ⊥))
      ⊎ Points (whole up t) off (node_at up t off)
unfolding node_at
node_at-Points up nil off = inl (refl, λ m. m)
node_at-Points up (node l x h r) off = elim (Bool-cases (x == off)) [
  | inl e ↦
      let at = (==_iff x off).0 e in
      inr (
        up,
        l,
        h,
        r,
        rw e (ap (λ y. some (record { above = up; tree = node l y h r })) at),
        ap (λ y. whole up (node l y h r)) (sym at),
      )
  | inr e ↦ elim (node_at-Points (from_left up x h r) l off) [
    | inr (u, a, b, c, found, is) ↦ inr (u, a, b, c, rw (e, found) refl, is)
    | inl (f, absent) ↦ elim (node_at-Points (from_right l x h up) r off) [
      | inr (u, a, b, c, found, is) ↦ inr (u, a, b, c, rw (e, f, found) refl, is)
      | inl (g, gone) ↦ inl (
        rw (e, f, g) refl,
        λ m. elim ((Among-around off x (items l) (items r)).0 m) [
          | inl q ↦ ground (arith, e, q)
          | inr k ↦ elim ((Among-append off (items l) (items r)).0 k) [
            | inl y ↦ absent y
            | inr y ↦ gone y
          ]
        ],
      )
    ]
  ]
]
