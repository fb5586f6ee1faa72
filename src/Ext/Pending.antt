-- ===== src/Ext/Pending.antt =====
-- A set of extents and an extent that is about to be added to it: absorbing a neighbour keeps what
-- the two say together.
use mathlib.Core.Bool.{false≢true, false}
use scoutfs_kmod_dev.Base.{
  subst, Bool-cases, ℕ, ◌+◌, ◌≤◌, ◌<◌, ◌≡◌, ◌↔◌, ◌⊎◌, inl, inr, ◌==◌, Bool, true, refl, sym, ◌∙◌,
  ap, subst, false, arith,
}
use scoutfs_kmod_dev.Ext.{Extent, ext_can_merge}
use scoutfs_kmod_dev.Ext.Blocks.{
  block_at, Fits, At, joined, joined-Fits, can_merge-adjacent, At-joined, At-joined-left,
  At-joined-right,
}
use scoutfs_kmod_dev.Ext.Store.{
  ext_eq, ext_eq_iff, ExtSet, add_to, remove_from, IsExtSet, Maps, mem-add_to, mem-remove_from,
}

-- No member has a block of `e`.
abbrev pub Fresh : ExtSet → Extent → Type 0
Fresh H e =
    (x : Extent) (b : ℕ)
    → H x ≡ true
    → x.start ≤ b
    → b < x.start + x.len
    → e.start ≤ b
    → b < e.start + e.len
    → ⊥

pub record Pending (unmapped : ℕ → Bool) (H : ExtSet) (e : Extent) : Type 0 where
  pub members : IsExtSet unmapped H
  pub fits : Fits e
  pub kind : (e.map == 0) ≡ unmapped e.flags
  pub fresh : Fresh H e

-- The members and the extent on hand.
abbrev pub Both : ExtSet → Extent → ℕ → ℕ → ℕ → Type 0
Both H e b m f = At e b m f ⊎ Maps H b m f

abbrev pub Same : ExtSet → Extent → ExtSet → Extent → Type 0
Same H e K d = (b m f : ℕ) → Both H e b m f ↔ Both K d b m f

pub Maps-add_to : (H : ExtSet) (e : Extent) (b m f : ℕ) → Maps (add_to H e) b m f ↔ Both H e b m f
Maps-add_to H e b m f = (
  λ h. elim ((mem-add_to H e h.0).0 h.1) [
    | inl q ↦ inl (subst (λ x. At x b m f) q h.2)
    | inr q ↦ inr (h.0, q, h.2)
  ],
  λ h. elim h [
    | inl a ↦ (e, (mem-add_to H e e).1 (inl refl), a)
    | inr (x, q, a) ↦ (x, (mem-add_to H e x).1 (inr q), a)
  ],
)

pub remove_from-IsExtSet :
    (unmapped : ℕ → Bool) (H : ExtSet) (e : Extent)
    → IsExtSet unmapped H
    → IsExtSet unmapped (remove_from H e)
remove_from-IsExtSet unmapped H e h = record {
  fits = λ x q. h.fits x ((mem-remove_from H e x).0 q).0;
  kind = λ x q. h.kind x ((mem-remove_from H e x).0 q).0;
  apart =
      λ x y b p q. h.apart x y b ((mem-remove_from H e x).0 p).0 ((mem-remove_from H e y).0 q).0;
}

module _ (unmapped : ℕ → Bool) (H : ExtSet) (e : Extent) (pending : Pending unmapped H e) where
  open pending use {members, fits, kind, fresh}

  -- It is no member yet.
  pub Pending-new : H e ≡ false
  Pending-new = elim (Bool-cases (H e)) [
    | inl t ↦ absurd (
        fresh e e.start t (omega arith) (omega (arith, fits.some_blocks)) (omega arith)
          (omega (arith, fits.some_blocks)))
    | inr t ↦ t
  ]

  pub add_to-IsExtSet : IsExtSet unmapped (add_to H e)
  add_to-IsExtSet = record {
    fits = λ x q. elim ((mem-add_to H e x).0 q) [ inl p ↦ rw p fits | inr p ↦ members.fits x p ];
    kind = λ x q. elim ((mem-add_to H e x).0 q) [ inl p ↦ rw p kind | inr p ↦ members.kind x p ];
    apart = λ x y b p q i j k l. elim ((mem-add_to H e x).0 p) [
      | inl u ↦ elim ((mem-add_to H e y).0 q) [
        | inl v ↦ u ∙ sym v
        | inr v ↦
            absurd (
              fresh y b v k l (subst (λ z. z.start ≤ b) u i) (subst (λ z. b < z.start + z.len) u j))
      ]
      | inr u ↦ elim ((mem-add_to H e y).0 q) [
        | inl v ↦
            absurd (
              fresh x b u i j (subst (λ z. z.start ≤ b) v k) (subst (λ z. b < z.start + z.len) v l))
        | inr v ↦ members.apart x y b u v i j k l
      ]
    ];
  }

  -- `j` is the extent and the member `n` of the set in one.
  module _ (n j : Extent) (held : H n ≡ true)
      (parts : (b m f : ℕ) → At j b m f ↔ (At e b m f ⊎ At n b m f)) where
    absorb-Same : Same H e (remove_from H n) j
    absorb-Same b m f = (
      λ h. elim h [
        | inl a ↦ inl ((parts b m f).1 (inl a))
        | inr (x, q, a) ↦ elim (Bool-cases (ext_eq x n)) [
          | inl t ↦ inl ((parts b m f).1 (inr (subst (λ z. At z b m f) ((ext_eq_iff x n).0 t) a)))
          | inr t ↦
              inr (
                x,
                (mem-remove_from H n x).1 (q, λ u. false≢true (sym t ∙ (ext_eq_iff x n).1 u)),
                a,
              )
        ]
      ],
      λ h. elim h [
        | inl a ↦ elim ((parts b m f).0 a) [ inl u ↦ inl u | inr u ↦ inr (n, held, u) ]
        | inr (x, q, a) ↦ inr (x, ((mem-remove_from H n x).0 q).0, a)
      ],
    )

    absorb-Fresh : Fresh (remove_from H n) j
    absorb-Fresh x b q i k u v =
        let (in_H, other) = (mem-remove_from H n x).0 q in
        elim ((parts b (block_at j b) j.flags).0 (u, v, refl, refl)) [
          | inl a ↦ fresh x b in_H i k a.0 a.1
          | inr a ↦ other (members.apart x n b in_H held i k a.0 a.1)
        ]

    absorb : Fits j → (j.map == 0) ≡ unmapped j.flags → Pending unmapped (remove_from H n) j
    absorb f k = record {
      members = remove_from-IsExtSet unmapped H n members;
      fits = f;
      kind = k;
      fresh = absorb-Fresh;
    }

  module _ (n : Extent) (held : H n ≡ true) where
    n-Fits : Fits n
    n-Fits = members.fits n held

    module _ (can : ext_can_merge e n ≡ true) where
      same_kind : (e.map == 0) ≡ (n.map == 0)
      same_kind =
          kind ∙ ap unmapped (can_merge-adjacent e n fits n-Fits can).1 ∙ sym (members.kind n held)

      right_parts : (b m f : ℕ) → At (joined e n) b m f ↔ (At e b m f ⊎ At n b m f)
      right_parts b m f = (
        At-joined e n fits n-Fits can same_kind b m f,
        λ h. elim h [
          | inl a ↦ At-joined-left e n fits n-Fits can same_kind b m f a
          | inr a ↦ At-joined-right e n fits n-Fits can same_kind b m f a
        ],
      )

      -- The pending extent takes in a member on its right.
      pub absorb_right : Pending unmapped (remove_from H n) (joined e n)
      absorb_right = absorb n (joined e n) held right_parts (joined-Fits e n fits n-Fits can) kind

      pub absorb_right-Same : Same H e (remove_from H n) (joined e n)
      absorb_right-Same = absorb-Same n (joined e n) held right_parts

    module _ (can : ext_can_merge n e ≡ true) where
      same_kind' : (n.map == 0) ≡ (e.map == 0)
      same_kind' =
          members.kind n held ∙ ap unmapped (can_merge-adjacent n e n-Fits fits can).1 ∙ sym kind

      left_parts : (b m f : ℕ) → At (joined n e) b m f ↔ (At e b m f ⊎ At n b m f)
      left_parts b m f = (
        λ a. elim (At-joined n e n-Fits fits can same_kind' b m f a) [
          | inl u ↦ inr u
          | inr u ↦ inl u
        ],
        λ h. elim h [
          | inl a ↦ At-joined-right n e n-Fits fits can same_kind' b m f a
          | inr a ↦ At-joined-left n e n-Fits fits can same_kind' b m f a
        ],
      )

      -- The pending extent takes in a member on its left.
      pub absorb_left : Pending unmapped (remove_from H n) (joined n e)
      absorb_left =
          absorb n (joined n e) held left_parts (joined-Fits n e n-Fits fits can)
            (members.kind n held)

      pub absorb_left-Same : Same H e (remove_from H n) (joined n e)
      absorb_left-Same = absorb-Same n (joined n e) held left_parts
