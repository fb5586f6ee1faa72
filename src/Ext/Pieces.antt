-- ===== src/Ext/Pieces.antt =====
-- A member that is taken out of a set of extents leaves pieces of itself behind.
use native.Mathlib.Decide.{dec_lt}
use mathlib.Core.Bool.{false≢true}
use scoutfs_kmod_dev.Base.{
  Bool-cases, subst, ◌∙◌, sym, ℕ, ◌+◌, ◌≤◌, ◌<◌, ◌≡◌, ◌≢◌, ◌↔◌, ◌⊎◌, inl, inr, ◌==◌, Bool,
  Bool-cases, true, false, refl, sym, ◌∙◌, arith, if◌then◌else◌, u64_size, subst, add64, sub64,
}
use scoutfs_kmod_dev.Ext.{Extent, ext_split_left, ext_split_right, ext_map_add}
use scoutfs_kmod_dev.Ext.Blocks.{
  Fits, At, block_at, Within, At-split_left, At-split_right, split_left-Fits, split_right-Fits,
}
use scoutfs_kmod_dev.Ext.Store.{
  ext_eq, ext_eq_iff, ExtSet, add_to, remove_from, IsExtSet, Maps, mem-add_to, mem-remove_from,
}
use scoutfs_kmod_dev.Ext.Pending.{
  Pending, Fresh, Both, Maps-add_to, add_to-IsExtSet, remove_from-IsExtSet,
}

-- The set with the piece, which is no member where it is empty.
abbrev pub with_piece : ExtSet → Extent → ExtSet
with_piece K p = if p.len == 0 then K else add_to K p

-- A piece is empty or can be added.
abbrev pub PendingPiece : (ℕ → Bool) → ExtSet → Extent → Type 0
PendingPiece unmapped K p = p.len ≢ 0 → Pending unmapped K p

pub len-cases :
    (p : Extent) → ((p.len ≡ 0) × ((p.len == 0) ≡ true)) ⊎ ((p.len ≢ 0) × ((p.len == 0) ≡ false))
len-cases p = ground arith

module _ (unmapped : ℕ → Bool) (K : ExtSet) (p : Extent) where
  pub Maps-with_piece : (b m f : ℕ) → Maps (with_piece K p) b m f ↔ Both K p b m f
  Maps-with_piece b m f = elim (len-cases p) [
    | inl z ↦ rw (z.1) (λ h. inr h, λ h. elim h [ inl a ↦ absurd (omega (arith, z.0)) | inr a ↦ a ])
    | inr z ↦ rw (z.1) (Maps-add_to K p b m f)
  ]

  pub with_piece-IsExtSet :
      IsExtSet unmapped K → PendingPiece unmapped K p → IsExtSet unmapped (with_piece K p)
  with_piece-IsExtSet members piece = elim (len-cases p) [
    | inl z ↦ rw (z.1) members
    | inr z ↦ rw (z.1) (add_to-IsExtSet unmapped K p (piece z.0))
  ]

  -- A piece that shares no block with the members or the piece that was added is still fresh.
  pub Fresh-with_piece :
      (q : Extent)
      → Fresh K q
      → ((b : ℕ) → p.start ≤ b → b < p.start + p.len → q.start ≤ b → b < q.start + q.len → ⊥)
      → Fresh (with_piece K p) q
  Fresh-with_piece q fresh apart = elim (len-cases p) [
    | inl z ↦ rw (z.1) fresh
    | inr z ↦ rw (z.1) (λ x b held i j k l. elim ((mem-add_to K p x).0 held) [
      | inl u ↦
          apart b (subst (λ (w : Extent). w.start ≤ b) u i)
            (subst (λ (w : Extent). b < w.start + w.len) u j) k l
      | inr u ↦ fresh x b u i j k l
    ])
  ]

past_range : (start len b : ℕ) → ¬ (Within start len b) → ¬ (b < start) → start + len ≤ b
past_range start len b n after = elim (dec_lt b (start + len)) [
  | yes h ↦ absurd (n (omega arith, h))
  | no h ↦ omega arith
]

-- A piece of a member is fresh once the member is out.
pub Fresh-of_part :
    (unmapped : ℕ → Bool) (H : ExtSet) (found p : Extent)
    → IsExtSet unmapped H
    → H found ≡ true
    → ((b m f : ℕ) → At p b m f → At found b m f)
    → Fresh (remove_from H found) p
Fresh-of_part unmapped H found p members held part x b in_K i j k l =
    let (in_H, other) = (mem-remove_from H found x).0 in_K in
    let at = part b (block_at p b) p.flags (k, l, refl, refl) in
    other (members.apart x found b in_H held i j at.0 at.1)

module _ (unmapped : ℕ → Bool) (H : ExtSet) (members : IsExtSet unmapped H) (found : Extent)
    (held : H found ≡ true) (start len : ℕ) (pos : 0 < len) (bound : start + len < u64_size)
    (inside : (found.start ≤ start) × (start + len ≤ found.start + found.len)) where
  abbrev out : ExtSet
  out = remove_from H found

  abbrev left : Extent
  left = ext_split_left found start len

  abbrev right : Extent
  right = ext_split_right found start len

  found-Fits : Fits found
  found-Fits = members.fits found held

  in_left : (b m f : ℕ) → At left b m f ↔ (At found b m f × (b < start))
  in_left = At-split_left found start len found-Fits pos bound inside

  in_right : (b m f : ℕ) → At right b m f ↔ (At found b m f × (start + len ≤ b))
  in_right = At-split_right found start len found-Fits pos bound inside

  left_kind : left.len ≢ 0 → (left.map == 0) ≡ unmapped left.flags
  unfolding ext_split_left
  left_kind n = ground (arith, members.kind found held)

  right_kind : right.len ≢ 0 → (right.map == 0) ≡ unmapped right.flags
  unfolding ext_split_right ext_map_add add64 sub64
  right_kind n = ground (arith, members.kind found held, found-Fits)

  pub left-Pending : PendingPiece unmapped out left
  left-Pending n = record {
    members = remove_from-IsExtSet unmapped H found members;
    fits = split_left-Fits found start len found-Fits pos bound inside n;
    kind = left_kind n;
    fresh = Fresh-of_part unmapped H found left members held (λ b m f a. ((in_left b m f).0 a).0);
  }

  pub right-Pending : PendingPiece unmapped (with_piece out left) right
  right-Pending n = record {
    members =
        with_piece-IsExtSet unmapped out left (remove_from-IsExtSet unmapped H found members)
          left-Pending;
    fits = split_right-Fits found start len found-Fits pos bound inside n;
    kind = right_kind n;
    fresh =
        Fresh-with_piece unmapped out left right
          (Fresh-of_part unmapped H found right members held (λ b m f a. ((in_right b m f).0 a).0))
          (λ b i j k l. omega (
            arith,
            ((in_left b (block_at left b) left.flags).0 (i, j, refl, refl)).1,
            ((in_right b (block_at right b) right.flags).0 (k, l, refl, refl)).1,
          ));
  }

  -- Without the member and with its two pieces, the set says what it said of every block outside of
  -- the range, and nothing of a block in it.
  pub Maps-split :
      (b m f : ℕ)
      → Maps (with_piece (with_piece out left) right) b m f
        ↔ (Maps H b m f × ¬ (Within start len b))
  Maps-split b m f = (
    λ h. elim ((Maps-with_piece unmapped (with_piece out left) right b m f).0 h) [
      | inl a ↦ let (u, v) = (in_right b m f).0 a in ((found, held, u), λ w. omega arith)
      | inr h' ↦ elim ((Maps-with_piece unmapped out left b m f).0 h') [
        | inl a ↦ let (u, v) = (in_left b m f).0 a in ((found, held, u), λ w. omega arith)
        | inr (x, q, a) ↦
            let (in_H, other) = (mem-remove_from H found x).0 q in
            (
              (x, in_H, a),
              λ w. other (members.apart x found b in_H held a.0 a.1 (omega arith) (omega arith)),
            )
      ]
    ],
    λ h.
        let (x, q, a) = h.0 in
        elim (Bool-cases (ext_eq x found)) [
          | inl t ↦
              let a' : At found b m f = subst (λ z. At z b m f) ((ext_eq_iff x found).0 t) a in
              elim (dec_lt b start) [
                | yes before ↦ (Maps-with_piece unmapped (with_piece out left) right b m f).1 (
                    inr (
                      (Maps-with_piece unmapped out left b m f).1
                        (inl ((in_left b m f).1 (a', before)))))
                | no after ↦
                    (Maps-with_piece unmapped (with_piece out left) right b m f).1
                      (inl ((in_right b m f).1 (a', past_range start len b h.1 after)))
              ]
          | inr t ↦ (Maps-with_piece unmapped (with_piece out left) right b m f).1 (
              inr (
                (Maps-with_piece unmapped out left b m f).1 (
                  inr (
                    x,
                    (mem-remove_from H found x).1
                        (q, λ u. false≢true (sym t ∙ (ext_eq_iff x found).1 u)),
                    a,
                  ))))
        ],
  )
