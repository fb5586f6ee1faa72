-- ===== src/Avl/Linked.antt =====
-- What links that represent a tree of offsets say at a place in it.
use scoutfs_kmod_dev.Base.{ℕ, ◌≡◌, ◌≢◌, ◌⊎◌, ◌↔◌, inl, inr, arith, refl}
use scoutfs_kmod_dev.Avl.{Avl, nil, node, Above, top, from_left, from_right, whole}
use scoutfs_kmod_dev.Avl.Links.{AvlLinks, offset, Linked, Represents, NotIn, NotAbove}

-- the offset of the next parent
abbrev pub parent_of : Above ℕ → ℕ
parent_of top = 0
parent_of (from_left _ x _ _) = x
parent_of (from_right _ x _ _) = x

-- The links above the child at an offset are those of the parents.
abbrev pub LinkedAbove : AvlLinks → Above ℕ → ℕ → Type 0
LinkedAbove s top child = s.root ≡ child
LinkedAbove s (from_left up x h r) child =
    (x ≢ 0)
    × ((s.parent x ≡ parent_of up) × (s.left x ≡ child) × (s.right x ≡ offset r) × (s.height x ≡ h))
    × Linked s x r
    × LinkedAbove s up x
LinkedAbove s (from_right l x h up) child =
    (x ≢ 0)
    × ((s.parent x ≡ parent_of up) × (s.left x ≡ offset l) × (s.right x ≡ child) × (s.height x ≡ h))
    × Linked s x l
    × LinkedAbove s up x

pub whole-Linked :
    (s : AvlLinks) (up : Above ℕ) (t : Avl ℕ)
    → Represents s (whole up t) ↔ (LinkedAbove s up (offset t) × Linked s (parent_of up) t)
whole-Linked s top t = (λ h. h, λ h. h)
whole-Linked s (from_left up x h r) t =
    let (down, back) = whole-Linked s up (node t x h r) in
    (
      λ p. let (a, (n, f, b, c)) = down p in ((n, f, c, a), b),
      λ ((n, f, c, a), b). back (a, (n, f, b, c)),
    )
whole-Linked s (from_right l x h up) t =
    let (down, back) = whole-Linked s up (node l x h t) in
    (
      λ p. let (a, (n, f, b, c)) = down p in ((n, f, b, a), c),
      λ ((n, f, b, a), c). back (a, (n, f, b, c)),
    )

pub offset-NotIn : (off : ℕ) (t : Avl ℕ) → off ≢ 0 → NotIn off t → offset t ≢ off
offset-NotIn off nil n h = omega arith
offset-NotIn off (node l x k r) n h = h.0

-- No parent is `off`, nor is the null pointer.
pub NotAbove-parent : (off : ℕ) (up : Above ℕ) → off ≢ 0 → NotAbove off up → parent_of up ≢ off
NotAbove-parent off top n h = omega arith
NotAbove-parent off (from_left _ x _ _) n h = h.0
NotAbove-parent off (from_right _ x _ _) n h = h.0

pub child_of_parent :
    (s : AvlLinks) (up : Above ℕ) (child : ℕ)
    → LinkedAbove s up child
    → parent_of up ≢ 0
    → ((s.left (parent_of up) ≡ child) ⊎ (s.right (parent_of up) ≡ child))
child_of_parent s top child h n = absurd (n refl)
child_of_parent s (from_left up x k r) child h n = inl h.1.1
child_of_parent s (from_right l x k up) child h n = inr h.1.2

pub parent_of_child :
    (s : AvlLinks) (up : ℕ) (t : Avl ℕ) → Linked s up t → offset t ≢ 0 → s.parent (offset t) ≡ up
parent_of_child s up nil h n = absurd (n refl)
parent_of_child s up (node l x k r) h n = h.1.0
