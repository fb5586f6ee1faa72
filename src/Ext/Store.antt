-- ===== src/Ext/Store.antt =====
-- What a store of extents promises to ext.c: it holds a set of extents, `next` finds the first of
-- them that ends at a block or after it, and an operation that fails has changed nothing.
use scoutfs_kmod_dev.Base.{
  ℕ, ◌+◌, ◌≤◌, ◌<◌, ◌≡◌, ◌≢◌, ◌↔◌, ◌⊎◌, ◌==◌, Bool, true, false, not, ◌&&◌, ◌||◌, arith, ok, err,
  enoent, Errno,
}
use mathlib.Core.Path.{fun_ext}
use scoutfs_kmod_dev.Ext.{Extent, ext_zero, ExtOps}
use scoutfs_kmod_dev.Ext.Blocks.{Fits, At}

abbrev pub ext_eq : Extent → Extent → Bool
ext_eq a b = a.start == b.start && a.len == b.len && a.map == b.map && a.flags == b.flags

pub ext_eq_iff : (a b : Extent) → (ext_eq a b ≡ true) ↔ (a ≡ b)
ext_eq_iff a b = ground arith

-- A set of extents by its members.
abbrev pub ExtSet : Type 0
ExtSet = Extent → Bool

unfoldable pub add_to : ExtSet → Extent → ExtSet
add_to H e x = ext_eq x e || H x

unfoldable pub remove_from : ExtSet → Extent → ExtSet
remove_from H e x = not (ext_eq x e) && H x

pub remove_from-add_to : (H : ExtSet) (e : Extent) → H e ≡ false → remove_from (add_to H e) e ≡ H
unfolding remove_from add_to
remove_from-add_to H e h = fun_ext (λ x. ground (arith, ext_eq_iff x e))

pub add_to-remove_from : (H : ExtSet) (e : Extent) → H e ≡ true → add_to (remove_from H e) e ≡ H
unfolding remove_from add_to
add_to-remove_from H e h = fun_ext (λ x. ground (arith, ext_eq_iff x e))

pub add_to_self : (H : ExtSet) (e : Extent) → add_to H e e ≡ true
unfolding add_to
add_to_self H e = ground arith

pub mem-remove_from :
    (H : ExtSet) (e x : Extent) → (remove_from H e x ≡ true) ↔ ((H x ≡ true) × (x ≢ e))
unfolding remove_from
mem-remove_from H e x = ground (arith, ext_eq_iff x e)

pub mem-add_to : (H : ExtSet) (e x : Extent) → (add_to H e x ≡ true) ↔ ((x ≡ e) ⊎ (H x ≡ true))
unfolding add_to
mem-add_to H e x = ground (arith, ext_eq_iff x e)

-- The set gives block `b` the device block `m` and the flags `f`.
abbrev pub Maps : ExtSet → ℕ → ℕ → ℕ → Type 0
Maps H b m f = (x : Extent) × (H x ≡ true) × At x b m f

-- Members fit, and share no block. `unmapped` says which flags the extents without a device block
-- carry, so that two extents of one kind of flags are both mapped or both not.
pub record IsExtSet (unmapped : ℕ → Bool) (H : ExtSet) : Type 0 where
  pub fits : (x : Extent) → H x ≡ true → Fits x
  pub kind : (x : Extent) → H x ≡ true → (x.map == 0) ≡ unmapped x.flags
  pub apart :
      (x y : Extent) (b : ℕ)
      → H x ≡ true
      → H y ≡ true
      → x.start ≤ b
      → b < x.start + x.len
      → y.start ≤ b
      → b < y.start + y.len
      → x ≡ y

abbrev pub EndsBefore : Extent → ℕ → Type 0
EndsBefore x b = x.start + x.len ≤ b

-- The laws of `next`, most of them at a length of one, of `insert` and of `remove`.
pub record IsExtStore {S : Type 0} (ops : ExtOps S) (holds : S → ExtSet) : Type 0 where
  pub next_ok :
      (s : S) (b : ℕ)
      → (ops.next s b 1).0 ≡ ok
      → (holds s (ops.next s b 1).1 ≡ true)
        × (b < (ops.next s b 1).1.start + (ops.next s b 1).1.len)
        × ((x : Extent)
            → holds s x ≡ true
            → b < x.start + x.len
            → (ops.next s b 1).1.start + (ops.next s b 1).1.len ≤ x.start + x.len)
  pub next_held :
      (s : S) (b len : ℕ) → (ops.next s b len).0 ≡ ok → holds s (ops.next s b len).1 ≡ true
  pub next_enoent :
      (s : S) (b : ℕ)
      → (ops.next s b 1).0 ≡ err enoent
      → ((ops.next s b 1).1 ≡ ext_zero) × ((x : Extent) → holds s x ≡ true → EndsBefore x b)
  pub insert_ok :
      (s : S) (e : Extent)
      → (ops.insert s e).0 ≡ ok
      → (holds s e ≡ false) × (holds (ops.insert s e).1 ≡ add_to (holds s) e)
  pub insert_err :
      (s : S) (e : Extent) (r : Errno)
      → (ops.insert s e).0 ≡ err r
      → holds (ops.insert s e).1 ≡ holds s
  pub remove_ok :
      (s : S) (e : Extent)
      → holds s e ≡ true
      → (ops.remove s e).0 ≡ ok
      → holds (ops.remove s e).1 ≡ remove_from (holds s) e
  pub remove_err :
      (s : S) (e : Extent) (r : Errno)
      → (ops.remove s e).0 ≡ err r
      → holds (ops.remove s e).1 ≡ holds s
