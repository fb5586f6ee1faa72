-- ===== src/Ext/Reliable.antt =====
-- ext_insert on a store that takes every change.

use scoutfs_kmod_dev.Base.{ℕ, ◌≡◌, true, false, Ret, ok, err, enoent, Errno, Kernel, done}
use scoutfs_kmod_dev.Ext.{Changes, ExtOps, Extent}
use scoutfs_kmod_dev.Ext.Store.{ExtSet, IsExtStore}

-- An extent that is not held can be inserted, one that is held can be removed, and `next` fails only
-- where it finds nothing.
pub record TakesAll {S : Type 0} (ops : ExtOps S) (holds : S → ExtSet) : Type 0 where
  pub inserts : (s : S) (e : Extent) → holds s e ≡ false → (ops.insert s e).0 ≡ ok
  pub removes : (s : S) (e : Extent) → holds s e ≡ true → (ops.remove s e).0 ≡ ok
  pub finds : (s : S) (b len : ℕ) (r : Errno) → (ops.next s b len).0 ≡ err r → r ≡ enoent

module _ {S : Type 0} (ops : ExtOps S) (holds : S → ExtSet) (store : IsExtStore ops holds)
    (takes : TakesAll ops holds) where
  abbrev Succeeds : S → (ExtSet → Type 0) → Kernel (Ret × S) → Type 0
  Succeeds s P r = (s' : S) × (r ≡ done (ok, s')) × P (holds s')
