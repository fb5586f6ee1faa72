-- ===== src/Ext/Overlap.antt =====
-- Whether a block of an extent is held, as the overlap with the next extent of the store tells.
use mathlib.Core.Bool.{false≢true}
use scoutfs_kmod_dev.Base.{
  if◌then◌else◌, ℕ, ◌≡◌, Bool, true, ◌∙◌, arith, ok, err, enoent, false, ap, ltb, sym,
}
use scoutfs_kmod_dev.Ext.{Extent, ExtOps, ext_overlap}
use scoutfs_kmod_dev.Ext.Blocks.{Fits, ext_overlap_iff}
use scoutfs_kmod_dev.Ext.Store.{ExtSet, IsExtSet, IsExtStore}
use scoutfs_kmod_dev.Ext.Pending.{Fresh}

module _ {S : Type 0} (ops : ExtOps S) (holds : S → ExtSet) (store : IsExtStore ops holds)
    (unmapped : ℕ → Bool) (s : S) (members : IsExtSet unmapped (holds s)) where
  -- the extent that `next` finds at the start of `e`
  abbrev pub neighbour : Extent → Extent
  neighbour e = (ops.next s e.start 1).1

  pub Fresh-of_apart :
      (e : Extent)
      → Fits e
      → (ops.next s e.start 1).0 ≡ ok
      → ext_overlap e (neighbour e).start (neighbour e).len ≡ false
      → Fresh (holds s) e
  Fresh-of_apart e fits q no_overlap x b held i j k l =
      let (n_held, after, first) = store.next_ok s e.start q in
      let n_fits = members.fits (neighbour e) n_held in
      let sides =
        (ext_overlap_iff e (neighbour e).start (neighbour e).len fits n_fits.some_blocks
            n_fits.end_fits).0
          no_overlap in
      let past = first x held (omega arith) in
      let at =
        members.apart x (neighbour e) (neighbour e).start held n_held (omega arith) (omega arith)
          (omega arith) (omega (arith, n_fits.some_blocks)) in
      absurd (omega (arith, ap (λ (z : Extent). z.start) at))

  pub not_Fresh :
      (e : Extent)
      → Fits e
      → (ops.next s e.start 1).0 ≡ ok
      → ext_overlap e (neighbour e).start (neighbour e).len ≡ true
      → ¬ (Fresh (holds s) e)
  not_Fresh e fits q overlaps fresh =
      let (held, after, _) = store.next_ok s e.start q in
      let n_fits = members.fits (neighbour e) held in
      let separate =
        (ext_overlap_iff e (neighbour e).start (neighbour e).len fits n_fits.some_blocks
          n_fits.end_fits).1 in
      let shared =
        fresh (neighbour e)
          (if ltb e.start (neighbour e).start then (neighbour e).start else e.start) held in
      false≢true (sym (separate (ground (arith, shared, after, fits, n_fits))) ∙ overlaps)

  pub Fresh-of_none : (e : Extent) → (ops.next s e.start 1).0 ≡ err enoent → Fresh (holds s) e
  Fresh-of_none e q x b held i j k l = omega (arith, (store.next_enoent s e.start q).1 x held)
