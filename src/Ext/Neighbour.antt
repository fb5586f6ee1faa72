-- ===== src/Ext/Neighbour.antt =====
-- Rules for the branches that ext_insert and ext_set share.
use scoutfs_kmod_dev.Base.{
  subst, ℕ, ◌≡◌, Bool, true, Ret, ok, err, enoent, Errno, Kernel, done, none, some, hard_error,
  hard_error-cases, is_ok, if◌then◌else◌, ◌&&◌, inl, inr, sym, Ret-cases, ◌≢◌, ap, ◌∙◌,
}
use scoutfs_kmod_dev.Base.Rules.{if_rule}
use scoutfs_kmod_dev.Ext.{Extent, ExtOps}
use scoutfs_kmod_dev.Ext.Store.{ExtSet, IsExtStore}

hard_error-ne : (e : Errno) → hard_error (err e) ≡ some e → e ≢ enoent
hard_error-ne e h q = cc (h, ap (λ x. hard_error (err x)) q)

module _ {S : Type 0} (ops : ExtOps S) (holds : S → ExtSet) (store : IsExtStore ops holds)
    (P : Kernel (Ret × S) → Type 0) (s : S) (b : ℕ) where
  -- `next` found a member, found none, or failed with an error that is handed back.
  pub next_rule :
      (rest : Ret → Extent → Kernel (Ret × S))
      → ((e : Errno) → (ops.next s b 1).0 ≡ err e → e ≢ enoent → P (done (err e, s)))
      → ((ops.next s b 1).0 ≡ ok → P (rest ok (ops.next s b 1).1))
      → ((ops.next s b 1).0 ≡ err enoent → P (rest (err enoent) (ops.next s b 1).1))
      → P (elim (hard_error (ops.next s b 1).0) [
        | some e ↦ done (err e, s)
        | none ↦ rest (ops.next s b 1).0 (ops.next s b 1).1
      ])
  next_rule rest failed found missing = elim (hard_error-cases (ops.next s b 1).0) [
    | inl q ↦ rw q (subst (λ r. P (rest r (ops.next s b 1).1)) (sym q) (found q))
    | inr (inl q) ↦ rw q (subst (λ r. P (rest r (ops.next s b 1).1)) (sym q) (missing q))
    | inr (inr (e, q, r)) ↦ rw q (failed e r (hard_error-ne e (ap hard_error (sym r) ∙ q)))
  ]

  -- A neighbour that can be merged with is taken in.
  pub merge_rule :
      (test : Extent → Bool) (merged : Extent → Kernel (Ret × S)) (alone : Kernel (Ret × S))
      → ((e : Errno) → (ops.next s b 1).0 ≡ err e → e ≢ enoent → P (done (err e, s)))
      → ((found : Extent) → holds s found ≡ true → test found ≡ true → P (merged found))
      → P alone
      → P (elim (hard_error (ops.next s b 1).0) [
        | some e ↦ done (err e, s)
        | none ↦
            if is_ok (ops.next s b 1).0 && test (ops.next s b 1).1
            then merged (ops.next s b 1).1
            else alone
      ])
  merge_rule test merged alone failed joins apart =
      next_rule (λ r n. if is_ok r && test n then merged n else alone) failed
        (λ q. if_rule P _ _ _ (joins (ops.next s b 1).1 (store.next_ok s b q).0) (λ _. apart))
        (λ _. apart)

  -- An error of `next` is handed back.
  pub found_rule :
      (rest : Extent → Kernel (Ret × S))
      → ((e : Errno) → (ops.next s b 1).0 ≡ err e → P (done (err e, s)))
      → ((ops.next s b 1).0 ≡ ok → P (rest (ops.next s b 1).1))
      → P (elim (ops.next s b 1).0 [ err e ↦ done (err e, s) | ok ↦ rest (ops.next s b 1).1 ])
  found_rule rest failed found = elim (Ret-cases (ops.next s b 1).0) [
    | inl q ↦ rw q (found q)
    | inr (e, q) ↦ rw q (failed e q)
  ]
