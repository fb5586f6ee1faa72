-- ===== src/LockServer/Entries.antt =====
-- Entries of the clients of one lock, and when they may hold it at once.
use scoutfs_kmod_dev.Base.{
  ==_iff, ◌==◌, ◌≢◌, ℕ, ◌≡◌, ◌≢◌, ◌⊎◌, true, refl, sym, ◌∙◌, ap, arith, Ret, List, [], ◌∷◌, ◌++◌,
  subst, some, if◌then◌else◌, Bool-cases, inl, inr,
}
use mathlib.Core.List.{append_assoc, append-nil}
use scoutfs_kmod_dev.Base.Lists.{All, Pairs, Pairs-middle, Pairs-snoc, Pairs-insert, All-imp}
use scoutfs_kmod_dev.Base.Rules.{if_rule}
use scoutfs_kmod_dev.LockServer.{
  ClientEntry, LockNode, Message, Work, client_entries_compatible, del_entry, is_empty,
  grant_request, lock_null, lock_read, lock_write_only, invalidation_mode, find_entry, answered,
}

-- Two clients may hold the modes at once: both read, or both write only.
abbrev pub Shared : ℕ → ℕ → Type 0
Shared m n = (m ≡ n) × ((m ≡ lock_read) ⊎ (m ≡ lock_write_only))

abbrev pub Apart : ClientEntry → ClientEntry → Type 0
Apart a b = (a.rid ≢ b.rid) × Shared a.mode b.mode

pub Apart-flip : (a b : ClientEntry) → Apart a b → Apart b a
Apart-flip a b h = ground arith

-- The entries of the clients that hold the lock or have not answered yet are of different clients,
-- in modes that all of them may hold at once.
abbrev pub Exclusive : LockNode → Type 0
Exclusive n = Pairs Apart (n.granted ++ n.invalidated)

abbrev pub Compatible : ClientEntry → ClientEntry → Type 0
Compatible req gr = client_entries_compatible gr req ≡ true

-- An entry goes from the middle of the first list to the end of the second.
pub moved :
    (kept : List ClientEntry) (gr : ClientEntry) (rest inv : List ClientEntry)
    → Pairs Apart ((kept ++ gr ∷ rest) ++ inv)
    → Pairs Apart ((kept ++ rest) ++ (inv ++ gr ∷ []))
moved kept gr rest inv h =
    let (others, apart) =
      Pairs-middle Apart Apart-flip kept gr (rest ++ inv)
        (subst (Pairs Apart) (append_assoc kept (gr ∷ rest) inv) h) in
    subst (Pairs Apart)
      (ap (λ l. l ++ gr ∷ []) (sym (append_assoc kept rest inv))
        ∙ append_assoc (kept ++ rest) inv (gr ∷ []))
      (Pairs-snoc Apart Apart-flip (kept ++ (rest ++ inv)) gr others apart)

Compatible-Apart : (req g : ClientEntry) → Compatible req g → req.rid ≢ g.rid → Apart req g
unfolding client_entries_compatible
Compatible-Apart req g c n = ground arith

-- Entries of other clients than the grant that is taken out.
others-Apart :
    (req g : ClientEntry) (gs : List ClientEntry)
    → g.rid ≡ req.rid
    → All (Apart g) gs
    → All (Compatible req) gs
    → All (Apart req) gs
others-Apart req g [] e h c = tt
others-Apart req g (x ∷ xs) e h c =
    (Compatible-Apart req x c.0 (λ u. h.0.0 (e ∙ u)), others-Apart req g xs e h.1 c.1)

del_entry-All :
    (P : ClientEntry → Type 0) (gs : List ClientEntry) (rid : ℕ)
    → All P gs
    → All P (del_entry gs rid)
unfolding del_entry
del_entry-All P [] rid h = tt
del_entry-All P (g ∷ gs) rid h =
    if_rule (All P) (g.rid == rid) gs (g ∷ del_entry gs rid) (λ _. h.1)
      (λ _. (h.0, del_entry-All P gs rid h.1))

-- The client's earlier grant is taken out; the others stand apart from the request.
pub del_entry-Apart :
    (req : ClientEntry) (gs : List ClientEntry)
    → Pairs Apart gs
    → All (Compatible req) gs
    → All (Apart req) (del_entry gs req.rid) × Pairs Apart (del_entry gs req.rid)
unfolding del_entry
del_entry-Apart req [] h c = (tt, tt)
del_entry-Apart req (g ∷ gs) h c =
    let (apart, others) = del_entry-Apart req gs h.1 c.1 in
    if_rule (λ (l : List ClientEntry). All (Apart req) l × Pairs Apart l) (g.rid == req.rid) gs
      (g ∷ del_entry gs req.rid)
      (λ t. (others-Apart req g gs ((==_iff g.rid req.rid).0 t) h.0 c.1, h.1))
      (λ t. (
        (Compatible-Apart req g c.0 (λ u. ground (arith, t, u)), apart),
        (del_entry-All (Apart g) gs req.rid h.0, others),
      ))

pub unasked : (gs inv : List ClientEntry) → inv ≡ [] → Pairs Apart gs → Pairs Apart (gs ++ inv)
unasked gs inv e h =
    subst (λ l. Pairs Apart (gs ++ l)) (sym e) (subst (Pairs Apart) (sym (append-nil gs)) h)

pub is_empty-nil : (l : List ClientEntry) → is_empty l ≡ true → l ≡ []
is_empty-nil [] h = refl
is_empty-nil (x ∷ xs) h = cc

pub grant_request-invalidated :
    (net : List Message → Message → Ret) (req : ClientEntry) (rest : List ClientEntry) (w : Work)
    → (grant_request net req rest w).1.node.invalidated ≡ w.node.invalidated
unfolding grant_request
grant_request-invalidated net req rest w = ground arith

-- find_entry finds the entry that del_entry leaves out.
find_entry-split :
    (l : List ClientEntry) (rid : ℕ) (c : ClientEntry)
    → find_entry l rid ≡ some c
    → (before after : List ClientEntry) × (l ≡ before ++ c ∷ after)
      × (del_entry l rid ≡ before ++ after)
      × (c.rid ≡ rid)
unfolding find_entry del_entry
find_entry-split [] rid c h = cc
find_entry-split (x ∷ xs) rid c h = elim (Bool-cases (x.rid == rid)) [
  | inl t ↦ ([], xs, ground (arith, t), ground (arith, t), ground (arith, t))
  | inr t ↦
      let (before, after, e, d, r) = find_entry-split xs rid c (ground (arith, t)) in
      (x ∷ before, after, ap (λ l. x ∷ l) e, rw t (ap (λ l. x ∷ l) d), r)
]

-- A client that gives up writing, or its lock, stands apart from the others as before.
answered-Apart :
    (c : ClientEntry) (new requested : ℕ)
    → new ≡ invalidation_mode c.mode requested
    → new ≢ lock_null
    → (x : ClientEntry) → Apart c x
    → Apart (record c { mode = new }) x
unfolding invalidation_mode
answered-Apart c new requested e n x h = ground arith

pub answered-Exclusive :
    (c : ClientEntry) (new rid : ℕ) (w : Work)
    → find_entry w.node.invalidated rid ≡ some c
    → Exclusive w.node
    → (requested : ℕ) × (new ≡ invalidation_mode c.mode requested)
    → Exclusive (answered c new w).node
answered-Exclusive c new rid w found h (requested, e) =
    let (before, after, split, left, r) = find_entry-split w.node.invalidated rid c found in
    let gs = w.node.granted in
    let (others, apart) = Pairs-middle Apart Apart-flip (gs ++ before) c after (
      subst (Pairs Apart) (sym (append_assoc gs before (c ∷ after)))
        (subst (λ l. Pairs Apart (gs ++ l)) split h)) in
    let others' : Pairs Apart (gs ++ (before ++ after)) =
      subst (Pairs Apart) (append_assoc gs before after) others in
    let apart' : All (Apart c) (gs ++ (before ++ after)) =
      subst (All (Apart c)) (append_assoc gs before after) apart in
    subst
      (λ l.
        Pairs Apart ((if new == lock_null then gs else gs ++ record c { mode = new } ∷ []) ++ l))
      (sym (ap (del_entry w.node.invalidated) r ∙ left))
      (if_rule (λ l. Pairs Apart (l ++ (before ++ after))) (new == lock_null) gs
        (gs ++ record c { mode = new } ∷ []) (λ _. others')
        (λ t.
          Pairs-insert Apart Apart-flip gs (record c { mode = new }) (before ++ after) others'
            (All-imp (answered-Apart c new requested e (λ u. ground (arith, t, u)))
              (gs ++ (before ++ after)) apart')))
