-- ===== src/Btree/Hash/Remove.antt =====
-- leaf_item_hash_delete.
use scoutfs_kmod_dev.Base.{
  ℕ, zero, suc, ◌+◌, ◌<◌, ◌≤◌, ◌≡◌, ◌≢◌, ◌↔◌, inl, inr, ◌==◌, ==_iff, Bool-cases, Option, some,
  Kernel, done, arith, refl, ap, sym, ◌∙◌, subst,
}
use scoutfs_kmod_dev.Key.{Key}
use scoutfs_kmod_dev.Btree.Hash.{
  hash_nr, Buckets, set_bucket, next_bucket, leaf_item_hash_insert, rehash_after,
  leaf_item_hash_delete,
}
use scoutfs_kmod_dev.Btree.Hash.Distance.{
  dist, dist-lt, next_bucket-lt, dist_to_next, interval, in_interval, dist_apart,
}
use scoutfs_kmod_dev.Btree.Hash.Probe.{insert_from-Places, delete_from_lem}
use scoutfs_kmod_dev.Btree.Hash.Load.{load, load-room, load-empty}
use scoutfs_kmod_dev.Btree.Hash.Table.{leaf_item_hash_ind-lt, Has, home, IsTable, IsTable-Stands}
use scoutfs_kmod_dev.Btree.Hash.Sweep.{
  Sweeps, Moves, Moves-trans, Sweeps-IsTable, step-Sweeps, step-Moves,
}
use native.Mathlib.Decide.{dec_le}

module _ (keys : ℕ → Key) where
  module _ (e : ℕ) (in_table : e < hash_nr) where
    abbrev Swept : Buckets → Option (Kernel Buckets) → Type 0
    Swept b r = (b' : Buckets) × (r ≡ some (done b')) × IsTable keys b' × Moves keys e in_table b b'

    -- The loop ends at the empty bucket `e` at the latest.
    rehash_after-Swept :
        (fuel : ℕ) (b : Buckets) (i : ℕ)
        → i < hash_nr
        → Sweeps keys e in_table i b
        → hash_nr ≤ fuel + dist e i
        → Swept b (rehash_after keys fuel b i)
    unfolding rehash_after leaf_item_hash_insert
    rehash_after-Swept zero b i l s enough = absurd (omega (arith, enough, dist-lt e i in_table l))
    rehash_after-Swept (suc fuel) b i l s enough = elim (Bool-cases (b (next_bucket i) == 0)) [
      | inl z ↦ (
        b,
        ground (arith, z),
        Sweeps-IsTable keys e in_table i b l s (ground (arith, z)),
        record { has = λ x m. (λ h. h, λ h. h); loaded = refl },
      )
      | inr z ↦
          let n : b (next_bucket i) ≢ 0 = ground (arith, z) in
          let i' = next_bucket i in
          let b1 : Buckets = set_bucket b i' 0 in
          let il = next_bucket-lt i l in
          let hl = leaf_item_hash_ind-lt (keys (b i')) in
          let (p, pl, empty, r, all) =
            insert_from-Places hash_nr b1 (b i') (home keys (b i')) i' hl il (ground arith)
              (dist-lt (home keys (b i')) i' hl il) in
          let b2 : Buckets = set_bucket b1 p (b i') in
          let not_free : i' ≢ e = λ x. n (ap b x ∙ s.free) in
          let (b', done', table, moves) =
            rehash_after-Swept fuel b2 i' il (step-Sweeps keys e in_table i b l s n p pl empty all)
              (omega (arith, enough, dist_to_next e i in_table l not_free)) in
          (
            b',
            ground (arith, z, r, done'),
            table,
            Moves-trans keys e in_table b b2 b'
                (step-Moves keys e in_table i b l s n p pl empty all) moves,
          )
    ]

    -- the table once the item's bucket is emptied
    emptied-Sweeps :
        (b : Buckets) (p : ℕ)
        → IsTable keys b
        → b e ≡ 0
        → p < hash_nr
        → Sweeps keys e in_table p (set_bucket b p 0)
    emptied-Sweeps b p h free l = record {
      free = ground (arith, free);
      apart = λ q k n.
          let (f, m) = old q n in subst (λ z. 0 < dist e (home keys z)) (sym f) (bounds q k m).0;
      rises = λ q k n.
          let (f, m) = old q n in
          subst (λ z. dist e (home keys z) ≤ dist e q) (sym f) (bounds q k m).1;
      fills = λ q r k c n low high w.
          let (f, m) = old q n in
          let low' : dist e (home keys (b q)) ≤ dist e r =
            subst (λ z. dist e (home keys z) ≤ dist e r) f low in
          let hl = leaf_item_hash_ind-lt (keys (b q)) in
          let d = in_interval e (home keys (b q)) q r in_table hl k c (bounds q k m).1 low' high in
          let there = h.reach q k m r c d in
          elim (Bool-cases (r == p)) [
            | inl x ↦
                let g : dist e r ≡ dist e p = ap (dist e) ((==_iff r p).0 x) in
                absurd (omega (arith, g, high, w))
            | inr x ↦ ground (arith, there, x)
          ];
      one = λ q r k c n f.
          let (x, m) = old q n in
          let (y, _) = old r (λ z. n (f ∙ z)) in h.one q r k c m (sym x ∙ f ∙ y);
    }
      where
        old : (q : ℕ) → set_bucket b p 0 q ≢ 0 → (set_bucket b p 0 q ≡ b q) × (b q ≢ 0)
        old q n = ground (arith, n)

        bounds :
            (q : ℕ)
            → q < hash_nr
            → b q ≢ 0
            → (0 < dist e (home keys (b q))) × (dist e (home keys (b q)) ≤ dist e q)
        bounds q k m =
            let i = home keys (b q) in
            let il = leaf_item_hash_ind-lt (keys (b q)) in
            let away : q ≢ e = λ x. m (ap b x ∙ free) in
            let short : dist i q ≤ dist i e = elim (dec_le (dist i q) (dist i e)) [
              | yes u ↦ u
              | no u ↦ absurd (h.reach q k m e in_table (omega (arith, u)) free)
            ] in
            let near : i ≡ e → dist i e < dist i q = λ x.
              let here : dist i e ≡ 0 = subst (λ y. dist i y ≡ 0) x (ground arith) in
              omega (arith, here, dist_apart i q il k (λ g. away (g ∙ x))) in
            (
              dist_apart e i in_table il (λ x. h.reach q k m e in_table (near x) free),
              interval e i q in_table il k short away,
            )

  -- The table with one item less.
  pub record Removes (b : Buckets) (off : ℕ) (b' : Buckets) : Type 0 where
    pub table : IsTable keys b'
    pub has : (x : ℕ) → x ≢ 0 → Has b' x ↔ (Has b x × (x ≢ off))
    pub loaded : load b' + 1 ≡ load b

  -- In a table that is not full and whose items can be probed for, leaf_item_hash_delete of one of
  -- its items ends within as many steps as there are buckets and meets no BUG, and the table has the
  -- other items then, each of which can be probed for.
  pub leaf_item_hash_delete-Removes :
      (b : Buckets) (off : ℕ)
      → IsTable keys b
      → off ≢ 0
      → Has b off
      → load b < hash_nr
      → (b' : Buckets) × (leaf_item_hash_delete keys hash_nr 0 b (keys off) off ≡ some (done b'))
        × Removes b off b'
  unfolding leaf_item_hash_delete
  leaf_item_hash_delete-Removes b off h m (p, l, f) room =
      let (e, k, free) = load-room b room in
      let il = leaf_item_hash_ind-lt (keys off) in
      let found =
        delete_from_lem hash_nr b off (home keys off) p il (dist-lt (home keys off) p il l)
          (IsTable-Stands keys b h off p l f m) in
      let (b', done', table, moves) =
        rehash_after-Swept e k hash_nr (set_bucket b p 0) p l (emptied-Sweeps e k b p h free l)
          (omega arith) in
      (
        b',
        ground (arith, found, done'),
        record {
          table = table;
          has = λ x z. (
            λ a.
                let (q, c, g) = (moves.has x z).0 a in
                elim (Bool-cases (q == p)) [
                  | inl y ↦ absurd (z (ground (arith, g, y)))
                  | inr y ↦
                      let g' : b q ≡ x = ground (arith, g, y) in
                      (
                        (q, c, g'),
                        λ w.
                            ground
                              (arith, y, h.one p q l c (λ v. m (sym f ∙ v)) (f ∙ sym w ∙ sym g')),
                      )
                ],
            λ ((q, c, g), n). (moves.has x z).1 (
              q,
              c,
              elim (Bool-cases (q == p)) [
                | inl y ↦ absurd (n (sym g ∙ ap b ((==_iff q p).0 y) ∙ f))
                | inr y ↦ ground (arith, g, y)
              ],
            ),
          );
          loaded = omega (arith, moves.loaded, load-empty b p l (λ y. m (sym f ∙ y)));
        },
      )
