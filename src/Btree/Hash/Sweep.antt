-- ===== src/Btree/Hash/Sweep.antt =====
-- The loop of leaf_item_hash_delete over the populated buckets after the one that was emptied.
use scoutfs_kmod_dev.Base.{
  ℕ, ◌+◌, ◌<◌, ◌≤◌, ◌≡◌, ◌≢◌, ◌⊎◌, ◌↔◌, inl, inr, ◌==◌, ==_iff, Bool-cases, arith, ap, sym, ◌∙◌,
  subst,
}
use scoutfs_kmod_dev.Key.{Key}
use scoutfs_kmod_dev.Btree.Hash.{hash_nr, Buckets, set_bucket, next_bucket}
use scoutfs_kmod_dev.Btree.Hash.Distance.{
  dist, dist_inj, next_bucket-lt, dist_to_next, dist_last, in_interval, of_interval, up_to_interval,
}
use scoutfs_kmod_dev.Btree.Hash.Probe.{Passes}
use scoutfs_kmod_dev.Btree.Hash.Load.{load, load-fill, load-empty}
use scoutfs_kmod_dev.Btree.Hash.Table.{leaf_item_hash_ind-lt, Has, home, IsTable}
use native.Mathlib.Decide.{dec_le, dec_lt}

module _ (keys : ℕ → Key) (e : ℕ) (in_table : e < hash_nr) where
  -- Seen from the empty bucket `e`, the items up to bucket `i` can be probed for, and those after it
  -- can but for buckets up to `i`.
  pub record Sweeps (i : ℕ) (b : Buckets) : Type 0 where
    pub free : b e ≡ 0
    pub apart : (p : ℕ) → p < hash_nr → b p ≢ 0 → 0 < dist e (home keys (b p))
    pub rises : (p : ℕ) → p < hash_nr → b p ≢ 0 → dist e (home keys (b p)) ≤ dist e p
    pub fills :
        (p q : ℕ)
        → p < hash_nr
        → q < hash_nr
        → b p ≢ 0
        → dist e (home keys (b p)) ≤ dist e q
        → dist e q < dist e p
        → (dist e p ≤ dist e i) ⊎ (dist e i < dist e q)
        → b q ≢ 0
    pub one : (p q : ℕ) → p < hash_nr → q < hash_nr → b p ≢ 0 → b p ≡ b q → p ≡ q

  -- the same items in other buckets
  pub record Moves (b b' : Buckets) : Type 0 where
    pub has : (x : ℕ) → x ≢ 0 → Has b' x ↔ Has b x
    pub loaded : load b' ≡ load b

  pub Moves-trans : (a b c : Buckets) → Moves a b → Moves b c → Moves a c
  Moves-trans a b c m n = record {
    has = λ x z. (λ h. (m.has x z).0 ((n.has x z).0 h), λ h. (n.has x z).1 ((m.has x z).1 h));
    loaded = n.loaded ∙ m.loaded;
  }

  pub Sweeps-IsTable :
      (i : ℕ) (b : Buckets) → i < hash_nr → Sweeps i b → b (next_bucket i) ≡ 0 → IsTable keys b
  Sweeps-IsTable i b l s z = record {
    reach = λ p k n q c d.
        let h = home keys (b p) in
        let hl = leaf_item_hash_ind-lt (keys (b p)) in
        let (low, high) = of_interval e h p q in_table hl k c (s.rises p k n) d in
        elim (dec_le (dist e p) (dist e i)) [
          | yes u ↦ s.fills p q k c n low high (inl u)
          | no u ↦ elim (dec_lt (dist e i) (dist e q)) [
            | yes v ↦ s.fills p q k c n low high (inr v)
            | no v ↦ elim (Bool-cases (next_bucket i == e)) [
              | inl w ↦
                  let last = dist_last e i p in_table l k ((==_iff (next_bucket i) e).0 w) in
                  absurd (omega (arith, last, u))
              | inr w ↦
                  let i' = next_bucket i in
                  let il = next_bucket-lt i l in
                  let step = dist_to_next e i in_table l (ground (arith, w)) in
                  elim (Bool-cases (p == i')) [
                    | inl x ↦ absurd (n (ap b ((==_iff p i').0 x) ∙ z))
                    | inr x ↦
                        let differ : dist e p ≢ dist e i' =
                          λ f. ground (arith, x, dist_inj e p i' in_table k il f) in
                        absurd (
                          s.fills p i' k il n (omega (arith, low, v, step))
                            (omega (arith, u, step, differ)) (inr (omega (arith, step))) z)
                  ]
            ]
          ]
        ];
    one = s.one;
  }

  module _ (i : ℕ) (b : Buckets) (l : i < hash_nr) (s : Sweeps i b)
      (n : b (next_bucket i) ≢ 0) where
    abbrev i' : ℕ
    i' = next_bucket i

    abbrev b1 : Buckets
    b1 = set_bucket b i' 0

    il : i' < hash_nr
    il = next_bucket-lt i l

    not_free : i' ≢ e
    not_free x = n (ap b x ∙ s.free)

    step : dist e i' ≡ dist e i + 1
    step = dist_to_next e i in_table l not_free

    module _ (p0 : ℕ) (pl : p0 < hash_nr) (empty : b1 p0 ≡ 0)
        (all : Passes b1 (home keys (b i')) p0) where
      abbrev b2 : Buckets
      b2 = set_bucket b1 p0 (b i')

      hl : home keys (b i') < hash_nr
      hl = leaf_item_hash_ind-lt (keys (b i'))

      placed : (dist e (home keys (b i')) ≤ dist e p0) × (dist e p0 ≤ dist e i')
      placed =
          up_to_interval e (home keys (b i')) i' p0 in_table hl il pl (s.rises i' il n)
            (elim (dec_le (dist (home keys (b i')) p0) (dist (home keys (b i')) i')) [
              | yes u ↦ u
              | no u ↦ absurd (all i' il (omega (arith, u)) (ground arith))
            ])

      p0_apart : p0 ≢ e
      p0_apart x =
          let d : dist e p0 ≡ 0 = ground (arith, x) in omega (arith, d, placed.0, s.apart i' il n)

      -- what stands in a populated bucket, and that a bucket stays populated
      new :
          (p : ℕ)
          → p < hash_nr
          → b2 p ≢ 0
          → ((p ≡ p0) × (b2 p ≡ b i')) ⊎ ((p ≢ p0) × (p ≢ i') × (b2 p ≡ b p) × (b p ≢ 0))
      new p k m = elim (Bool-cases (p == p0)) [
        | inl x ↦ inl ((==_iff p p0).0 x, ground (arith, x))
        | inr x ↦ elim (Bool-cases (p == i')) [
          | inl y ↦ absurd (m (ground (arith, x, y)))
          | inr y ↦
              inr (
                ground (arith, x),
                ground (arith, y),
                ground (arith, x, y),
                ground (arith, m, x, y),
              )
        ]
      ]

      still : (q : ℕ) → b q ≢ 0 → q ≢ i' → b2 q ≢ 0
      still q m k = ground (arith, m, k, n)

      fills2 :
          (p q : ℕ)
          → p < hash_nr
          → q < hash_nr
          → b2 p ≢ 0
          → dist e (home keys (b2 p)) ≤ dist e q
          → dist e q < dist e p
          → (dist e p ≤ dist e i') ⊎ (dist e i' < dist e q)
          → b2 q ≢ 0
      fills2 p q k c m low high w = elim (new p k m) [
        | inl (x, y) ↦
            let low' : dist e (home keys (b i')) ≤ dist e q =
              subst (λ z. dist e (home keys z) ≤ dist e q) y low in
            let high' : dist e q < dist e p0 = subst (λ z. dist e q < dist e z) x high in
            let d = in_interval e (home keys (b i')) p0 q in_table hl pl c placed.0 low' high' in
            ground (arith, all q c d, n)
        | inr (x, y, f, m') ↦
            let low' : dist e (home keys (b p)) ≤ dist e q =
              subst (λ z. dist e (home keys z) ≤ dist e q) f low in
            let differ : dist e p ≢ dist e i' = λ g. y (dist_inj e p i' in_table k il g) in
            elim w [
              | inl u ↦
                  still q (s.fills p q k c m' low' high (inl (omega (arith, u, differ, step))))
                    (λ g.
                      let g' : dist e q ≡ dist e i' = ap (dist e) g in omega (arith, u, high, g'))
              | inr u ↦
                  still q (s.fills p q k c m' low' high (inr (omega (arith, u, step))))
                    (λ g. let g' : dist e q ≡ dist e i' = ap (dist e) g in omega (arith, u, g'))
            ]
      ]

      pub step-Sweeps : Sweeps i' b2
      step-Sweeps = record {
        free = ground (arith, s.free, p0_apart, not_free);
        apart = λ p k m. elim (new p k m) [
          | inl (_, y) ↦ subst (λ z. 0 < dist e (home keys z)) (sym y) (s.apart i' il n)
          | inr (_, _, f, m') ↦ subst (λ z. 0 < dist e (home keys z)) (sym f) (s.apart p k m')
        ];
        rises = λ p k m. elim (new p k m) [
          | inl (x, y) ↦
              subst (λ z. dist e (home keys z) ≤ dist e p) (sym y)
                (subst (λ z. dist e (home keys (b i')) ≤ dist e z) (sym x) placed.0)
          | inr (_, _, f, m') ↦
              subst (λ z. dist e (home keys z) ≤ dist e p) (sym f) (s.rises p k m')
        ];
        fills = fills2;
        one = λ p q k c m f.
            let m2 : b2 q ≢ 0 = λ z. m (f ∙ z) in
            elim (new p k m) [
              | inl (x, y) ↦ elim (new q c m2) [
                | inl (x', _) ↦ x ∙ sym x'
                | inr (_, z, g, m') ↦ absurd (z (s.one q i' c il m' (sym g ∙ sym f ∙ y)))
              ]
              | inr (_, z, g, m') ↦ elim (new q c m2) [
                | inl (_, y) ↦ absurd (z (s.one p i' k il m' (sym g ∙ f ∙ y)))
                | inr (_, _, g', _) ↦ s.one p q k c m' (sym g ∙ f ∙ g')
              ]
            ];
      }

      pub step-Moves : Moves b b2
      step-Moves = record {
        has = λ x m. (
          λ (p, k, f). elim (new p k (λ z. m (sym f ∙ z))) [
            | inl (_, y) ↦ (i', il, sym y ∙ f)
            | inr (_, _, g, _) ↦ (p, k, sym g ∙ f)
          ],
          λ (p, k, f). elim (Bool-cases (p == i')) [
            | inl y ↦ (p0, pl, ground (arith, f, y))
            | inr y ↦ (p, k, ground (arith, f, y, empty, m))
          ],
        );
        loaded = omega (arith, load-fill b1 p0 (b i') pl empty n, load-empty b i' il n);
      }
