-- ===== src/Btree/Hash/Change.antt =====
-- leaf_item_hash_change.
use scoutfs_kmod_dev.Base.{
  ℕ, ◌<◌, ◌≡◌, ◌≢◌, ◌⊎◌, ◌↔◌, inl, inr, ◌==◌, ==_iff, Bool-cases, done, arith, refl, ap, sym, ◌∙◌,
  subst,
}
use scoutfs_kmod_dev.Key.{Key}
use scoutfs_kmod_dev.Btree.Hash.{
  hash_nr, Buckets, set_bucket, leaf_item_hash_ind, leaf_item_hash_change,
}
use scoutfs_kmod_dev.Btree.Hash.Distance.{dist, dist-lt}
use scoutfs_kmod_dev.Btree.Hash.Probe.{Passes, change_from_lem}
use scoutfs_kmod_dev.Btree.Hash.Load.{load, load-change}
use scoutfs_kmod_dev.Btree.Hash.Table.{leaf_item_hash_ind-lt, Has, home, IsTable, IsTable-Stands}

-- Other keys at offsets that stand in no bucket do not matter.
pub IsTable_agree :
    (keys keys' : ℕ → Key) (b : Buckets)
    → ((off : ℕ) → off ≢ 0 → Has b off → keys off ≡ keys' off)
    → IsTable keys b
    → IsTable keys' b
IsTable_agree keys keys' b same h = record {
  reach = λ p l n.
      subst (λ k. Passes b (leaf_item_hash_ind k) p) (same (b p) n (p, l, refl)) (h.reach p l n);
  one = h.one;
}

module _ (keys : ℕ → Key) where
  -- The table has the item at another offset.
  pub record Changes (b : Buckets) (to from : ℕ) (b' : Buckets) : Type 0 where
    pub table : IsTable keys b'
    pub has : (x : ℕ) → x ≢ 0 → Has b' x ↔ ((x ≡ to) ⊎ (Has b x × (x ≢ from)))
    pub loaded : load b' ≡ load b

  -- leaf_item_hash_change of an item of the table to an offset that the table does not have, of the
  -- same key, meets no BUG, and the table has the item at that offset then.
  pub leaf_item_hash_change-Changes :
      (b : Buckets) (to from : ℕ)
      → IsTable keys b
      → to ≢ 0
      → from ≢ 0
      → (Has b to → ⊥)
      → Has b from
      → keys to ≡ keys from
      → (b' : Buckets) × (leaf_item_hash_change 0 b (keys from) to from ≡ done b')
        × Changes b to from b'
  unfolding leaf_item_hash_change
  leaf_item_hash_change-Changes b to from h m n absent (p, l, e) same = (
    b',
    change_from_lem hash_nr b to from (home keys from) p il (dist-lt (home keys from) p il l)
        (IsTable-Stands keys b h from p l e n),
    record {
      table = record {
        reach = λ q k z r c d. elim (old q z) [
          | inl (x, y) ↦
              let d' : dist (home keys from) r < dist (home keys from) p =
                subst (λ v. dist (home keys from) r < dist (home keys from) v) x
                  (subst (λ v. dist (leaf_item_hash_ind v) r < dist (leaf_item_hash_ind v) q)
                    (ap keys y ∙ same) d) in
              still r (at_from r c d')
          | inr (x, y, w) ↦
              still r
                (h.reach q k w r c (subst (λ v. dist (home keys v) r < dist (home keys v) q) y d))
        ];
        one = λ q r k c z f. elim (old q z) [
          | inl (x, y) ↦ elim (old r (λ v. z (f ∙ v))) [
            | inl (x', _) ↦ x ∙ sym x'
            | inr (_, y', _) ↦ absurd (absent (r, c, sym y' ∙ sym f ∙ y))
          ]
          | inr (x, y, w) ↦ elim (old r (λ v. z (f ∙ v))) [
            | inl (_, y') ↦ absurd (absent (q, k, sym y ∙ f ∙ y'))
            | inr (_, y', _) ↦ h.one q r k c w (sym y ∙ f ∙ y')
          ]
        ];
      };
      has = λ x z. (
        λ (q, k, f). elim (old q (λ v. z (sym f ∙ v))) [
          | inl (_, y) ↦ inl (sym f ∙ y)
          | inr (x', y, w) ↦ inr (
            (q, k, sym y ∙ f),
            λ g. x' (sym (h.one p q l k (λ v. n (sym e ∙ v)) (e ∙ sym g ∙ sym f ∙ y))),
          )
        ],
        λ o. elim o [
          | inl y ↦ (p, l, ground (arith, y))
          | inr ((q, k, f), g) ↦ elim (Bool-cases (q == p)) [
            | inl y ↦ absurd (g (sym f ∙ ap b ((==_iff q p).0 y) ∙ e))
            | inr y ↦ (q, k, ground (arith, f, y))
          ]
        ],
      );
      loaded = load-change b p to l (λ v. n (sym e ∙ v)) m;
    },
  )
    where
      b' : Buckets
      b' = set_bucket b p to

      il : home keys from < hash_nr
      il = leaf_item_hash_ind-lt (keys from)

      at_from : Passes b (home keys from) p
      at_from = subst (λ x. Passes b (home keys x) p) e (h.reach p l (λ v. n (sym e ∙ v)))

      old : (q : ℕ) → b' q ≢ 0 → ((q ≡ p) × (b' q ≡ to)) ⊎ ((q ≢ p) × (b' q ≡ b q) × (b q ≢ 0))
      old q z = elim (Bool-cases (q == p)) [
        | inl y ↦ inl ((==_iff q p).0 y, ground (arith, y))
        | inr y ↦ inr (ground (arith, y), ground (arith, y), ground (arith, z, y))
      ]

      still : (r : ℕ) → b r ≢ 0 → b' r ≢ 0
      still r v = ground (arith, v, m)
