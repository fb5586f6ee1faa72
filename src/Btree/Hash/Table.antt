-- ===== src/Btree/Hash/Table.antt =====
-- The table of a leaf block as a set of items: search, insertion and the move of an item.
use scoutfs_kmod_dev.Base.{
  ℕ, ◌+◌, ◌<◌, ◌≡◌, ◌≢◌, ◌⊎◌, ◌↔◌, inl, inr, ◌==◌, ==_iff, Bool-cases, true, false, Option, none,
  some, done, arith, refl, ap, sym, ◌∙◌, subst,
}
use scoutfs_kmod_dev.Key.{Key, key_compare, scoutfs_cmp}
use scoutfs_kmod_dev.Btree.Hash.{
  hash_nr, Buckets, set_bucket, same_key, leaf_item_hash_ind, leaf_item_hash_search,
  leaf_item_hash_insert,
}
use scoutfs_kmod_dev.Btree.Hash.Distance.{dist, dist-lt}
use scoutfs_kmod_dev.Btree.Hash.Probe.{Passes, insert_from-Places, search_from-Searches, Stands}
use scoutfs_kmod_dev.Btree.Hash.Load.{load, load-room, load-fill}

pub leaf_item_hash_ind-lt : (k : Key) → leaf_item_hash_ind k < hash_nr
unfolding leaf_item_hash_ind
leaf_item_hash_ind-lt k = omega arith

pub same_key-eq : (a b : Key) → same_key a b ≡ true → a ≡ b
unfolding key_compare scoutfs_cmp
same_key-eq a b h = ground (arith, h)

pub same_key_refl : (a : Key) → same_key a a ≡ true
unfolding key_compare scoutfs_cmp
same_key_refl a = ground arith

-- The offset stands in some bucket.
abbrev pub Has : Buckets → ℕ → Type 0
Has b off = (p : ℕ) × (p < hash_nr) × (b p ≡ off)

module _ (keys : ℕ → Key) where
  abbrev pub home : ℕ → ℕ
  home off = leaf_item_hash_ind (keys off)

  -- Probes from an item's own bucket come to the item, and no item stands in two buckets.
  pub record IsTable (b : Buckets) : Type 0 where
    pub reach : (p : ℕ) → p < hash_nr → b p ≢ 0 → Passes b (home (b p)) p
    pub one : (p q : ℕ) → p < hash_nr → q < hash_nr → b p ≢ 0 → b p ≡ b q → p ≡ q

  module _ (b : Buckets) (h : IsTable b) where
    pub IsTable-Stands : (off p : ℕ) → p < hash_nr → b p ≡ off → off ≢ 0 → Stands b off (home off) p
    IsTable-Stands off p l e m =
        let m' : b p ≢ 0 = λ z. m (sym e ∙ z) in
        (
          l,
          e,
          m,
          λ q k f. sym (h.one p q l k m' (e ∙ sym f)),
          subst (λ x. Passes b (home x) p) e (h.reach p l m'),
        )

    -- The item of the key that the table has, or none where the table has none.
    abbrev pub Finds : Key → Option ℕ → Type 0
    Finds key r =
        ((r ≡ none) × ((off : ℕ) → off ≢ 0 → Has b off → keys off ≢ key))
        ⊎ ((off : ℕ) × (r ≡ some off) × (off ≢ 0) × Has b off × (keys off ≡ key))

    missed :
        {key : Key} (off p : ℕ)
        → p < hash_nr
        → b p ≡ off
        → off ≢ 0
        → keys off ≡ key
        → ((q : ℕ)
            → q < hash_nr
            → dist (leaf_item_hash_ind key) q < hash_nr
            → Passes b (leaf_item_hash_ind key) q
            → b q ≢ 0
            → same_key key (keys (b q)) ≡ false)
        → ⊥
    missed {key} off p l e m same others =
        let i = leaf_item_hash_ind key in
        let m' : b p ≢ 0 = λ z. m (sym e ∙ z) in
        let at : keys (b p) ≡ key = ap keys e ∙ same in
        let all : Passes b i p =
          subst (λ k. Passes b (leaf_item_hash_ind k) p) at (h.reach p l m') in
        let other = others p l (dist-lt i p (leaf_item_hash_ind-lt key) l) all m' in
        let differs : same_key key key ≡ false = subst (λ k. same_key key k ≡ false) at other in
        let equal = same_key_refl key in cc

    -- In a table whose items can be probed for, leaf_item_hash_search of a key finds an item of the
    -- table that has the key, or none where no item of the table has it.
    pub leaf_item_hash_search-Finds : (key : Key) → Finds key (leaf_item_hash_search keys 0 b key)
    unfolding leaf_item_hash_search
    leaf_item_hash_search-Finds key =
        let i = leaf_item_hash_ind key in
        let lt = leaf_item_hash_ind-lt key in
        elim (search_from-Searches keys hash_nr b key i lt) [
          | inl (r, others) ↦ inl (r, λ off m (p, l, e) same. missed off p l e m same others)
          | inr (p, l, r, m, s) ↦
              inr (b p, r, m, (p, l, refl), sym (same_key-eq key (keys (b p)) s))
        ]

  -- The table with one item more.
  pub record Inserts (b : Buckets) (off : ℕ) (b' : Buckets) : Type 0 where
    pub table : IsTable b'
    pub has : (x : ℕ) → x ≢ 0 → Has b' x ↔ ((x ≡ off) ⊎ Has b x)
    pub loaded : load b' ≡ load b + 1

  -- An item is put into an empty bucket that its probe comes to.
  pub fill-Inserts :
      (b : Buckets) (off p : ℕ)
      → IsTable b
      → off ≢ 0
      → (Has b off → ⊥)
      → p < hash_nr
      → b p ≡ 0
      → Passes b (home off) p
      → Inserts b off (set_bucket b p off)
  fill-Inserts b off p h m absent l e all = record {
    table = record {
      reach = λ q k n r c d. elim (Bool-cases (q == p)) [
        | inl x ↦
            let at : q ≡ p = (==_iff q p).0 x in
            let new : b' q ≡ off = ground (arith, at) in
            let d' : dist (home off) r < dist (home off) p =
              subst (λ y. dist (home y) r < dist (home y) p) new
                (subst (λ y. dist (home (b' q)) r < dist (home (b' q)) y) at d) in
            populated_still r (all r c d')
        | inr x ↦
            let old : b' q ≡ b q = ground (arith, x) in
            let n' : b q ≢ 0 = λ z. n (old ∙ z) in
            populated_still r
              (h.reach q k n' r c (subst (λ y. dist (home y) r < dist (home y) q) old d))
      ];
      one = λ q r k c n f. elim (Bool-cases (q == p)) [
        | inl x ↦ elim (Bool-cases (r == p)) [
          | inl y ↦ (==_iff q p).0 x ∙ sym ((==_iff r p).0 y)
          | inr y ↦ absurd (absent (r, c, ground (arith, f, x, y)))
        ]
        | inr x ↦ elim (Bool-cases (r == p)) [
          | inl y ↦ absurd (absent (q, k, ground (arith, f, x, y)))
          | inr y ↦ h.one q r k c (ground (arith, n, x)) (ground (arith, f, x, y))
        ]
      ];
    };
    has = λ x n. (
      λ (q, k, f). elim (Bool-cases (q == p)) [
        | inl y ↦ inl (ground (arith, f, y))
        | inr y ↦ inr (q, k, ground (arith, f, y))
      ],
      λ o. elim o [
        | inl y ↦ (p, l, ground (arith, y))
        | inr (q, k, f) ↦ (q, k, ground (arith, f, e, n))
      ],
    );
    loaded = load-fill b p off l e m;
  }
    where
      b' : Buckets
      b' = set_bucket b p off

      populated_still : (r : ℕ) → b r ≢ 0 → b' r ≢ 0
      populated_still r n = ground (arith, n, m)

  -- In a table that is not full, leaf_item_hash_insert of an item that the table does not have does
  -- not meet its BUG, and the table has the item besides the others then, each of which can be probed
  -- for.
  pub leaf_item_hash_insert-Inserts :
      (b : Buckets) (off : ℕ)
      → IsTable b
      → off ≢ 0
      → (Has b off → ⊥)
      → load b < hash_nr
      → (b' : Buckets) × (leaf_item_hash_insert 0 b (keys off) off ≡ done b') × Inserts b off b'
  unfolding leaf_item_hash_insert
  leaf_item_hash_insert-Inserts b off h m absent room =
      let (t, k, e) = load-room b room in
      let lt = leaf_item_hash_ind-lt (keys off) in
      let (p, l, f, r, all) =
        insert_from-Places hash_nr b off (home off) t lt k e (dist-lt (home off) t lt k) in
      (set_bucket b p off, r, fill-Inserts b off p h m absent l f all)
