-- ===== src/Btree/Lists.antt =====
-- scoutfs_btree_insert_list at a leaf: the inner loop, after a walk to the leaf of the list's first
-- item.
use scoutfs_kmod_dev.Key.Order.{IsKey}
use scoutfs_kmod_dev.Btree.Ops.{hash_search, update_item_value}
use scoutfs_kmod_dev.Btree.Block.{IsBlock, hash_search-cases}
use scoutfs_kmod_dev.Key.{Key, key_compare}
use scoutfs_kmod_dev.Btree.{BtBlock, key_compare, search_item, mid_free_item_room, create_item}
use scoutfs_kmod_dev.Base.{
  none, some, Ordering, true, false, ℕ, List, [], ◌∷◌, Kernel, bug, done, Bool, if◌then◌else◌, ◌≡◌,
  ◌&&◌, ◌++◌, true, some, Bool-cases, inl, ap, inr, refl,
}
use scoutfs_kmod_dev.Base.Lists.{length, All}
use scoutfs_kmod_dev.Btree.Update.{Sets, replaced_item, Puts-Sets}
use scoutfs_kmod_dev.Btree.Insert.{created_item}

-- struct scoutfs_btree_item_list, less its link
pub record ListItem : Type 0 where
  pub key : Key
  pub val : List ℕ

unfoldable pub put_item : BtBlock → ListItem → Kernel BtBlock
put_item bt item =
    let q = search_item bt item.key in
    elim (hash_search bt item.key) [
      | some off ↦ update_item_value bt off item.val
      | none ↦ create_item bt item.key item.val q.par q.cmp
    ]

abbrev pub at_most : Key → Key → Bool
at_most a b = elim (key_compare a b) [
  | Ordering.gt ↦ Bool.false
  | Ordering.lt ↦ Bool.true
  | Ordering.eq ↦ Bool.true
]

-- The test of the loop: the walk's range ends at `end`.
abbrev pub goes_on : Key → BtBlock → ListItem → Bool
goes_on end bt next = at_most next.key end && mid_free_item_room bt (length next.val)

-- The block, and the items of the list that the next walk is for. The list's first item is
-- `item`.
unfoldable pub insert_list_leaf :
    Key → BtBlock → ListItem → List ListItem → Kernel (BtBlock × List ListItem)
insert_list_leaf end bt item [] = elim (put_item bt item) [ bug ↦ bug | done bt' ↦ done (bt', []) ]
insert_list_leaf end bt item (next ∷ items) = elim (put_item bt item) [
  | bug ↦ bug
  | done bt' ↦
      let rest = insert_list_leaf end bt' next items in
      if goes_on end bt' next then rest else done (bt', next ∷ items)
]

-- The keys of a list are set to their values one after another.
pub data SetsAll : BtBlock → List ListItem → BtBlock → Type 0 where
  all_set : (bt : BtBlock) → SetsAll bt [] bt
  set_first :
      (bt : BtBlock) (item : ListItem) (items : List ListItem) (bt1 bt2 : BtBlock)
      → Sets bt item.key item.val bt1
      → SetsAll bt1 items bt2
      → SetsAll bt (item ∷ items) bt2

-- The loop stops at the end of the list, or at an item that is out of the range or has no room.
abbrev Stops : Key → BtBlock → List ListItem → Type 0
Stops end bt [] = Unit
Stops end bt (next ∷ items) = goes_on end bt next ≡ Bool.false

abbrev pub TakesFrom :
    Key → BtBlock → ListItem → List ListItem → Kernel (BtBlock × List ListItem) → Type 0
TakesFrom end bt item items r =
    (bt' : BtBlock) × (taken : List ListItem) × (left : List ListItem) × (r ≡ done (bt', left))
    × (items ≡ taken ++ left)
    × SetsAll bt (item ∷ taken) bt'
    × IsBlock bt'
    × Stops end bt' left

put_item-Sets :
    (bt : BtBlock) (item : ListItem)
    → IsBlock bt
    → IsKey item.key
    → mid_free_item_room bt (length item.val) ≡ true
    → (bt' : BtBlock) × (put_item bt item ≡ done bt') × Sets bt item.key item.val bt'
unfolding put_item
put_item-Sets bt item h fits room = elim (hash_search-cases bt h item.key) [
  | inl (r, absent) ↦
      let (bt', run, found, c) = created_item bt h item.key item.val fits room absent in
      (bt', rw (put_item, r) run, Puts-Sets bt item.key item.val bt' absent c)
  | inr (o, r, l, e) ↦
      let (bt', run, s) = replaced_item bt h item.key item.val room o l e in
      (bt', rw (put_item, r) run, s)
]

in_range : (c d : Bool) → (c && d) ≡ true → d ≡ true
in_range true d e = e
in_range false d e = cc

-- From a whole leaf with room for the list's first item, and items whose keys have fields that fit
-- their types, the inner loop of scoutfs_btree_insert_list meets no BUG; it takes the first item and
-- a prefix of the others, up to the end of the list or an item that is out of the range or has no
-- room, and the leaf is whole again, where the keys that were taken are set one after another.
pub insert_list_leaf-TakesFrom :
    (end : Key) (bt : BtBlock) (item : ListItem) (items : List ListItem)
    → IsBlock bt
    → All (λ i. IsKey i.key) (item ∷ items)
    → mid_free_item_room bt (length item.val) ≡ true
    → TakesFrom end bt item items (insert_list_leaf end bt item items)
unfolding insert_list_leaf
insert_list_leaf-TakesFrom end bt item [] h fits room =
    let (bt', run, s) = put_item-Sets bt item h fits.0 room in
    (
      bt',
      [],
      [],
      rw (insert_list_leaf, run) refl,
      refl,
      set_first bt item [] bt' bt' s (all_set bt'),
      s.block,
      tt,
    )
insert_list_leaf-TakesFrom end bt item (next ∷ items) h fits room =
    let (bt1, run, s) = put_item-Sets bt item h fits.0 room in
    elim (Bool-cases (goes_on end bt1 next)) [
      | inl e ↦
          let (bt', taken, left, r, whole, all, block, stops) =
            insert_list_leaf-TakesFrom end bt1 next items s.block fits.1
              (in_range (at_most next.key end) _ e) in
          (
            bt',
            next ∷ taken,
            left,
            rw (insert_list_leaf, run, e) r,
            ap (λ l. next ∷ l) whole,
            set_first bt item (next ∷ taken) bt1 bt' s all,
            block,
            stops,
          )
      | inr e ↦ (
        bt1,
        [],
        next ∷ items,
        rw (insert_list_leaf, run, e) refl,
        refl,
        set_first bt item [] bt1 bt1 s (all_set bt1),
        s.block,
        e,
      )
    ]
