-- ===== src/Btree/NewValue.antt =====
-- insert_value.
use scoutfs_kmod_dev.Srch.{Memory}
use scoutfs_kmod_dev.Btree.Bytes.{read_bytes-write_bytes, read_bytes_agree, write_bytes-other}
use scoutfs_kmod_dev.Btree.Layout.{IsLayout, IsLayout-move, vb, IsLayout-grow}
use scoutfs_kmod_dev.Base.Lists.{length}
use scoutfs_kmod_dev.Key.{Key}
use scoutfs_kmod_dev.Btree.{
  BtBlock, BtItem, Key, mid_free_end, val_bytes, length, insert_value, read_bytes, item_val, sub16,
  write_bytes, item_off, set_val_owner, Memory,
}
use scoutfs_kmod_dev.Base.{
  ℕ, ◌+◌, ◌≡◌, if◌then◌else◌, ◌≢◌, List, [], ◌∷◌, ◌==◌, false, ==_iff, ◌≤◌, refl, arith, ◌⊎◌, ◌<◌,
  ◌-◌, done, ◌^◌, subst, sym, inl, inr, ◌∙◌, Bool-cases, ◌∷◌,
}
use scoutfs_kmod_dev.Btree.Values.{
  HasLayout, val_end, val_bytes_two, read_bytes-own_owner, read_bytes-set_val_owner,
}

-- the item that a new value belongs to
abbrev pub valued : (ℕ → BtItem) → ℕ → Key → ℕ → ℕ → ℕ → BtItem
valued items off key val_off val_len =
    λ o. if o == off then record { key = key; val_off = val_off; val_len = val_len } else items o

pub if_same : {A : Type 0} (x y : A) (off : ℕ) → (if off == off then x else y) ≡ x
if_same x y off = rw ((==_iff off off).1 refl) refl

pub if_other : {A : Type 0} (x y : A) (o off : ℕ) → o ≢ off → (if o == off then x else y) ≡ y
if_other x y o off n = let e : (o == off) ≡ false = ground (arith, n) in rw e refl

read_bytes_none :
    (xs : List ℕ) (m : Memory) (at : ℕ) → length xs ≡ 0 → read_bytes (length xs) m at ≡ xs
unfolding read_bytes
read_bytes_none [] m at e = refl
read_bytes_none (x ∷ xs) m at e = absurd (omega (arith, e))

-- the live items and the one at `off`
abbrev pub With : (ℕ → Type 0) → ℕ → ℕ → Type 0
With Live off o = (Live o × (o ≢ off)) ⊎ (o ≡ off)

-- The block with the value of the item at `off`, which stands at `val_off`.
pub record Stores (Live : ℕ → Type 0) (bt : BtBlock) (off : ℕ) (key : Key) (val : List ℕ)
    (val_off : ℕ) (bt' : BtBlock) : Type 0 where
  pub items : bt'.items ≡ bt.items
  pub item_root : bt'.item_root ≡ bt.item_root
  pub nr_items : bt'.nr_items ≡ bt.nr_items
  pub level : bt'.level ≡ bt.level
  pub buckets : bt'.buckets ≡ bt.buckets
  pub short : mid_free_end bt' ≤ val_end bt'.level
  pub layout :
      HasLayout
        (With Live off)
        (record bt' { items = valued bt.items off key val_off (length val) })
  pub value : read_bytes (length val) bt'.bytes val_off ≡ val
  pub values : (o : ℕ) → Live o → item_val bt' o ≡ item_val bt o

module _ (Live : ℕ → Type 0) (bt : BtBlock) (off : ℕ) (key : Key) (val : List ℕ)
    (h : HasLayout Live bt) (short : mid_free_end bt ≤ val_end bt.level)
    (room : val_bytes (length val) ≤ bt.mid_free_len) where
  abbrev pub StoresIt : Type 0
  StoresIt =
      (vo : ℕ) × (bt' : BtBlock) × (insert_value bt off val ≡ done (vo, bt'))
      × Stores Live bt off key val vo bt'

  grown :
      (vo : ℕ)
      → (length val ≢ 0 → vo ≡ mid_free_end bt - val_bytes (length val))
      → IsLayout
          (With Live off)
          (valued bt.items off key vo (length val))
          (mid_free_end bt - val_bytes (length val))
          (val_end bt.level)
          bt.last_free_off
          bt.last_free_len
  grown vo at =
      let mid = mid_free_end bt in
      let new : BtItem = record { key = key; val_off = vo; val_len = length val } in
      let items' = valued bt.items off key vo (length val) in
      let same : items' off ≡ new = if_same new (bt.items off) off in
      let old =
        IsLayout-move Live (λ o. Live o × (o ≢ off)) bt.items items' mid (val_end bt.level)
          bt.last_free_off bt.last_free_len (λ o. o)
          (λ o (l, n). (l, if_other new (bt.items o) o off n)) (λ o p l m n. n) h in
      subst
        (λ n.
          IsLayout (With Live off) items' (mid - vb n) (val_end bt.level) bt.last_free_off
            bt.last_free_len)
        same
        (IsLayout-grow (λ o. Live o × (o ≢ off)) (With Live off) items' mid (val_end bt.level)
          bt.last_free_off bt.last_free_len off
          (subst (λ n. vb n ≤ mid) (sym same) (omega (arith, room))) short
          (subst (λ (n : BtItem). n.val_len ≢ 0 → n.val_off ≡ mid - vb n) (sym same) at)
          (λ o l. elim l [ inl (k, n) ↦ inl ((k, n), n) | inr e ↦ inr e ]) old)

  insert-empty : length val ≡ 0 → StoresIt
  unfolding insert_value val_bytes
  insert-empty e = (
    0,
    bt,
    ground (arith, e),
    record {
      items = refl;
      item_root = refl;
      nr_items = refl;
      level = refl;
      buckets = refl;
      short = short;
      layout =
          subst
            (λ m.
              IsLayout (With Live off) (valued bt.items off key 0 (length val)) m (val_end bt.level)
                bt.last_free_off bt.last_free_len)
            (ground (arith, e)) (grown 0 (λ n. absurd (n e)));
      value = read_bytes_none val bt.bytes 0 e;
      values = λ o l. refl;
    },
  )

  past_new :
      {at : ℕ} (i : ℕ)
      → mid_free_end bt ≤ at
      → at ≤ i
      → mid_free_end bt - val_bytes (length val) + length val ≤ i
  unfolding val_bytes
  past_new i p q = ground (arith, p, q, room)

  insert-full : length val ≢ 0 → bt.mid_free_len < 2 ^ 16 → StoresIt
  unfolding insert_value sub16
  insert-full n fits =
      let vb = val_bytes (length val) in
      let vo = mid_free_end bt - vb in
      let two = val_bytes_two (length val) n in
      let bytes' = write_bytes bt.bytes vo val in
      let mid' : item_off bt.nr_items + sub16 bt.mid_free_len vb ≡ vo =
        ground (arith, room, fits) in
      (
        vo,
        record bt {
          mid_free_len = sub16 bt.mid_free_len vb;
          bytes = set_val_owner bytes' vo vb off;
        },
        ground (arith, n, room),
        record {
          items = refl;
          item_root = refl;
          nr_items = refl;
          level = refl;
          buckets = refl;
          short = omega (arith, mid', short);
          layout =
              subst
                (λ m.
                  IsLayout (With Live off) (valued bt.items off key vo (length val)) m
                    (val_end bt.level) bt.last_free_off bt.last_free_len)
                (sym mid') (grown vo (λ _. refl));
          value =
              read_bytes-own_owner (record { key = key; val_off = vo; val_len = length val }) bytes'
                off n
              ∙ read_bytes-write_bytes val bt.bytes vo;
          values = λ o l.
              let x = bt.items o in
              read_bytes-set_val_owner x bytes' vo vb off two
                (λ z. inr (omega (arith, (h.inside o l z).0)))
              ∙ read_bytes_agree x.val_len _ _ x.val_off (λ i p q.
                write_bytes-other val bt.bytes vo i
                  (inr (past_new i (h.inside o l (omega (arith, p, q))).0 p)));
        },
      )

  -- Where the free range in the middle of the block has room for a value, and the values stand
  -- apart, insert_value meets no BUG; the value is read back at the offset that it hands back, no
  -- live item's value is changed, and with the item that has the new value the values stand apart.
  pub insert_value-Stores : bt.mid_free_len < 2 ^ 16 → StoresIt
  insert_value-Stores fits = elim (Bool-cases (length val == 0)) [
    | inl e ↦ insert-empty ((==_iff _ _).0 e)
    | inr e ↦ insert-full (ground (arith, e)) fits
  ]
