-- ===== src/Btree/Values.antt =====
-- insert_value and delete_value.
use scoutfs_kmod_dev.Base.{
  ℕ, ◌+◌, ◌*◌, ◌-◌, ◌^◌, ◌≤◌, ◌≡◌, ◌≢◌, inl, inr, ltb, ◌==◌, ==_iff, Bool, Bool-cases,
  if◌then◌else◌, arith, refl, sym, subst, true, false,
}
use scoutfs_kmod_dev.Base.Rules.{if_rule}
use scoutfs_kmod_dev.Srch.{Memory}
use scoutfs_kmod_dev.Btree.{
  BtItem, BtBlock, item_off, mid_free_end, add16, val_bytes, read_bytes, set_val_owner, item_val,
  free_range, delete_value,
}
use scoutfs_kmod_dev.Btree.Hash.{hash_nr}
use scoutfs_kmod_dev.Btree.Bytes.{read_bytes_agree, set_val_owner-other}
use scoutfs_kmod_dev.Btree.Layout.{
  Disjoint, vb, Away, IsRange, IsLayout, IsLayout-join_mid, join_front, join_back,
}

-- the end of the values: of the block, less the hash table of a leaf
abbrev pub val_end : ℕ → ℕ
val_end level = if ltb 0 level then 2 ^ 16 else 2 ^ 16 - 2 * hash_nr

abbrev pub HasLayout : (ℕ → Type 0) → BtBlock → Type 0
HasLayout Live bt =
    IsLayout Live bt.items (mid_free_end bt) (val_end bt.level) bt.last_free_off bt.last_free_len

-- An owner that is written at the end of another range leaves a value as it is.
pub read_bytes-set_val_owner :
    (x : BtItem) (m : Memory) (off len owner : ℕ)
    → 2 ≤ len
    → Away x off len
    → read_bytes x.val_len (set_val_owner m off len owner) x.val_off
      ≡ read_bytes x.val_len m x.val_off
unfolding val_bytes
read_bytes-set_val_owner x m off len owner two away =
    read_bytes_agree x.val_len _ _ x.val_off (λ i p q.
      let n : x.val_len ≢ 0 = omega (arith, p, q) in
      set_val_owner-other m off len owner i two (ground (arith, away n, p, q, n)))

-- An owner that is written at the end of the value itself.
pub read_bytes-own_owner :
    (x : BtItem) (m : Memory) (owner : ℕ)
    → x.val_len ≢ 0
    → read_bytes x.val_len (set_val_owner m x.val_off (vb x) owner) x.val_off
      ≡ read_bytes x.val_len m x.val_off
unfolding val_bytes
read_bytes-own_owner x m owner n = read_bytes_agree x.val_len _ _ x.val_off (λ i p q.
    set_val_owner-other m x.val_off (vb x) owner i (ground (arith, n))
      (inl (ground (arith, p, q, n))))

pub val_bytes_two : (n : ℕ) → n ≢ 0 → 2 ≤ val_bytes n
unfolding val_bytes
val_bytes_two n h = ground (arith, h)

-- A block whose items and tree are the same, and whose live items have the same values.
pub record Frees (Live : ℕ → Type 0) (bt bt' : BtBlock) : Type 0 where
  pub layout : HasLayout Live bt'
  pub short : mid_free_end bt' ≤ val_end bt'.level
  pub items : bt'.items ≡ bt.items
  pub item_root : bt'.item_root ≡ bt.item_root
  pub nr_items : bt'.nr_items ≡ bt.nr_items
  pub level : bt'.level ≡ bt.level
  pub buckets : bt'.buckets ≡ bt.buckets
  pub room : bt.mid_free_len ≤ bt'.mid_free_len
  pub values : (o : ℕ) → Live o → item_val bt' o ≡ item_val bt o

module _ (Live : ℕ → Type 0) (bt : BtBlock) (val_off val_len : ℕ) (h : HasLayout Live bt)
    (short : mid_free_end bt ≤ val_end bt.level) where
  module _ (n : val_len ≢ 0)
      (free : IsRange Live bt.items
        (mid_free_end bt)
        (val_end bt.level)
        val_off
        (val_bytes val_len))
      (apart : bt.last_free_len ≢ 0
        → Disjoint val_off (val_bytes val_len) bt.last_free_off bt.last_free_len) where
    two : 2 ≤ val_bytes val_len
    two = val_bytes_two val_len n

    new_last :
        (off len : ℕ)
        → 2 ≤ len
        → IsRange Live bt.items (mid_free_end bt) (val_end bt.level) off len
        → (c : Bool) → Frees Live bt (free_range bt off len c)
    new_last off len t r true = record {
      layout = record {
        inside = h.inside;
        apart = h.apart;
        none_last = λ e. absurd (omega (arith, e, t));
        last = λ _. (t, r);
      };
      short = short;
      items = refl;
      item_root = refl;
      nr_items = refl;
      level = refl;
      buckets = refl;
      room = omega arith;
      values = λ o l. read_bytes-set_val_owner (bt.items o) bt.bytes off len 0 t (r.away o l);
    }
    new_last off len t r false = record {
      layout = h;
      short = short;
      items = refl;
      item_root = refl;
      nr_items = refl;
      level = refl;
      buckets = refl;
      room = omega arith;
      values = λ o l. read_bytes-set_val_owner (bt.items o) bt.bytes off len 0 t (r.away o l);
    }

    join_mid :
        mid_free_end bt ≡ val_off
        → Frees Live bt (record bt { mid_free_len = add16 bt.mid_free_len (val_bytes val_len) })
    unfolding add16
    join_mid e =
        let sum : add16 bt.mid_free_len (val_bytes val_len) ≡ bt.mid_free_len + val_bytes val_len =
          ground (arith, e, free.to_end) in
        let mid' : mid_free_end bt + val_bytes val_len
            ≡ item_off bt.nr_items + add16 bt.mid_free_len (val_bytes val_len) =
          omega (arith, sum) in
        record {
          layout =
              subst
                (λ m. IsLayout Live bt.items m (val_end bt.level) bt.last_free_off bt.last_free_len)
                mid'
                (IsLayout-join_mid Live bt.items (mid_free_end bt) (val_end bt.level)
                  bt.last_free_off bt.last_free_len h val_off (val_bytes val_len) two free apart e);
          short = omega (arith, sum, e, free.to_end);
          items = refl;
          item_root = refl;
          nr_items = refl;
          level = refl;
          buckets = refl;
          room = omega (arith, sum);
          values = λ o l. refl;
        }

    freed : Frees Live bt (delete_value bt val_off val_len)
    unfolding delete_value
    freed =
        let len = val_bytes val_len in
        if_rule (Frees Live bt) (val_len == 0) _ _ (λ e. absurd (n ((==_iff val_len 0).0 e)))
          (λ _.
            if_rule (Frees Live bt) (mid_free_end bt == val_off) _ _
              (λ e. join_mid ((==_iff _ _).0 e))
              (λ _.
                if_rule (Frees Live bt) (val_off + len == bt.last_free_off) _ _
                  (λ e.
                    let m : bt.last_free_len ≢ 0 = λ z. ground (arith, h.none_last z, e, two) in
                    new_last val_off (len + bt.last_free_len) (omega (arith, two))
                      (join_front Live bt.items (mid_free_end bt) (val_end bt.level)
                        bt.last_free_off bt.last_free_len h val_off len two free apart m
                        ((==_iff _ _).0 e))
                      true)
                  (λ _.
                    if_rule (Frees Live bt) (bt.last_free_off + bt.last_free_len == val_off) _ _
                      (λ e.
                        let m : bt.last_free_len ≢ 0 =
                          λ z. ground (arith, h.none_last z, e, free.from_mid) in
                        new_last bt.last_free_off (len + bt.last_free_len) (omega (arith, two))
                          (join_back Live bt.items (mid_free_end bt) (val_end bt.level)
                            bt.last_free_off bt.last_free_len h val_off len two free apart m
                            ((==_iff _ _).0 e))
                          true)
                      (λ _. new_last val_off len two free (ltb bt.last_free_off val_off)))))

  unchanged : Frees Live bt bt
  unchanged = record {
    layout = h;
    short = short;
    items = refl;
    item_root = refl;
    nr_items = refl;
    level = refl;
    buckets = refl;
    room = omega arith;
    values = λ o l. refl;
  }

  pub delete_value-Frees :
      (val_len ≢ 0
        → IsRange Live bt.items (mid_free_end bt) (val_end bt.level) val_off (val_bytes val_len))
      → (val_len ≢ 0
          → bt.last_free_len ≢ 0
          → Disjoint val_off (val_bytes val_len) bt.last_free_off bt.last_free_len)
      → Frees Live bt (delete_value bt val_off val_len)
  unfolding delete_value
  delete_value-Frees free apart = elim (Bool-cases (val_len == 0)) [
    | inl e ↦
        let same : delete_value bt val_off val_len ≡ bt = rw e refl in
        subst (Frees Live bt) (sym same) unchanged
    | inr e ↦ let n : val_len ≢ 0 = ground (arith, e) in freed n (free n) (apart n)
  ]
