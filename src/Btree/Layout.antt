-- ===== src/Btree/Layout.antt =====
-- Where the values stand: apart from each other and from the free ranges.
use scoutfs_kmod_dev.Base.{ℕ, ◌+◌, ◌≤◌, ◌≡◌, ◌≢◌, ◌⊎◌, ◌-◌, subst, arith, ◌<◌, sym, inl, inr, ◌∙◌}
use scoutfs_kmod_dev.Btree.{BtItem, val_bytes}

-- two ranges of which one ends where the other starts, or before
abbrev pub Disjoint : ℕ → ℕ → ℕ → ℕ → Type 0
Disjoint a m b n = (a + m ≤ b) ⊎ (b + n ≤ a)

-- the bytes of an item's value
abbrev pub vb : BtItem → ℕ
vb item = val_bytes item.val_len

abbrev pub Inside : ℕ → ℕ → BtItem → Type 0
Inside mid end x = x.val_len ≢ 0 → (mid ≤ x.val_off) × (x.val_off + vb x ≤ end)

abbrev pub Away : BtItem → ℕ → ℕ → Type 0
Away x off len = x.val_len ≢ 0 → Disjoint x.val_off (vb x) off len

-- two items that have values have them in disjoint ranges
abbrev pub Apart : BtItem → BtItem → Type 0
Apart x y = y.val_len ≢ 0 → Away x y.val_off (vb y)

-- The range is in the values' part of the block, apart from the values of the live items.
pub record IsRange (Live : ℕ → Type 0) (items : ℕ → BtItem) (mid end off len : ℕ) : Type 0 where
  pub from_mid : mid ≤ off
  pub to_end : off + len ≤ end
  pub away : (o : ℕ) → Live o → Away (items o) off len

-- The values of the live items stand between `mid`, the end of the free range in the middle, and
-- `end`, apart from each other and from the last free range, if there is one.
pub record IsLayout (Live : ℕ → Type 0) (items : ℕ → BtItem) (mid end last_off last_len : ℕ)
    : Type 0 where
  pub inside : (o : ℕ) → Live o → Inside mid end (items o)
  pub apart : (o p : ℕ) → Live o → Live p → o ≢ p → Apart (items o) (items p)
  pub none_last : last_len ≡ 0 → last_off ≡ 0
  pub last : last_len ≢ 0 → (2 ≤ last_len) × IsRange Live items mid end last_off last_len

vb_pos : (x : BtItem) → x.val_len ≢ 0 → 2 < vb x
unfolding val_bytes
vb_pos x n = ground (arith, n)

-- The items are others that have the same values.
pub IsLayout-move :
    (Live Live' : ℕ → Type 0) (items items' : ℕ → BtItem) (mid end last_off last_len : ℕ)
    (from : ℕ → ℕ)
    → ((o : ℕ) → Live' o → Live (from o) × (items' o ≡ items (from o)))
    → ((o p : ℕ) → Live' o → Live' p → o ≢ p → from o ≢ from p)
    → IsLayout Live items mid end last_off last_len
    → IsLayout Live' items' mid end last_off last_len
IsLayout-move Live Live' items items' mid end last_off last_len from was other h = record {
  inside = λ o l. let (k, e) = was o l in subst (Inside mid end) (sym e) (h.inside (from o) k);
  apart = λ o p l m n.
      let (k, e) = was o l in
      let (j, f) = was p m in
      subst (λ x. Apart x (items' p)) (sym e)
        (subst (Apart (items (from o))) (sym f) (h.apart (from o) (from p) k j (other o p l m n)));
  none_last = h.none_last;
  last = λ n.
      let (two, r) = h.last n in
      (
        two,
        record {
          from_mid = r.from_mid;
          to_end = r.to_end;
          away = λ o l.
              let (k, e) = was o l in
              subst (λ x. Away x last_off last_len) (sym e) (r.away (from o) k);
        },
      );
}

-- The block has a value more, at the end of the free range in the middle.
pub IsLayout-grow :
    (Live Live' : ℕ → Type 0) (items : ℕ → BtItem) (mid end last_off last_len off : ℕ)
    → let new = items off in
      (vb new ≤ mid
        → mid ≤ end
        → (new.val_len ≢ 0 → new.val_off ≡ mid - vb new)
        → ((o : ℕ) → Live' o → (Live o × (o ≢ off)) ⊎ (o ≡ off))
        → IsLayout Live items mid end last_off last_len
        → IsLayout Live' items (mid - vb new) end last_off last_len)
IsLayout-grow Live Live' items mid end last_off last_len off room short at which h = record {
  inside = λ o l. elim (which o l) [
    | inl (k, _) ↦ λ n. let (a, b) = h.inside o k n in (omega (arith, a), b)
    | inr e ↦
        subst (λ p. Inside (mid - vb (items off)) end (items p)) (sym e)
          (λ n. (omega (arith, at n), omega (arith, at n, room, short)))
  ];
  apart = λ o p l m n. elim (which o l) [
    | inl (k, _) ↦ elim (which p m) [
      | inl (j, _) ↦ h.apart o p k j n
      | inr f ↦
          subst (λ q. Apart (items o) (items q)) (sym f)
            (λ n z. inr (omega (arith, at n, room, (h.inside o k z).0)))
    ]
    | inr e ↦ elim (which p m) [
      | inl (j, _) ↦
          subst (λ q. Apart (items q) (items p)) (sym e)
            (λ z n. inl (omega (arith, at n, room, (h.inside p j z).0)))
      | inr f ↦ absurd (n (e ∙ sym f))
    ]
  ];
  none_last = h.none_last;
  last = λ n.
      let (two, r) = h.last n in
      (
        two,
        record {
          from_mid = omega (arith, r.from_mid);
          to_end = r.to_end;
          away = λ o l. elim (which o l) [
            | inl (k, _) ↦ r.away o k
            | inr e ↦
                subst (λ q. Away (items q) last_off last_len) (sym e)
                  (λ z. inl (omega (arith, at z, room, r.from_mid)))
          ];
        },
      );
}

module _ (Live : ℕ → Type 0) (items : ℕ → BtItem) (mid end last_off last_len : ℕ)
    (h : IsLayout Live items mid end last_off last_len) (off len : ℕ) (two : 2 ≤ len)
    (free : IsRange Live items mid end off len)
    (apart : last_len ≢ 0 → Disjoint off len last_off last_len) where
  -- a range that is freed next to the free range in the middle joins it
  pub IsLayout-join_mid : mid ≡ off → IsLayout Live items (mid + len) end last_off last_len
  IsLayout-join_mid e = record {
    inside = λ o l n.
        let (a, b) = h.inside o l n in
        let d = free.away o l n in let p = vb_pos (items o) n in (omega (arith, a, d, e, p), b);
    apart = h.apart;
    none_last = h.none_last;
    last = λ n.
        let (t, r) = h.last n in
        (
          t,
          record {
            from_mid = omega (arith, apart n, r.from_mid, e, t);
            to_end = r.to_end;
            away = r.away;
          },
        );
  }

  -- it joins the last free range before or after it
  pub join_front :
      last_len ≢ 0 → off + len ≡ last_off → IsRange Live items mid end off (len + last_len)
  join_front n e =
      let (t, r) = h.last n in
      record {
        from_mid = free.from_mid;
        to_end = omega (arith, e, r.to_end);
        away = λ o l z.
            let p = vb_pos (items o) z in
            let a = free.away o l z in let b = r.away o l z in omega (arith, a, b, p, e, two, t);
      }

  pub join_back :
      last_len ≢ 0
      → last_off + last_len ≡ off
      → IsRange Live items mid end last_off (len + last_len)
  join_back n e =
      let (t, r) = h.last n in
      record {
        from_mid = r.from_mid;
        to_end = omega (arith, e, free.to_end);
        away = λ o l z.
            let p = vb_pos (items o) z in
            let a = free.away o l z in let b = r.away o l z in omega (arith, a, b, p, e, two, t);
      }
