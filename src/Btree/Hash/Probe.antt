-- ===== src/Btree/Hash/Probe.antt =====
-- The loops that probe the buckets from a key's own bucket on.
use scoutfs_kmod_dev.Base.{
  ℕ, zero, suc, ◌<◌, ◌≡◌, ◌≢◌, ◌⊎◌, inl, inr, ◌==◌, ==_iff, Bool-cases, true, false, Option, none,
  some, Kernel, done, arith, refl, ap, sym, ◌∙◌,
}
use scoutfs_kmod_dev.Key.{Key}
use scoutfs_kmod_dev.Btree.Hash.{
  hash_nr, Buckets, set_bucket, next_bucket, same_key, search_from, insert_from, delete_from,
  change_from,
}
use scoutfs_kmod_dev.Btree.Hash.Distance.{dist, next_bucket-lt, dist-next_bucket}

-- Every bucket that a probe from `i` to `p` passes is populated.
abbrev pub Passes : Buckets → ℕ → ℕ → Type 0
Passes b i p = (q : ℕ) → q < hash_nr → dist i q < dist i p → b q ≢ 0

module _ (b : Buckets) (i : ℕ) (lt : i < hash_nr) where
  -- A probe that goes on from `i` has passed it.
  passed : (p : ℕ) → p < hash_nr → i ≢ p → b i ≢ 0 → Passes b (next_bucket i) p → Passes b i p
  passed p h n here rest q k c = elim (Bool-cases (i == q)) [
    | inl e ↦ let at : i ≡ q = (==_iff i q).0 e in λ z. here (ap b at ∙ z)
    | inr e ↦
        let apart : i ≢ q = ground (arith, e) in
        rest q k (omega (arith, c, dist-next_bucket i q lt k apart, dist-next_bucket i p lt h n))
  ]

  goes_on : (p : ℕ) → p < hash_nr → i ≢ p → Passes b i p → Passes b (next_bucket i) p
  goes_on p h n all q k c = elim (Bool-cases (i == q)) [
    | inl e ↦
        all q k
          (let at : i ≡ q = (==_iff i q).0 e in ground (arith, at, dist-next_bucket i p lt h n))
    | inr e ↦
        let apart : i ≢ q = ground (arith, e) in
        all q k (omega (arith, c, dist-next_bucket i q lt k apart, dist-next_bucket i p lt h n))
  ]

-- No probe passes an empty bucket.
ends :
    (b : Buckets) (i : ℕ) → i < hash_nr → (p : ℕ) → p < hash_nr → Passes b i p → b p ≢ 0 → b i ≢ 0
ends b i h p l all m z = elim (Bool-cases (i == p)) [
  | inl e ↦ let at : i ≡ p = (==_iff i p).0 e in m (sym (ap b at) ∙ z)
  | inr e ↦ all i h (ground (arith, e, l, h)) z
]

-- The offset goes to the first empty bucket of the probe.
abbrev pub Places : Buckets → ℕ → ℕ → Kernel Buckets → Type 0
Places b off i r =
    (p : ℕ) × (p < hash_nr) × (b p ≡ 0) × (r ≡ done (set_bucket b p off)) × Passes b i p

pub insert_from-Places :
    (nr : ℕ) (b : Buckets) (off i t : ℕ)
    → i < hash_nr
    → t < hash_nr
    → b t ≡ 0
    → dist i t < nr
    → Places b off i (insert_from nr b off i)
unfolding insert_from
insert_from-Places zero b off i t h k e d = absurd (omega (arith, d))
insert_from-Places (suc nr) b off i t h k e d = elim (Bool-cases (b i == 0)) [
  | inl z ↦ (i, h, (==_iff (b i) 0).0 z, ground (arith, z), λ q l c. absurd (ground (arith, c)))
  | inr z ↦
      let here : b i ≢ 0 = ground (arith, z) in
      let apart : i ≢ t = λ x. here (ap b x ∙ e) in
      let (p, l, f, r, all) =
        insert_from-Places nr b off (next_bucket i) t (next_bucket-lt i h) k e
          (omega (arith, d, dist-next_bucket i t h k apart)) in
      (p, l, f, ground (arith, z, r), passed b i h p l (λ x. here (ap b x ∙ f)) here all)
]

module _ (keys : ℕ → Key) where
  -- An item of the key, or there is none in any bucket that the probe comes to.
  abbrev pub Searches : ℕ → Buckets → Key → ℕ → Option ℕ → Type 0
  Searches nr b key i r =
      ((r ≡ none)
        × ((p : ℕ)
            → p < hash_nr
            → dist i p < nr
            → Passes b i p
            → b p ≢ 0
            → same_key key (keys (b p)) ≡ false))
      ⊎ ((p : ℕ) × (p < hash_nr)
          × (r ≡ some (b p))
          × (b p ≢ 0)
          × (same_key key (keys (b p)) ≡ true))

  pub search_from-Searches :
      (nr : ℕ) (b : Buckets) (key : Key) (i : ℕ)
      → i < hash_nr
      → Searches nr b key i (search_from keys nr b key i)
  unfolding search_from
  search_from-Searches zero b key i h = inl (refl, λ p l d. absurd (omega (arith, d)))
  search_from-Searches (suc nr) b key i h = elim (Bool-cases (b i == 0)) [
    | inl z ↦
        inl (ground (arith, z), λ p l d all m. absurd (ends b i h p l all m ((==_iff (b i) 0).0 z)))
    | inr z ↦ elim (Bool-cases (same_key key (keys (b i)))) [
      | inl s ↦ inr (i, h, ground (arith, z, s), ground (arith, z), s)
      | inr s ↦ elim (search_from-Searches nr b key (next_bucket i) (next_bucket-lt i h)) [
        | inl (r, none_later) ↦ inl (
          ground (arith, z, s, r),
          λ p l d all m. elim (Bool-cases (i == p)) [
            | inl e ↦
                let at : i ≡ p = (==_iff i p).0 e in
                ap (λ x. same_key key (keys (b x))) (sym at) ∙ s
            | inr e ↦
                let apart : i ≢ p = ground (arith, e) in
                none_later p l (omega (arith, d, dist-next_bucket i p h l apart))
                  (goes_on b i h p l apart all) m
          ],
        )
        | inr (p, l, r, m, t) ↦ inr (p, l, ground (arith, z, s, r), m, t)
      ]
    ]
  ]

-- A populated bucket whose offset stands in no other one, which the probe comes to.
abbrev pub Stands : Buckets → ℕ → ℕ → ℕ → Type 0
Stands b off i p =
    (p < hash_nr)
    × (b p ≡ off)
    × (off ≢ 0)
    × ((q : ℕ) → q < hash_nr → b q ≡ off → q ≡ p)
    × Passes b i p

-- what a probe for it meets before it
before_it :
    (b : Buckets) (off i p : ℕ)
    → i < hash_nr
    → i ≢ p
    → Stands b off i p
    → (b i ≢ 0) × (b i ≢ off) × Stands b off (next_bucket i) p
before_it b off i p h n (l, e, m, one, all) = (
  ends b i h p l all (λ z. m (sym e ∙ z)),
  λ x. n (one i h x),
  (l, e, m, one, goes_on b i h p l n all),
)

pub delete_from_lem :
    (nr : ℕ) (b : Buckets) (off i p : ℕ)
    → i < hash_nr
    → dist i p < nr
    → Stands b off i p
    → delete_from nr b off i ≡ done (p, set_bucket b p 0)
unfolding delete_from
delete_from_lem zero b off i p h d s = absurd (omega (arith, d))
delete_from_lem (suc nr) b off i p h d s = elim (Bool-cases (i == p)) [
  | inl x ↦
      let at : i ≡ p = (==_iff i p).0 x in
      let here : b i ≡ off = ap b at ∙ s.1 in ground (arith, here, s.2, at)
  | inr x ↦
      let apart : i ≢ p = ground (arith, x) in
      let (m, n, rest) = before_it b off i p h apart s in
      let r =
        delete_from_lem nr b off (next_bucket i) p (next_bucket-lt i h)
          (omega (arith, d, dist-next_bucket i p h s.0 apart)) rest in
      ground (arith, m, n, r)
]

pub change_from_lem :
    (nr : ℕ) (b : Buckets) (to off i p : ℕ)
    → i < hash_nr
    → dist i p < nr
    → Stands b off i p
    → change_from nr b to off i ≡ done (set_bucket b p to)
unfolding change_from
change_from_lem zero b to off i p h d s = absurd (omega (arith, d))
change_from_lem (suc nr) b to off i p h d s = elim (Bool-cases (i == p)) [
  | inl x ↦
      let at : i ≡ p = (==_iff i p).0 x in
      let here : b i ≡ off = ap b at ∙ s.1 in ground (arith, here, s.2, at)
  | inr x ↦
      let apart : i ≢ p = ground (arith, x) in
      let (m, n, rest) = before_it b off i p h apart s in
      let r =
        change_from_lem nr b to off (next_bucket i) p (next_bucket-lt i h)
          (omega (arith, d, dist-next_bucket i p h s.0 apart)) rest in
      ground (arith, m, n, r)
]
