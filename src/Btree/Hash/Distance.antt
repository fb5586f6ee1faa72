-- ===== src/Btree/Hash/Distance.antt =====
-- Distances between buckets, in the order in which they are probed.
use scoutfs_kmod_dev.Base.{ℕ, ◌+◌, ◌-◌, ◌<◌, ◌≤◌, ◌≡◌, ◌≢◌, leb, if◌then◌else◌, arith}
use scoutfs_kmod_dev.Btree.Hash.{hash_nr, next_bucket}

-- how many steps it takes from bucket `i` to bucket `j`
abbrev pub dist : ℕ → ℕ → ℕ
dist i j = if leb i j then j - i else j + hash_nr - i

pub next_bucket-lt : (i : ℕ) → i < hash_nr → next_bucket i < hash_nr
unfolding next_bucket
next_bucket-lt i h = ground arith

pub dist-lt : (i j : ℕ) → i < hash_nr → j < hash_nr → dist i j < hash_nr
dist-lt i j h k = ground arith

pub dist_inj : (i j k : ℕ) → i < hash_nr → j < hash_nr → k < hash_nr → dist i j ≡ dist i k → j ≡ k
dist_inj i j k h p q e = ground arith

pub dist-next_bucket :
    (i j : ℕ) → i < hash_nr → j < hash_nr → i ≢ j → dist i j ≡ dist (next_bucket i) j + 1
unfolding next_bucket
dist-next_bucket i j h k n = ground arith

pub dist_to_next :
    (e i : ℕ)
    → e < hash_nr
    → i < hash_nr
    → next_bucket i ≢ e
    → dist e (next_bucket i) ≡ dist e i + 1
unfolding next_bucket
dist_to_next e i h k n = ground arith

pub dist_last :
    (e i j : ℕ) → e < hash_nr → i < hash_nr → j < hash_nr → next_bucket i ≡ e → dist e j ≤ dist e i
unfolding next_bucket
dist_last e i j h k l n = ground arith

-- An empty bucket that no probe from `h` to `p` passes makes their buckets an interval.
pub interval :
    (e h p : ℕ)
    → e < hash_nr
    → h < hash_nr
    → p < hash_nr
    → dist h p ≤ dist h e
    → p ≢ e
    → dist e h ≤ dist e p
interval e h p a b c d f = ground arith

pub in_interval :
    (e h p q : ℕ)
    → e < hash_nr
    → h < hash_nr
    → p < hash_nr
    → q < hash_nr
    → dist e h ≤ dist e p
    → dist e h ≤ dist e q
    → dist e q < dist e p
    → dist h q < dist h p
in_interval e h p q a b c d f g k = ground arith

pub of_interval :
    (e h p q : ℕ)
    → e < hash_nr
    → h < hash_nr
    → p < hash_nr
    → q < hash_nr
    → dist e h ≤ dist e p
    → dist h q < dist h p
    → (dist e h ≤ dist e q) × (dist e q < dist e p)
of_interval e h p q a b c d f g = ground arith

pub up_to_interval :
    (e h p q : ℕ)
    → e < hash_nr
    → h < hash_nr
    → p < hash_nr
    → q < hash_nr
    → dist e h ≤ dist e p
    → dist h q ≤ dist h p
    → (dist e h ≤ dist e q) × (dist e q ≤ dist e p)
up_to_interval e h p q a b c d f g = ground arith

pub dist_apart : (e h : ℕ) → e < hash_nr → h < hash_nr → h ≢ e → 0 < dist e h
dist_apart e h a b n = ground arith
