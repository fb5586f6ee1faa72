-- ===== src/Spbm/Tests.antt =====
-- Runs of spbm.c over bitmaps that are tests on numbers, and its theorems at concrete bitmaps.
use native.Mathlib.Decide.{dec_lt}
use scoutfs_kmod_dev.Base.{
  ℕ, zero, suc, ◌<◌, ◌≡◌, ◌==◌, if◌then◌else◌, Bool, true, false, not, ◌&&◌, ◌↔◌, refl, arith, err,
  subst, enomem,
}
use scoutfs_kmod_dev.RbTree.{leaf, RbOps, find, IsRbOps, link, write}
use scoutfs_kmod_dev.RbTree.Spine.{spine_ops, spine-IsRbOps, drop_key}
use scoutfs_kmod_dev.Spbm.{
  Bitmap, Spbm, SpbmNode, index_of, spbm_set, spbm_test, spbm_clear, spbm_empty, find_node,
  calc_index_nr,
}
use scoutfs_kmod_dev.Spbm.Store.{Sets, Clears, IsBitmap, IsSpbm}
use scoutfs_kmod_dev.Spbm.Set.{spbm_set-Sets}
use scoutfs_kmod_dev.Spbm.Clear.{spbm_clear-Clears}
use scoutfs_kmod_dev.Spbm.Empty.{spbm_empty_iff}

unfoldable pub none_below : ℕ → (ℕ → Bool) → Bool
none_below zero b = true
none_below (suc n) b = not (b n) && none_below n b

none_below_iff : (k : ℕ) (b : ℕ → Bool) → (none_below k b ≡ true) ↔ ((n : ℕ) → n < k → b n ≡ false)
unfolding none_below
none_below_iff zero b = (λ _ n h. absurd (omega (arith, h)), λ _. refl)
none_below_iff (suc k) b = (
  λ e n h.
      let rest : none_below k b ≡ true = ground (arith, e) in
      let last : b k ≡ false = ground (arith, e) in
      elim (dec_lt n k) [
        | yes q ↦ (none_below_iff k b).0 rest n q
        | no q ↦ subst (λ m. b m ≡ false) (omega (arith, h, q)) last
      ],
  λ h. ground (arith, h k (omega arith), (none_below_iff k b).1 (λ n l. h n (omega (arith, l)))),
)

abbrev pub tests : Bitmap (ℕ → Bool)
tests = record {
  zeros = λ _. false;
  set = λ n b m. if m == n then true else b m;
  clear = λ n b m. if m == n then false else b m;
  test = λ n b. b n;
  empty = none_below 128;
}

tests-IsBitmap : IsBitmap tests
tests-IsBitmap = record {
  test_zeros = λ n. refl;
  test_set = λ n m b _ _. refl;
  test_clear = λ n m b _ _. refl;
  empty_iff = none_below_iff 128;
}

abbrev rb : RbOps (SpbmNode (ℕ → Bool))
rb = spine_ops index_of

rb-IsRbOps : IsRbOps index_of rb
rb-IsRbOps = spine-IsRbOps index_of

abbrev nothing : Spbm (ℕ → Bool)
nothing = leaf

nothing-IsSpbm : IsSpbm tests nothing
unfolding find
nothing-IsSpbm = record { sorted = tt; some_bit = λ k sn h. cc }

-- the set of 300
abbrev one : Spbm (ℕ → Bool)
one = (spbm_set tests rb true nothing 300).1

-- What a run of spbm.c computes with, to be named on `unfolding` lines.
run_of_spbm : Unit {0}
unfolding find link write find_node calc_index_nr spbm_set spbm_test spbm_clear spbm_empty drop_key
    none_below
run_of_spbm = tt

set_runs : (spbm_test tests rb one 300 ≡ true) × (spbm_test tests rb one 301 ≡ false)
unfolding run_of_spbm
set_runs = (refl, refl)

-- The last number of a node takes the node with it.
clear_frees : spbm_clear tests rb one 300 ≡ leaf
unfolding run_of_spbm
clear_frees = refl

no_memory : spbm_set tests rb false nothing 300 ≡ (err enomem, nothing)
unfolding run_of_spbm
no_memory = refl

one-IsSpbm : IsSpbm tests one
unfolding run_of_spbm
one-IsSpbm = (spbm_set-Sets tests rb tests-IsBitmap rb-IsRbOps true nothing 300 nothing-IsSpbm).0

spbm_set-Sets_example : Sets tests rb true nothing 300 (spbm_set tests rb true nothing 300)
spbm_set-Sets_example =
    spbm_set-Sets tests rb tests-IsBitmap rb-IsRbOps true nothing 300 nothing-IsSpbm

spbm_clear-Clears_example : Clears tests rb one 300 (spbm_clear tests rb one 300)
spbm_clear-Clears_example = spbm_clear-Clears tests rb tests-IsBitmap rb-IsRbOps one 300 one-IsSpbm

spbm_empty_iff_example : (spbm_empty one ≡ true) ↔ ((b : ℕ) → spbm_test tests rb one b ≡ false)
spbm_empty_iff_example = spbm_empty_iff tests rb tests-IsBitmap one one-IsSpbm
