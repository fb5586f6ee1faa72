-- ===== src/LockServer/Progress.antt =====
-- Requests are answered in the order in which they came, and wait for invalidations only.
use scoutfs_kmod_dev.Base.{ℕ, ◌≡◌, ◌⊎◌, false, Ret, ok, List, [], ◌∷◌, ◌++◌}
use mathlib.Core.List.{map}
use scoutfs_kmod_dev.LockServer.{ClientEntry, Message, invalidate, grant, Work, is_empty}

-- The client, the request's id and the mode of each grant among the messages.
abbrev pub answers : List Message → List (ℕ × ℕ × ℕ)
answers [] = []
answers (invalidate _ _ _ ∷ ms) = answers ms
answers (grant rid net_id _ mode _ ∷ ms) = (rid, net_id, mode) ∷ answers ms

abbrev pub asked_by : ClientEntry → ℕ × ℕ × ℕ
asked_by c = (c.rid, c.net_id, c.mode)

-- From `w` to the result some requests from the head of the queue were answered, one grant for each
-- and in order, and all others still wait; without an error either no request waits or some
-- invalidation is in flight.
pub record Serves (w : Work) (p : Ret × Work) : Type 0 where
  pub served : List ClientEntry
  pub queue : w.node.requested ≡ served ++ p.1.node.requested
  pub answered : answers p.1.sent ≡ answers w.sent ++ map asked_by served
  pub stops : p.0 ≡ ok → (is_empty p.1.node.invalidated ≡ false) ⊎ (p.1.node.requested ≡ [])

module _ (net : List Message → Message → Ret) where
  -- the walk over the grants answers no request
  abbrev Quiet : Work → Ret × Work → Type 0
  Quiet w p = (p.1.node.requested ≡ w.node.requested) × (answers p.1.sent ≡ answers w.sent)
