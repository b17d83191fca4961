-- ===== src/Mkw/History.antt =====
-- An arbiter of Maekawa's algorithm over a sequence of messages: its lock is out once at most.
use distributed_mutual_exclu.Base.{ℕ, ◌+◌, ◌≤◌, ◌≡◌, List, [], ◌∷◌, ◌++◌, some, arith}
use distributed_mutual_exclu.Packet.Types.{Packet}
use distributed_mutual_exclu.Mkw.{Mkw, Send, treat_message}
use distributed_mutual_exclu.Mkw.Arbiter.{IsArbiter}
use distributed_mutual_exclu.Mkw.Handlers.{
  locks, returns, taken, Whenever, Fair, treat_message-Fair,
}

-- Messages that an arbiter has treated and the messages that it has sent, both with the latest
-- first.
pub data Treated (s : Mkw) : List Packet → Mkw → List Send → Type 0 where
  nothing : Treated s [] s []
  further :
      (p : Packet) (ps : List Packet) (s' s'' : Mkw) (out more : List Send)
      → Treated s ps s' out
      → treat_message s' p ≡ some (s'', more)
      → Treated s (p ∷ ps) s'' (more ++ out)

unfoldable pub all_returns : List Packet → ℕ
unfolding returns
all_returns [] = 0
all_returns (p ∷ ps) = returns p.message_type + all_returns ps

locks-append : (xs ys : List Send) → locks (xs ++ ys) ≡ locks xs + locks ys
unfolding locks
locks-append [] ys = omega arith
locks-append (x ∷ xs) ys = omega (arith, locks-append xs ys)

-- Whatever messages an arbiter treats, in whatever order: it stays well formed, and the LOCKED that
-- it has sent are at most the RELEASE and RELINQUISH that it has treated, and one more if its lock
-- is out in the end and was not in the beginning.
pub lock_out_once :
    (s s' : Mkw) (ps : List Packet) (out : List Send)
    → IsArbiter s
    → Treated s ps s' out
    → IsArbiter s' × (locks out + taken s ≤ all_returns ps + taken s')
unfolding locks all_returns Whenever
lock_out_once s _ _ _ a nothing = (a, omega arith)
lock_out_once s _ _ _ a (further p ps s' s'' out more before e) =
    let h = lock_out_once s s' ps out a before in
    let step : Fair (taken s') (returns p.message_type) s'' more =
      rw e at (treat_message-Fair s' p h.0) in
    (step.well_formed, omega (arith, h.1, step.covered, locks-append more out))
