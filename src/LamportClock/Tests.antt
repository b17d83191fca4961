-- ===== src/LamportClock/Tests.antt =====
-- The theorems about the clock at a concrete one.
use distributed_mutual_exclu.Base.{[], ◌∷◌, arith}
use distributed_mutual_exclu.Base.Int.{pos, to_int, negsuc, ◌+ℤ◌}
use distributed_mutual_exclu.LamportClock.{
  LamportClock, increases, updates, results, Ascending, results-Ascending, update_timestamp,
  perform, increase_timestamp, advanced,
}

abbrev clock : LamportClock
clock = record { timestamp = negsuc 1; d = pos 3 }

results-Ascending_example :
    Ascending (negsuc 1) (results clock (increases ∷ updates (pos 40) ∷ updates (pos 5) ∷ []))
unfolding perform increase_timestamp update_timestamp advanced to_int ◌+ℤ◌
results-Ascending_example =
    results-Ascending clock (increases ∷ updates (pos 40) ∷ updates (pos 5) ∷ []) (omega arith)
      (omega arith, (omega arith, (omega arith, tt)))
