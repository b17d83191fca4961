-- ===== src/LamportClock.antt =====
-- src/lamportclock.cpp: the logical clock of a node. Its methods hold the mutex throughout, so the
-- calls of several threads are a sequence.
mod Tests
use distributed_mutual_exclu.Base.{◌≡◌, refl, List, [], ◌∷◌, arith}
use distributed_mutual_exclu.Base.Int.{
  ℤ, pos, ◌+ℤ◌, ◌<ℤ◌, ◌≤ℤ◌, max_ℤ, IsInt, to_int, to_int_lem, +ℤ_parts,
}

pub record LamportClock : Type 0 where
  pub timestamp : ℤ
  pub d : ℤ

-- `LamportClock(int timestamp = 0, int d = 1)`, with its defaults
abbrev pub new_clock : LamportClock
new_clock = record { timestamp = pos 0; d = pos 1 }

-- `timestamp + d`
unfoldable pub advanced : LamportClock → ℤ
advanced c = to_int (c.timestamp +ℤ c.d)

unfoldable pub get_timestamp : LamportClock → ℤ
get_timestamp c = c.timestamp

unfoldable pub increase_timestamp : LamportClock → LamportClock × ℤ
increase_timestamp c = (record c { timestamp = advanced c }, advanced c)

unfoldable pub update_timestamp : LamportClock → ℤ → LamportClock × ℤ
update_timestamp c new_timestamp =
    let t = max_ℤ (advanced c) new_timestamp in (record c { timestamp = t }, t)

-- A call that advances the clock.
pub data Call : Type 0 where
  increases : Call
  updates : ℤ → Call

pub perform : LamportClock → Call → LamportClock × ℤ
unfolding increase_timestamp update_timestamp
perform c increases = increase_timestamp c
perform c (updates z) = update_timestamp c z

-- The values that a sequence of calls returns.
pub results : LamportClock → List Call → List ℤ
results c [] = []
results c (k ∷ ks) = let (c', t) = perform c k in t ∷ results c' ks

-- `timestamp + d` is an `int` at each call.
abbrev pub NoOverflow : LamportClock → List Call → Type 0
NoOverflow c [] = Unit {0}
NoOverflow c (k ∷ ks) = IsInt (c.timestamp +ℤ c.d) × NoOverflow (perform c k).0 ks

-- Each value is greater than the one before, the first greater than `z`.
abbrev pub Ascending : ℤ → List ℤ → Type 0
Ascending z [] = Unit {0}
Ascending z (t ∷ ts) = (z <ℤ t) × Ascending t ts

advanced-gt :
    (c : LamportClock) → pos 0 <ℤ c.d → IsInt (c.timestamp +ℤ c.d) → c.timestamp <ℤ advanced c
unfolding advanced
advanced-gt c h v = rw (to_int_lem (c.timestamp +ℤ c.d) v) (omega (arith, +ℤ_parts c.timestamp c.d))

perform-gt :
    (c : LamportClock) (k : Call)
    → pos 0 <ℤ c.d
    → IsInt (c.timestamp +ℤ c.d)
    → c.timestamp <ℤ (perform c k).1
unfolding perform
perform-gt c increases h v = advanced-gt c h v
perform-gt c (updates z) h v = ground (arith, advanced-gt c)

perform-timestamp : (c : LamportClock) (k : Call) → (perform c k).0.timestamp ≡ (perform c k).1
unfolding perform
perform-timestamp c increases = refl
perform-timestamp c (updates z) = refl

perform-d : (c : LamportClock) (k : Call) → (perform c k).0.d ≡ c.d
unfolding perform
perform-d c increases = refl
perform-d c (updates z) = refl

-- With a positive step and no overflow, whatever calls of `increaseTimestamp` and `updateTimestamp` the
-- threads of a node make of its clock, in whatever order, each value that these two return is greater than
-- all that they have returned before.
pub results-Ascending :
    (c : LamportClock) (ks : List Call)
    → pos 0 <ℤ c.d
    → NoOverflow c ks
    → Ascending c.timestamp (results c ks)
unfolding results
results-Ascending c [] h v = tt
results-Ascending c (k ∷ ks) h (v, vs) = (
  perform-gt c k h v,
  rw (perform-timestamp c k) at (results-Ascending (perform c k).0 ks (rw (perform-d c k) h) vs),
)

-- The value that `updateTimestamp` returns is not below the received one, and above the clock's.
pub update_timestamp_dominates :
    (c : LamportClock) (z : ℤ)
    → pos 0 <ℤ c.d
    → IsInt (c.timestamp +ℤ c.d)
    → (z ≤ℤ (update_timestamp c z).1) × (c.timestamp <ℤ (update_timestamp c z).1)
unfolding update_timestamp
update_timestamp_dominates c z h v = ground (arith, advanced-gt c)
