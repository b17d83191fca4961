-- ===== src/Ra/Work.antt =====
-- What is left to do for the requests that have been made: a number that every step but a new request
-- makes smaller.
pub mod Pairs
pub mod Measure
pub mod Steps
use distributed_mutual_exclu.Base.{
  ℕ, zero, suc, ◌+◌, ◌*◌, ◌<◌, Bool, true, false, not, ◌&&◌, List, if◌then◌else◌, ltb, sum_below,
}
use distributed_mutual_exclu.Ra.Effects.{Letter}
use distributed_mutual_exclu.Ra.Network.{Phase, idle, waiting, cleared, inside, Net}
use distributed_mutual_exclu.Ra.Link.{Side, side, bit, requests, replies, goes_first}

-- A request that its receiver may answer with a request of its own counts for more.
abbrev pub request_work : ℕ → ℕ → Side → Side → ℕ
request_work i j s t = if t.is_waiting && not (goes_first j t.number i s.number) then 5 else 3

-- What the requests of `i` to `j` take, `c` the channel from `i` to `j`.
abbrev pub one_way : ℕ → ℕ → Side → Side → List Letter → ℕ
one_way i j s t c = request_work i j s t * requests c + replies c + 2 * bit t.put_off

abbrev pub both_ways : ℕ → ℕ → Side → Side → List Letter → List Letter → ℕ
both_ways i j s t c d = one_way i j s t c + one_way j i t s d

abbrev pub between : Net → ℕ → ℕ → ℕ
between c i j =
    both_ways i j (side (c.node i) j) (side (c.node j) i) (c.channel i j) (c.channel j i)

abbrev pub phase_work : Phase → ℕ
phase_work idle = 0
phase_work waiting = 3
phase_work cleared = 2
phase_work inside = 1

abbrev pub client_work : ℕ → Net → ℕ → ℕ
client_work n c i = phase_work (c.phase i) + sum_below n (λ j. if ltb i j then between c i j else 0)

pub work : ℕ → Net → ℕ
work n c = sum_below n (client_work n c)
