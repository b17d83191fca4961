-- ===== src/Ra/Network.antt =====
-- The clients of one file that run Ricart-Agrawala, with the channels between them. Each client
-- has its main thread (`Client::requestCriticalSection`, then `request_resource`,
-- `enter_critical_section` and `release_resource`) and a thread for each peer's socket that treats
-- messages. Whatever holds the object's mutex is one step; the steps interleave in any order.
use distributed_mutual_exclu.Base.{
  ℕ, ◌<◌, ◌≡◌, ◌≢◌, true, List, [], ◌∷◌, ◌++◌, Option, some, Bytes, ◌>>=◌, ◌==◌, if◌then◌else◌,
}
use distributed_mutual_exclu.Ra.{
  Ra, Send, init, request_resource, can_enter_critical_section, enter_critical_section,
  release_resource, treat_message,
}
use distributed_mutual_exclu.Ra.Effects.{Letter, posted}
use distributed_mutual_exclu.Ra.Text.{body}

-- Where the main thread of a client stands.
pub data Phase : Type 0 where
  idle : Phase  -- between two requests
  waiting : Phase  -- in the loop of `request_resource` that waits
  cleared : Phase  -- behind that loop, before the lock of `enter_critical_section`
  inside : Phase  -- in the critical section

pub record Net : Type 0 where
  pub node : ℕ → Ra
  pub phase : ℕ → Phase
  pub channel : ℕ → ℕ → List Letter  -- from the first client to the second, oldest first

abbrev pub update {ℓ} : {A : Type ℓ} → (ℕ → A) → ℕ → A → ℕ → A
update f i x j = if i == j then x else f j

-- `i` sends: each message goes to the end of its receiver's channel.
abbrev pub post : (ℕ → ℕ → List Letter) → ℕ → List Send → ℕ → ℕ → List Letter
post channel i out x y = if i == x then channel x y ++ posted y out else channel x y

-- A letter from `j` to `i` is taken off its channel.
abbrev pub take_off : (ℕ → ℕ → List Letter) → ℕ → ℕ → List Letter → ℕ → ℕ → List Letter
take_off channel j i rest x y =
    if j == x then (if i == y then rest else channel x y) else channel x y

-- `handleClientPacket`, for a message of the algorithm on this file.
unfoldable pub deliver : Ra → Letter → Option (Ra × List Send)
deliver s ℓ = do text ← body ℓ.msg; treat_message s ℓ.message_type text

-- `May` says at which points of its main thread a client may treat a message. The code lets it at
-- every point.
pub data Step (n : ℕ) (May : Phase → Type 0) (c : Net) : Net → Type 0 where
  request :
      (i : ℕ)
      → i < n
      → c.phase i ≡ idle
      → Step n May c (record {
        node = update c.node i (request_resource (c.node i)).0;
        phase = update c.phase i waiting;
        channel = post c.channel i (request_resource (c.node i)).1;
      })
  pass :
      (i : ℕ)
      → i < n
      → c.phase i ≡ waiting
      → can_enter_critical_section (c.node i) ≡ true
      → Step n May c (record c { phase = update c.phase i cleared })
  enter :
      (i : ℕ)
      → i < n
      → c.phase i ≡ cleared
      → Step n May c (record c {
        node = update c.node i (enter_critical_section (c.node i));
        phase = update c.phase i inside;
      })
  release :
      (i : ℕ)
      → i < n
      → c.phase i ≡ inside
      → Step n May c (record {
        node = update c.node i (release_resource (c.node i)).0;
        phase = update c.phase i idle;
        channel = post c.channel i (release_resource (c.node i)).1;
      })
  receive :
      (i j : ℕ) (ℓ : Letter) (rest : List Letter) (s : Ra) (out : List Send)
      → i < n
      → j < n
      → i ≢ j
      → May (c.phase i)
      → c.channel j i ≡ ℓ ∷ rest
      → deliver (c.node i) ℓ ≡ some (s, out)
      → Step n May c (record {
        node = update c.node i s;
        phase = c.phase;
        channel = post (take_off c.channel j i rest) i out;
      })

abbrev pub start : ℕ → Bytes → Net
start n filename = record { node = λ i. init i n filename; phase = λ _. idle; channel = λ _ _. [] }

pub data Reach (n : ℕ) (filename : Bytes) (May : Phase → Type 0) : Net → Type 0 where
  here : Reach n filename May (start n filename)
  next : {c d : Net} → Reach n filename May c → Step n May c d → Reach n filename May d

-- The code.
abbrev pub Always : Phase → Type 0
Always _ = Unit {0}

-- As if the test of `can_enter_critical_section` and the entry were under one lock.
abbrev pub NotCleared : Phase → Type 0
NotCleared p = p ≢ cleared
