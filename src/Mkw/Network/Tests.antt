-- ===== src/Mkw/Network/Tests.antt =====
-- Runs of the clients that share a file by Maekawa's algorithm.
use distributed_mutual_exclu.Base.{
  ℕ, zero, suc, ◌≡◌, refl, arith, List, [], ◌∷◌, ◌++◌, codes, false,
}
use distributed_mutual_exclu.Base.Int.{ℤ, pos}
use distributed_mutual_exclu.Mkw.Network.{inside}
use distributed_mutual_exclu.Mkw.Network.Tokens.{Rightly, count}
use distributed_mutual_exclu.Mkw.Network.Safety.{Once, quorums_exclude}
use distributed_mutual_exclu.Mkw.Network.Schedule.{
  Act, requests, enters, releases, receives, tests, yields, free, rightly, Run,
}

-- Clients 0, 1 and 2, of which 1 and 2 are arbiters.
abbrev quorums : ℕ → List ℤ
quorums zero = pos 1 ∷ []
quorums (suc zero) = pos 2 ∷ []
quorums _ = pos 2 ∷ pos 1 ∷ []

-- Client 2 is inside and client 0 has asked; the INQUIRE to client 2 is on its way.
abbrev inquired : List Act
inquired =
    requests 2
    ∷ receives 0
    ∷ receives 0
    ∷ receives 0
    ∷ receives 0
    ∷ enters 2
    ∷ requests 0
    ∷ receives 0
    ∷ []

-- Client 2 releases and asks again, is refused by arbiter 2, and only then answers the INQUIRE.
abbrev late : List Act
late =
    inquired
    ++ (releases 2
        ∷ receives 2
        ∷ receives 1
        ∷ receives 1
        ∷ enters 0
        ∷ requests 1
        ∷ receives 1
        ∷ requests 2
        ∷ receives 2
        ∷ receives 2
        ∷ receives 2
        ∷ receives 0
        ∷ tests 0
        ∷ yields 0
        ∷ receives 2
        ∷ receives 1
        ∷ receives 1
        ∷ receives 0
        ∷ enters 1
        ∷ releases 1
        ∷ receives 0
        ∷ receives 0
        ∷ enters 2
        ∷ [])

-- The late RELINQUISH takes the lock of arbiter 1 from client 0, which is inside, and gives it to
-- client 2.
both_inside :
    ((free 3 quorums late).last.phase 0 ≡ inside) × ((free 3 quorums late).last.phase 2 ≡ inside)
unfolding free
both_inside = (refl, refl)

-- Not so where INQUIRE is answered rightly: the client does not answer it.
abbrev held_up : Run 3 quorums Rightly
held_up = rightly 3 quorums late

held_up_inside : held_up.last.phase 0 ≡ inside
unfolding rightly
held_up_inside = refl

-- Client 1 is inside with the lock of arbiter 2, which has refused client 2; client 2 has the lock of
-- arbiter 1, which asks for it on behalf of client 0, and finds that it has been refused.
abbrev tested : List Act
tested =
    requests 1
    ∷ receives 0
    ∷ receives 0
    ∷ enters 1
    ∷ requests 2
    ∷ receives 0
    ∷ receives 0
    ∷ receives 0
    ∷ receives 0
    ∷ requests 0
    ∷ receives 0
    ∷ receives 0
    ∷ tests 0
    ∷ []

-- Client 2 answers, and arbiter 1 gives its lock to client 0.
abbrev answers : List Act
answers = yields 0 ∷ receives 0 ∷ receives 0 ∷ enters 0 ∷ []

-- Before the answer client 1 releases, arbiter 2 gives its lock to client 2, and client 2 enters.
abbrev between : List Act
between = releases 1 ∷ receives 0 ∷ receives 0 ∷ enters 2 ∷ []

answered_inside :
    ((free 3 quorums (tested ++ (between ++ answers))).last.phase 0 ≡ inside)
    × ((free 3 quorums (tested ++ (between ++ answers))).last.phase 2 ≡ inside)
unfolding free
answered_inside = (refl, refl)

-- An INQUIRE that is answered rightly.
abbrev yielded : Run 3 quorums Rightly
yielded = rightly 3 quorums (tested ++ answers)

yielded_inside : (yielded.last.phase 1 ≡ inside) × (yielded.last.phase 0 ≡ inside)
unfolding rightly count
yielded_inside = (refl, refl)

quorums-Once : Once quorums
unfolding count
quorums-Once zero a = ground arith
quorums-Once (suc zero) a = ground arith
quorums-Once (suc (suc i)) a = ground arith

quorums_exclude_example : ¬ ((yielded.last.phase 0 ≡ inside) × (yielded.last.phase 2 ≡ inside))
unfolding rightly count
quorums_exclude_example =
    quorums_exclude 3 quorums quorums-Once (codes "f1") (λ _. false) yielded.last 0 2 1
      yielded.reach (λ e. omega arith) (omega arith) (omega arith) (ground arith) (ground arith)
