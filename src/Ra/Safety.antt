-- ===== src/Ra/Safety.antt =====
-- What holds in every state that the clients of one file can reach.
use distributed_mutual_exclu.Base.{
  ℕ, ◌<◌, ◌≤◌, ◌^◌, ◌≡◌, ◌≢◌, refl, sym, ◌∙◌, inl, inr, true, false, Bool-cases, List, ◌∷◌, Bytes,
  some, Lacks,
}
use distributed_mutual_exclu.Ra.{Ra, Send, granted}
use distributed_mutual_exclu.Ra.Effects.{Letter}
use distributed_mutual_exclu.Ra.Network.{Phase, inside, Net, Reach, NotCleared, deliver}
use distributed_mutual_exclu.Ra.Link.Counts.{no_two_held}
use distributed_mutual_exclu.Ra.Invariant.{NetOk, using_in, passed}
use distributed_mutual_exclu.Ra.Invariant.Steps.{Reach-NetOk, deliver_total}

using-passed : (p : Phase) → using_in p ≡ true → passed p ≡ true
using-passed inside h = refl
using-passed _ h = cc

-- Mutual exclusion: for at most 2^31 clients and a file without ';' in its name, if no client treats a message between the end of the loop that waits and the
-- lock of `enter_critical_section`, then in every state that the clients reach, while one client
-- uses the critical section of the file no other does.
pub mutual_exclusion :
    {n : ℕ} {filename : Bytes} {c : Net}
    → n ≤ 2 ^ 31
    → Lacks b';' filename
    → Reach n filename NotCleared c
    → (i j : ℕ) → i < n
    → j < n
    → i ≢ j
    → (c.node i).is_using ≡ true
    → (c.node j).is_using ≡ false
mutual_exclusion {n} {filename} {c} small plain r i j li lj e ui =
    elim (Bool-cases (c.node j).is_using) [
      | inr uj ↦ uj
      | inl uj ↦ absurd (
          no_two_held _ _ _ _ (ok.links i j li lj e) (held i j li lj e ui)
            (held j i lj li (λ q. e (sym q)) uj))
    ]
  where
    ok : NetOk n filename c
    ok = Reach-NetOk small plain r

    held :
        (x y : ℕ) → x < n → y < n → x ≢ y → (c.node x).is_using ≡ true → granted (c.node x) y ≡ true
    held x y lx ly e u =
        let h = ok.nodes x lx in h.all_held (using-passed _ (sym h.uses ∙ u)) y ly e

-- Under the conditions of `mutual_exclusion` no message on its way makes its receiver fault: the text behind the file's name is there, it has
-- the fields that `treat_message` reads, and the sender's number lies within the vectors.
pub messages_never_fault :
    {n : ℕ} {filename : Bytes} {c : Net}
    → n ≤ 2 ^ 31
    → Lacks b';' filename
    → Reach n filename NotCleared c
    → (i j : ℕ) (ℓ : Letter) (rest : List Letter) → i < n
    → j < n
    → i ≢ j
    → c.channel j i ≡ ℓ ∷ rest
    → (r : Ra × List Send) × (deliver (c.node i) ℓ ≡ some r)
messages_never_fault {c} small plain r i j ℓ rest li lj e head =
    let ok = Reach-NetOk small plain r in
    let from = rw head at (ok.letters j i lj li (λ q. e (sym q))) in
    deliver_total small plain (c.node i) j (c.node j).our_sequence_number ℓ from.0
      (ok.nodes i li).size lj
