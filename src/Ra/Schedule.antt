-- ===== src/Ra/Schedule.antt =====
-- Reachable states by evaluation: the clients move in a given order.
use mathlib.Core.List.{foldl}
use distributed_mutual_exclu.Base.{
  ℕ, ◌<◌, ◌≡◌, refl, inl, inr, List, Bytes, dec_lt, ℕ_discrete, Bool-cases, Option-cases,
  List-cases, codes,
}
use distributed_mutual_exclu.Ra.{
  can_enter_critical_section, request_resource, release_resource, enter_critical_section,
  treat_message, init, get_msg, index, treat_request_message, treat_reply_message,
}
use distributed_mutual_exclu.Ra.Effects.{posted}
use distributed_mutual_exclu.Ra.Network.{
  Phase, idle, waiting, cleared, inside, Net, Step, Reach, here, next, deliver, NotCleared, Always,
}
use distributed_mutual_exclu.Ra.Text.{body}
use distributed_mutual_exclu.Utils.{split_string}
use distributed_mutual_exclu.Utils.Decimal.{to_string, atoi}
use distributed_mutual_exclu.Base.Int.{to_int, ◌+ℤ◌}

pub data Act : Type 0 where
  requests passes enters releases : ℕ → Act
  receives : ℕ → ℕ → Act

Phase-discrete : Discrete Phase
Phase-discrete = hlevel

dec_not_cleared : (p : Phase) → Dec (NotCleared p)
dec_not_cleared idle = yes (λ e. cc)
dec_not_cleared waiting = yes (λ e. cc)
dec_not_cleared cleared = no (λ h. h refl)
dec_not_cleared inside = yes (λ e. cc)

dec_always : (p : Phase) → Dec (Always p)
dec_always p = yes tt

pub record Run (n : ℕ) (filename : Bytes) (May : Phase → Type 0) : Type 0 where
  pub last : Net
  pub reach : Reach n filename May last

module _ (n : ℕ) (filename : Bytes) (May : Phase → Type 0) (may : (p : Phase) → Dec (May p)) where
  module _ (r : Run n filename May) where
    at_phase :
        (i : ℕ) (p : Phase) → (i < n → r.last.phase i ≡ p → Run n filename May) → Run n filename May
    at_phase i p f = elim (dec_lt i n) [
      | yes lt ↦ elim (Phase-discrete (r.last.phase i) p) [ yes e ↦ f lt e | no _ ↦ r ]
      | no _ ↦ r
    ]

    receive_at : (i j : ℕ) → i < n → j < n → Run n filename May
    receive_at i j li lj = elim (ℕ_discrete i j) [
      | yes _ ↦ r
      | no ne ↦ elim (may (r.last.phase i)) [
        | no _ ↦ r
        | yes m ↦ elim (List-cases (r.last.channel j i)) [
          | inl _ ↦ r
          | inr (ℓ, rest, head) ↦ elim (Option-cases (deliver (r.last.node i) ℓ)) [
            | inl _ ↦ r
            | inr ((s, out), e) ↦ record {
              last = _;
              reach = next r.reach (Step.receive i j ℓ rest s out li lj ne m head e);
            }
          ]
        ]
      ]
    ]

    act : Act → Run n filename May
    act (requests i) =
        at_phase i idle λ lt e. record { last = _; reach = next r.reach (Step.request i lt e) }
    act (passes i) = at_phase i waiting λ lt e.
        elim (Bool-cases (can_enter_critical_section (r.last.node i))) [
          | inl q ↦ record { last = _; reach = next r.reach (Step.pass i lt e q) }
          | inr _ ↦ r
        ]
    act (enters i) =
        at_phase i cleared λ lt e. record { last = _; reach = next r.reach (Step.enter i lt e) }
    act (releases i) =
        at_phase i inside λ lt e. record { last = _; reach = next r.reach (Step.release i lt e) }
    act (receives i j) = elim (dec_lt i n) [
      | yes li ↦ elim (dec_lt j n) [ yes lj ↦ receive_at i j li lj | no _ ↦ r ]
      | no _ ↦ r
    ]

  unfoldable pub run : List Act → Run n filename May
  unfolding act at_phase receive_at List-cases Phase-discrete Bool-cases Option-cases dec_lt
      ℕ_discrete init request_resource release_resource deliver treat_message treat_request_message
      treat_reply_message can_enter_critical_section enter_critical_section posted body split_string
      get_msg to_string to_int ◌+ℤ◌ index atoi
  run acts = foldl act (record { last = _; reach = here }) acts

-- The runs that treat no message between the loop that waits and the entry, and all runs.
unfoldable pub guarded : (n : ℕ) → List Act → Run n (codes "f1") NotCleared
unfolding run dec_not_cleared
guarded n = run n (codes "f1") NotCleared dec_not_cleared

unfoldable pub free : (n : ℕ) → List Act → Run n (codes "f1") Always
unfolding run dec_always
free n = run n (codes "f1") Always dec_always
