-- ===== src/Ra/Progress.antt =====
-- Ricart-Agrawala does not come to a halt while a client waits.
use distributed_mutual_exclu.Base.{
  ℕ, zero, suc, ◌+◌, ◌<◌, ◌≤◌, ◌^◌, ◌≡◌, ◌≢◌, refl, sym, ap, ◌∙◌, ◌⊎◌, inl, inr, Bool, true, false,
  ◌&&◌, ◌||◌, List, [], ◌∷◌, Bytes, Lacks, arith, Bool-cases, List-cases, ==_cases,
}
use distributed_mutual_exclu.Ra.{Ra, granted, counts, all_granted, can_enter_critical_section}
use distributed_mutual_exclu.Ra.Earliest.{search_below, Earliest, earliest}
use distributed_mutual_exclu.Ra.Effects.{Letter}
use distributed_mutual_exclu.Ra.Network.{
  Phase, idle, waiting, cleared, inside, Net, Step, request, pass, enter, release, receive, Reach,
  NotCleared,
}
use distributed_mutual_exclu.Ra.Link.{goes_first}
use distributed_mutual_exclu.Ra.Link.Counts.{kept_back}
use distributed_mutual_exclu.Ra.Invariant.{NetOk, using_in, waiting_in, passed}
use distributed_mutual_exclu.Ra.Invariant.Steps.{Reach-NetOk}
use distributed_mutual_exclu.Ra.Safety.{messages_never_fault}

passed-using : (p : Phase) → passed p ≡ false → using_in p ≡ false
passed-using inside h = h
passed-using _ h = refl

true-ne-false : true ≢ false
true-ne-false = λ e. cc

-- A step that is not a new request.
abbrev pub serves : {n : ℕ} {May : Phase → Type 0} {c d : Net} → Step n May c d → Bool
serves (request i lt e) = false
serves (pass i lt e q) = true
serves (enter i lt e) = true
serves (release i lt e) = true
serves (receive i j ℓ rest s out li lj ne may head e) = true

abbrev pub Serves : ℕ → Net → Type 0
Serves n c = (d : Net) × (st : Step n NotCleared c d) × (serves st ≡ true)

granted-all_granted :
    (s : Ra) (k j : ℕ)
    → ((y : ℕ) → y < j + k → y ≢ s.me → granted s y ≡ true)
    → all_granted s (counts k j) ≡ true
unfolding all_granted
granted-all_granted s zero j h = refl
granted-all_granted s (suc k) j h =
    let rest = granted-all_granted s k (suc j) (λ y l. h y (omega arith)) in
    elim (==_cases j s.me) [
      | inl (b, e) ↦ rw (b, rest) refl
      | inr (b, e) ↦ rw (b, h j (omega arith) e, rest) refl
    ]

pub granted-can_enter :
    (s : Ra)
    → ((y : ℕ) → y < s.n → y ≢ s.me → granted s y ≡ true)
    → can_enter_critical_section s ≡ true
unfolding can_enter_critical_section
granted-can_enter s h = granted-all_granted s s.n 0 (λ y l. h y (omega arith))

module _ {n : ℕ} {filename : Bytes} {c : Net} (ok : NetOk n filename c) where
  -- With nothing on its way and nobody behind the loop that waits, the earliest of the clients that
  -- wait has all permissions.
  module _ (quiet : (i j : ℕ) → i < n → j < n → i ≢ j → c.channel i j ≡ [])
      (outside : (i : ℕ) → i < n → passed (c.phase i) ≡ false) {i : ℕ}
      (h : Earliest n (λ k. waiting_in (c.phase k)) (λ k. (c.node k).our_sequence_number) i) where
    not_kept :
        (y : ℕ)
        → y < n
        → i ≢ y
        → ((c.node y).is_using
            || ((c.node y).is_waiting
                && goes_first y (c.node y).our_sequence_number i (c.node i).our_sequence_number))
          ≡ false
    not_kept y l e = ground (
      arith,
      (ok.nodes y l).uses,
      (ok.nodes y l).waits,
      passed-using (c.phase y),
      outside y l,
      h.first y l,
    )

    all_granted_lem : (y : ℕ) → y < n → i ≢ y → granted (c.node i) y ≡ true
    all_granted_lem y l e = elim (Bool-cases (granted (c.node i) y)) [
      | inl g ↦ g
      | inr g ↦
          let link =
            rw (quiet i y h.below l e, quiet y i l h.below (λ q. e (sym q))) at
              (ok.links i y h.below l e) in
          absurd (
            true-ne-false (
              sym (kept_back _ _ link.0 ((ok.nodes i h.below).waits ∙ h.chosen) g)
              ∙ not_kept y l e))
    ]

  waits_on : (p : Phase) → waiting_in p ≡ true → passed p ≡ false → p ≡ waiting
  waits_on waiting h q = refl
  waits_on cleared h q = absurd (true-ne-false q)
  waits_on idle h q = cc
  waits_on inside h q = cc

  -- Behind its waiting loop a client enters, or leaves.
  moves_on : (i : ℕ) → i < n → (p : Phase) → c.phase i ≡ p → passed p ≡ true → Serves n c
  moves_on i l cleared e q = (_, enter i l e, refl)
  moves_on i l inside e q = (_, release i l e, refl)
  moves_on i l idle e q = cc
  moves_on i l waiting e q = cc

-- No deadlock: for at most 2^31 clients and a file without ';' in its name, if no client treats a
-- message between the end of the loop that waits and the lock of `enter_critical_section`, then in
-- every state that the clients reach in which a client waits, some client can treat a message, leave
-- its waiting loop, enter or release; no new request is needed.
pub no_deadlock :
    {n : ℕ} {filename : Bytes} {c : Net}
    → n ≤ 2 ^ 31
    → Lacks b';' filename
    → Reach n filename NotCleared c
    → (i : ℕ) → i < n
    → c.phase i ≡ waiting
    → Serves n c
no_deadlock {n} {filename} {c} small plain r i l e = elim somebody_passed [
  | inl (k, lk, p) ↦ moves_on ok k lk (c.phase k) refl p
  | inr outside ↦ elim something_sent [
    | inl (j, lj, (k, lk, (ne, (ℓ, rest, head)))) ↦
        let (s, treated) =
          messages_never_fault small plain r k j ℓ rest lk lj (λ q. ne (sym q)) head in
        (
          _,
          receive k j ℓ rest s.0 s.1 lk lj (λ q. ne (sym q)) (not_cleared k (outside k lk)) head
              treated,
          refl,
        )
    | inr quiet ↦
        elim (earliest (λ k. waiting_in (c.phase k)) (λ k. (c.node k).our_sequence_number) n) [
          | inl (k, h) ↦ (
            _,
            pass k h.below (waits_on ok (c.phase k) h.chosen (outside k h.below)) (
                granted-can_enter (c.node k) λ y ly ne.
                  all_granted_lem ok (λ x z lx lz d. quiet x lx z lz d) outside h y
                    (rw (sym (ok.nodes k h.below).size) ly)
                    (λ q. ne (sym q ∙ sym (ok.nodes k h.below).me))),
            refl,
          )
          | inr none ↦ absurd (true-ne-false (sym (ap waiting_in e) ∙ none i l))
        ]
  ]
]
  where
    ok : NetOk n filename c
    ok = Reach-NetOk small plain r

    somebody_passed :
        ((k : ℕ) × (k < n) × (passed (c.phase k) ≡ true))
        ⊎ ((k : ℕ) → k < n → passed (c.phase k) ≡ false)
    somebody_passed = search_below n (λ k _. Bool-cases (passed (c.phase k)))

    something_sent :
        ((j : ℕ) × (j < n)
          × ((k : ℕ) × (k < n)
              × ((j ≢ k) × ((ℓ : Letter) × (rest : List Letter) × (c.channel j k ≡ ℓ ∷ rest)))))
        ⊎ ((j : ℕ) → j < n → (k : ℕ) → k < n → j ≢ k → c.channel j k ≡ [])
    something_sent = search_below n λ j _. search_below n λ k _. elim (==_cases j k) [
      | inl (_, q) ↦ inr (λ d. absurd (d q))
      | inr (_, d) ↦ elim (List-cases (c.channel j k)) [
        | inl q ↦ inr (λ _. q)
        | inr found ↦ inl (d, found)
      ]
    ]

    not_cleared : (k : ℕ) → passed (c.phase k) ≡ false → NotCleared (c.phase k)
    not_cleared k h q = true-ne-false (sym (ap passed q) ∙ h)
