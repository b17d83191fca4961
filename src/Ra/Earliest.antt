-- ===== src/Ra/Earliest.antt =====
-- Searches among the clients below a number, and the one of them that goes before all others.
use distributed_mutual_exclu.Base.{
  ℕ, zero, suc, ◌<◌, ◌≡◌, ◌⊎◌, inl, inr, Bool, true, false, arith, ==_cases, Bool-cases, subst, sym,
}
use distributed_mutual_exclu.Base.Int.{ℤ}
use distributed_mutual_exclu.Ra.Link.{goes_first}

-- One that satisfies the first, or all satisfy the second.
pub search_below :
    {P Q : ℕ → Type 0} (n : ℕ)
    → ((i : ℕ) → i < n → P i ⊎ Q i)
    → ((i : ℕ) × (i < n) × P i) ⊎ ((i : ℕ) → i < n → Q i)
search_below zero test = inr (λ i h. absurd (omega arith))
search_below {P} {Q} (suc n) test =
    elim (search_below {P = P} {Q = Q} n (λ i h. test i (omega arith))) [
      | inl (i, h, p) ↦ inl (i, omega arith, p)
      | inr all ↦ elim (test n (omega arith)) [
        | inl p ↦ inl (n, omega arith, p)
        | inr q ↦ inr λ i h. elim (==_cases n i) [
          | inl (b, e) ↦ subst Q e q
          | inr (b, e) ↦ all i (omega arith)
        ]
      ]
    ]

goes_first_irrefl : (i : ℕ) (z : ℤ) → goes_first i z i z ≡ false
goes_first_irrefl i z = ground arith

goes_first_trans :
    (i j k : ℕ) (x y z : ℤ)
    → goes_first i x j y ≡ true
    → goes_first k z j y ≡ false
    → goes_first k z i x ≡ false
goes_first_trans i j k x y z h g = ground arith

-- Of the clients below `n` that satisfy `p`, one goes before all others, if there is one.
pub record Earliest (n : ℕ) (p : ℕ → Bool) (z : ℕ → ℤ) (i : ℕ) : Type 0 where
  pub below : i < n
  pub chosen : p i ≡ true
  pub first : (k : ℕ) → k < n → p k ≡ true → goes_first k (z k) i (z i) ≡ false

module _ (p : ℕ → Bool) (z : ℕ → ℤ) where
  Earliest-step : (n i : ℕ) → Earliest n p z i → p n ≡ true → (k : ℕ) × Earliest (suc n) p z k
  Earliest-step n i h q = elim (Bool-cases (goes_first n (z n) i (z i))) [
    | inl b ↦ (
      n,
      record {
        below = omega arith;
        chosen = q;
        first = λ k l pk. elim (==_cases n k) [
          | inl (_, e) ↦
              subst (λ m. goes_first m (z m) n (z n) ≡ false) e (goes_first_irrefl n (z n))
          | inr (_, e) ↦ goes_first_trans n i k (z n) (z i) (z k) b (h.first k (omega arith) pk)
        ];
      },
    )
    | inr b ↦ (
      i,
      record {
        below = omega (arith, h.below);
        chosen = h.chosen;
        first = λ k l pk. elim (==_cases n k) [
          | inl (_, e) ↦ subst (λ m. goes_first m (z m) i (z i) ≡ false) e b
          | inr (_, e) ↦ h.first k (omega arith) pk
        ];
      },
    )
  ]

  pub earliest : (n : ℕ) → ((i : ℕ) × Earliest n p z i) ⊎ ((i : ℕ) → i < n → p i ≡ false)
  earliest zero = inr (λ i h. absurd (omega arith))
  earliest (suc n) = elim (earliest n) [
    | inl (i, h) ↦ elim (Bool-cases (p n)) [
      | inl q ↦ inl (Earliest-step n i h q)
      | inr q ↦ inl (
        i,
        record {
          below = omega (arith, h.below);
          chosen = h.chosen;
          first = λ k l pk. elim (==_cases n k) [
            | inl (_, e) ↦
                absurd (let c : p n ≡ true = subst (λ m. p m ≡ true) (sym e) pk in ground arith)
            | inr (_, e) ↦ h.first k (omega arith) pk
          ];
        },
      )
    ]
    | inr none ↦ elim (Bool-cases (p n)) [
      | inl q ↦ inl (
        n,
        record {
          below = omega arith;
          chosen = q;
          first = λ k l pk. elim (==_cases n k) [
            | inl (_, e) ↦
                subst (λ m. goes_first m (z m) n (z n) ≡ false) e (goes_first_irrefl n (z n))
            | inr (_, e) ↦ absurd (let c : p k ≡ false = none k (omega arith) in ground arith)
          ];
        },
      )
      | inr q ↦ inr λ i h. elim (==_cases n i) [
        | inl (_, e) ↦ subst (λ m. p m ≡ false) e q
        | inr (_, e) ↦ none i (omega arith)
      ]
    ]
  ]
