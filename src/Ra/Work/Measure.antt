-- ===== src/Ra/Work/Measure.antt =====
-- A step that leaves no more to do between its client and any other leaves no more to do in all.
use distributed_mutual_exclu.Base.{
  ℕ, ◌≤◌, ◌<◌, ◌≡◌, ◌≢◌, refl, sym, ◌∙◌, subst, inl, inr, Bool, true, false, List, arith, ==_cases,
  ==_refl, ne→==, ltb, ltb→lt, Bool-cases, if◌then◌else◌, sum_below, sum_below_mono, sum_below-lt,
}
use distributed_mutual_exclu.Ra.{Ra}
use distributed_mutual_exclu.Ra.Effects.{Letter}
use distributed_mutual_exclu.Ra.Network.{Phase, Net, update}
use distributed_mutual_exclu.Ra.Link.{side}
use distributed_mutual_exclu.Ra.Work.{both_ways, between, phase_work, client_work, work}

if_le : (b : Bool) (u v : ℕ) → (b ≡ true → u ≤ v) → (if b then u else 0) ≤ (if b then v else 0)
if_le true u v h = h refl
if_le false u v h = omega arith

if_lt : (b : Bool) (u v : ℕ) → b ≡ true → u < v → (if b then u else 0) < (if b then v else 0)
if_lt true u v e h = h
if_lt false u v e h = cc

ltb_apart : (i j : ℕ) → ltb i j ≡ true → i ≢ j
ltb_apart i j b e = omega (arith, ltb→lt i j b)

between_comm : (c : Net) (i j : ℕ) → between c i j ≡ between c j i
between_comm c i j = omega arith

module _ (n : ℕ) (c : Net) (x : ℕ) (lt : x < n) (s : Ra) (phase : ℕ → Phase)
    (channel : ℕ → ℕ → List Letter) where
  abbrev after : Net
  after = record { node = update c.node x s; phase = phase; channel = channel }

  abbrev toward : ℕ → ℕ
  toward y = both_ways x y (side s y) (side (c.node y) x) (channel x y) (channel y x)

  toward_lem : (y : ℕ) → x ≢ y → between after x y ≡ toward y
  toward_lem y e = rw (==_refl x, ne→== x y e) refl

  module _ (elsewhere : (y z : ℕ) → x ≢ y → x ≢ z → channel y z ≡ c.channel y z)
      (stays : (y : ℕ) → x ≢ y → phase y ≡ c.phase y)
      (less : (y : ℕ) → y < n → x ≢ y → toward y ≤ between c x y) where
    toward_le : (y : ℕ) → y < n → x ≢ y → between after x y ≤ between c x y
    toward_le y l e = rw (toward_lem y e) (less y l e)

    between_le : (i j : ℕ) → i < n → j < n → i ≢ j → between after i j ≤ between c i j
    between_le i j li lj e = elim (==_cases x i) [
      | inl (_, p) ↦
          subst (λ k. between after k j ≤ between c k j) p (toward_le j lj (λ q. e (sym p ∙ q)))
      | inr (b, p) ↦ elim (==_cases x j) [
        | inl (_, q) ↦
            let h : between after i x ≤ between c i x =
              omega (arith, toward_le i li p, between_comm after i x, between_comm c i x) in
            subst (λ k. between after i k ≤ between c i k) q h
        | inr (b', q) ↦ rw (b, b', elsewhere i j p q, elsewhere j i q p) (omega arith)
      ]
    ]

    entry_le :
        (i j : ℕ)
        → i < n
        → j < n
        → (if ltb i j then between after i j else 0) ≤ (if ltb i j then between c i j else 0)
    entry_le i j li lj = if_le (ltb i j) _ _ (λ b. between_le i j li lj (ltb_apart i j b))

    row_le :
        (i : ℕ)
        → i < n
        → sum_below n (λ j. if ltb i j then between after i j else 0)
          ≤ sum_below n (λ j. if ltb i j then between c i j else 0)
    row_le i li = sum_below_mono _ _ n (λ j lj. entry_le i j li lj)

    module _ (phase_le : phase_work (phase x) ≤ phase_work (c.phase x)) where
      phases_le : (i : ℕ) → phase_work (phase i) ≤ phase_work (c.phase i)
      phases_le i = elim (==_cases x i) [
        | inl (_, e) ↦ subst (λ k. phase_work (phase k) ≤ phase_work (c.phase k)) e phase_le
        | inr (_, e) ↦ rw (stays i e) (omega arith)
      ]

      clients_le : (i : ℕ) → i < n → client_work n after i ≤ client_work n c i
      clients_le i l = omega (arith, phases_le i, row_le i l)

      -- Less to do with one other client.
      pub work-lt_pair :
          (j : ℕ) → j < n → x ≢ j → toward j < between c x j → work n after < work n c
      unfolding work
      work-lt_pair j lj e h = elim (Bool-cases (ltb x j)) [
        | inl b ↦ sum_below-lt _ _ n x lt clients_le (
            omega (
              arith,
              phases_le x,
              sum_below-lt (λ k. if ltb x k then between after x k else 0)
                  (λ k. if ltb x k then between c x k else 0) n j lj (λ k lk. entry_le x k lt lk)
                  (if_lt (ltb x j) _ _ b (omega (arith, toward_lem j e, h))),
            ))
        | inr b ↦ sum_below-lt _ _ n j lj clients_le (
            omega (
              arith,
              phases_le j,
              sum_below-lt (λ k. if ltb j k then between after j k else 0)
                  (λ k. if ltb j k then between c j k else 0) n x lt (λ k lk. entry_le j k lj lk)
                  (if_lt (ltb j x) _ _ (not_above b)
                    (omega (arith, toward_lem j e, h, between_comm after j x, between_comm c j x))),
            ))
      ]
        where
          not_above : ltb x j ≡ false → ltb j x ≡ true
          not_above b = ground (arith, ne→== x j e)

    -- A later phase.
    pub work-lt_phase : phase_work (phase x) < phase_work (c.phase x) → work n after < work n c
    unfolding work
    work-lt_phase h =
        sum_below-lt _ _ n x lt (clients_le (omega arith)) (omega (arith, row_le x lt))
