-- ===== src/Mkw/Network/Balance.antt =====
-- What a step of one client does to the locks of an arbiter that are out: on their way, or with a client.
use distributed_mutual_exclu.Base.{
  ℕ, ◌+◌, ◌≤◌, ◌<◌, ◌≡◌, ◌≢◌, refl, sym, subst, inl, inr, List, arith, if◌then◌else◌, ◌==◌,
  ==_cases, ==_refl, sum_below, sum_below-at,
}
use distributed_mutual_exclu.Base.Int.{pos}
use distributed_mutual_exclu.Mkw.{Mkw, Send}
use distributed_mutual_exclu.Mkw.Handlers.{locks, taken}
use distributed_mutual_exclu.Mkw.Network.{Phase, Net}
use distributed_mutual_exclu.Mkw.Network.Tokens.{in_flight, holds, gives}

-- The locks of `a` that are out.
abbrev pub total : ℕ → Net → ℕ → ℕ
total n c a = in_flight (pos a) c.flight + sum_below n (λ j. holds (c.node j) (c.phase j) (pos a))

-- What counts for `a` alone.
unfoldable pub own : ℕ → ℕ → ℕ → ℕ
own i a t = if i == a then t else 0

pub own_zero : (i a : ℕ) → own i a 0 ≡ 0
unfolding own
own_zero i a = ground arith

own_self : (i a t : ℕ) → i ≡ a → own i a t ≡ t
unfolding own
own_self i a t h = ground (arith, ==_refl a)

own_other : (i a t : ℕ) → i ≢ a → own i a t ≡ 0
unfolding own
own_other i a t h = ground arith

-- What client `i` gains of the locks of `a`, it has taken from the messages treated, or it is `a` itself
-- and has given them out.
abbrev pub Balanced : ℕ → ℕ → Mkw → Phase → ℕ → Mkw → Phase → List Send → Type 0
Balanced a i s p gone s' p' out =
    own i a (locks out) + gives (pos a) out + holds s' p' (pos a) + own i a (taken s)
    ≤ gone + holds s p (pos a) + own i a (taken s')

-- Client `i` moves, everyone else stays as it is.
pub record Move (n i : ℕ) (a : ℕ) (c d : Net) (gone : ℕ) (out : List Send) : Type 0 where
  pub mover : i < n
  pub others : (j : ℕ) → j ≢ i → (d.node j ≡ c.node j) × (d.phase j ≡ c.phase j)
  pub balanced : Balanced a i (c.node i) (c.phase i) gone (d.node i) (d.phase i) out
  pub flights :
      in_flight (pos a) d.flight + gone
      ≡ in_flight (pos a) c.flight + (own i a (locks out) + gives (pos a) out)

pub Move-covers :
    (n i a : ℕ) (c d : Net) (gone : ℕ) (out : List Send)
    → Move n i a c d gone out
    → total n c a ≤ taken (c.node a)
    → total n d a ≤ taken (d.node a)
Move-covers n i a c d gone out m h =
    let sums =
      sum_below-at (λ j. holds (c.node j) (c.phase j) (pos a))
        (λ j. holds (d.node j) (d.phase j) (pos a)) n i m.mover
        (λ j l ne. rw ((m.others j ne).0, (m.others j ne).1) refl) in
    elim (==_cases i a) [
      | inl (_, e) ↦
          subst (λ z. total n d a ≤ taken (d.node z)) e
            (omega (
              arith,
              sums,
              m.flights,
              m.balanced,
              own_self i a (locks out) e,
              own_self i a (taken (c.node i)) e,
              own_self i a (taken (d.node i)) e,
              subst (λ z. total n c a ≤ taken (c.node z)) (sym e) h,
            ))
      | inr (_, ne) ↦
          subst (λ s. total n d a ≤ taken s) (sym (m.others a (λ q. ne (sym q))).0)
            (omega (
              arith,
              sums,
              m.flights,
              m.balanced,
              own_other i a (locks out) ne,
              own_other i a (taken (c.node i)) ne,
              own_other i a (taken (d.node i)) ne,
              h,
            ))
    ]
