-- ===== src/Ra/Invariant.antt =====
-- The invariant of the whole network: each client agrees with the phase of its main thread, each
-- pair of clients is linked, and each channel holds letters of its sender.

pub mod Local
pub mod Release
pub mod Treat
pub mod Messages
pub mod Steps
use distributed_mutual_exclu.Base.{
  ℕ, ◌<◌, ◌≡◌, ◌≢◌, sym, ◌∙◌, subst, inl, inr, Bool, true, false, List, Bytes, ==_cases, ==_refl,
  ne→==, length,
}
use distributed_mutual_exclu.Base.Int.{IsInt}
use distributed_mutual_exclu.Ra.{Ra, granted}
use distributed_mutual_exclu.Ra.Effects.{Letter}
use distributed_mutual_exclu.Ra.Network.{Phase, waiting, cleared, inside, Net, update}
use distributed_mutual_exclu.Ra.Link.{side, Both, Letters}

abbrev pub using_in : Phase → Bool
using_in inside = true
using_in _ = false

abbrev pub waiting_in : Phase → Bool
waiting_in waiting = true
waiting_in cleared = true
waiting_in _ = false

-- The phases behind the loop that waits.
abbrev pub passed : Phase → Bool
passed cleared = true
passed inside = true
passed _ = false

pub record NodeOk (n : ℕ) (filename : Bytes) (i : ℕ) (s : Ra) (p : Phase) : Type 0 where
  pub me : s.me ≡ i
  pub size : s.n ≡ n
  pub file : s.filename ≡ filename
  pub fits : IsInt s.our_sequence_number
  pub uses : s.is_using ≡ using_in p
  pub waits : s.is_waiting ≡ waiting_in p
  pub a_size : length s.a ≡ n
  pub deferred_size : length s.reply_deferred ≡ n
  pub all_held : passed p ≡ true → (y : ℕ) → y < n → i ≢ y → granted s y ≡ true

pub record NetOk (n : ℕ) (filename : Bytes) (c : Net) : Type 0 where
  pub nodes : (i : ℕ) → i < n → NodeOk n filename i (c.node i) (c.phase i)
  pub links :
      (i j : ℕ)
      → i < n
      → j < n
      → i ≢ j
      → Both i j (side (c.node i) j) (side (c.node j) i) (c.channel i j) (c.channel j i)
  pub letters :
      (i j : ℕ)
      → i < n
      → j < n
      → i ≢ j
      → Letters filename i (c.node i).our_sequence_number (c.channel i j)

-- What a step of client `x` has to show: its new object `s`, with the phases and channels behind
-- the step.
pub record Acts (n : ℕ) (filename : Bytes) (c : Net) (x : ℕ) (s : Ra) (phase : ℕ → Phase)
    (channel : ℕ → ℕ → List Letter) : Type 0 where
  pub here : NodeOk n filename x s (phase x)
  pub stays : (y : ℕ) → x ≢ y → phase y ≡ c.phase y
  pub linked :
      (y : ℕ) → y < n → x ≢ y → Both x y (side s y) (side (c.node y) x) (channel x y) (channel y x)
  pub sent : (y : ℕ) → y < n → x ≢ y → Letters filename x s.our_sequence_number (channel x y)
  pub left :
      (y : ℕ) → y < n → x ≢ y → Letters filename y (c.node y).our_sequence_number (channel y x)
  pub elsewhere : (y z : ℕ) → x ≢ y → x ≢ z → channel y z ≡ c.channel y z

module _ {n : ℕ} {filename : Bytes} {c : Net} (ok : NetOk n filename c) (x : ℕ) (lt : x < n)
    (s : Ra) (phase : ℕ → Phase) (channel : ℕ → ℕ → List Letter)
    (acts : Acts n filename c x s phase channel) where
  abbrev after : Net
  after = record { node = update c.node x s; phase = phase; channel = channel }

  node-here : update c.node x s x ≡ s
  node-here = rw (==_refl x)

  node-other : (y : ℕ) → x ≢ y → update c.node x s y ≡ c.node y
  node-other y e = rw (ne→== x y e)

  after-nodes : (i : ℕ) → i < n → NodeOk n filename i (after.node i) (phase i)
  after-nodes i l = elim (==_cases x i) [
    | inl (b, e) ↦ rw b (subst (λ k. NodeOk n filename k s (phase k)) e acts.here)
    | inr (b, e) ↦ rw (b, acts.stays i e) (ok.nodes i l)
  ]

  link-here :
      (j : ℕ)
      → j < n
      → x ≢ j
      → Both x j (side (after.node x) j) (side (after.node j) x) (channel x j) (channel j x)
  link-here j l e = rw (==_refl x, ne→== x j e) (acts.linked j l e)

  after-links :
      (i j : ℕ)
      → i < n
      → j < n
      → i ≢ j
      → Both i j (side (after.node i) j) (side (after.node j) i) (channel i j) (channel j i)
  after-links i j li lj e = elim (==_cases x i) [
    | inl (b, p) ↦
        subst
          (λ k.
            Both k j (side (after.node k) j) (side (after.node j) k) (channel k j) (channel j k))
          p (link-here j lj (λ q. e (sym p ∙ q)))
    | inr (b, p) ↦ elim (==_cases x j) [
      | inl (b', q) ↦
          let both = link-here i li p in
          subst
            (λ k.
              Both i k (side (after.node i) k) (side (after.node k) i) (channel i k) (channel k i))
            q (both.1, both.0)
      | inr (b', q) ↦
          rw (b, b', acts.elsewhere i j p q, acts.elsewhere j i q p) (ok.links i j li lj e)
    ]
  ]

  after-Letters :
      (i j : ℕ)
      → i < n
      → j < n
      → i ≢ j
      → Letters filename i (after.node i).our_sequence_number (channel i j)
  after-Letters i j li lj e = elim (==_cases x i) [
    | inl (b, p) ↦ rw b (
        subst (λ k. Letters filename k s.our_sequence_number (channel k j)) p
          (acts.sent j lj (λ q. e (sym p ∙ q))))
    | inr (b, p) ↦ elim (==_cases x j) [
      | inl (b', q) ↦ rw b (
          subst (λ k. Letters filename i (c.node i).our_sequence_number (channel i k)) q
            (acts.left i li p))
      | inr (b', q) ↦ rw (b, acts.elsewhere i j p q) (ok.letters i j li lj e)
    ]
  ]

  pub Acts-NetOk : NetOk n filename after
  Acts-NetOk = record { nodes = after-nodes; links = after-links; letters = after-Letters }
