-- ===== src/Ra/Invariant/Release.antt =====
-- A release of a client's main thread keeps the invariant of the network.
use distributed_mutual_exclu.Base.{
  ℕ, ◌<◌, ◌≡◌, ◌≢◌, refl, sym, ap, ◌∙◌, inl, inr, [], ◌∷◌, ◌++◌, Bytes, ==_refl, ne→==,
  if◌then◌else◌, All-append, Bool-cases,
}
use distributed_mutual_exclu.Packet.Types.{client_reply_cs_client}
use distributed_mutual_exclu.Ra.{Ra, deferred, release_resource}
use distributed_mutual_exclu.Ra.Effects.{
  Letter, release_resource-Frame, granted-release_resource, deferred-release_resource,
  posted-release_resource,
}
use distributed_mutual_exclu.Ra.Network.{idle, inside, Net, update, post}
use distributed_mutual_exclu.Ra.Link.{side, Both, Letters, IsFrom}
use distributed_mutual_exclu.Ra.Link.Moves.{Both-release}
use distributed_mutual_exclu.Ra.Invariant.{NodeOk, NetOk, Acts, passed, waiting_in}
use distributed_mutual_exclu.Ra.Invariant.Local.{
  get_msg_lem, link, y-ne-me, y-lt-n, post-to, post-from, letter_of,
}

module _ {n : ℕ} {filename : Bytes} {c : Net} (ok : NetOk n filename c) (x : ℕ) (lt : x < n) where
  abbrev s : Ra
  s = c.node x

  release-here : c.phase x ≡ inside → NodeOk n filename x (release_resource s).0 idle
  release-here e =
      let h = ok.nodes x lt in
      let f = release_resource-Frame s in
      record {
        me = f.me ∙ h.me;
        size = f.n ∙ h.size;
        file = f.filename ∙ h.file;
        fits = rw f.our h.fits;
        uses = f.is_using;
        waits = f.is_waiting ∙ h.waits ∙ ap waiting_in e;
        a_size = f.a_length ∙ h.a_size;
        deferred_size = f.deferred_length ∙ h.deferred_size;
        all_held = λ q. cc;
      }

  abbrev answer : Letter
  answer = letter_of ok x lt client_reply_cs_client (release_resource s).0

  release-linked :
      (y : ℕ)
      → y < n
      → x ≢ y
      → c.phase x ≡ inside
      → Both x y
          (side (release_resource s).0 y)
          (side (c.node y) x)
          (c.channel x y ++ (if deferred s y then answer ∷ [] else []))
          (c.channel y x)
  release-linked y l e q =
      let f = release_resource-Frame s in
      rw
        (
          granted-release_resource s y (y-lt-n ok x lt y l e) (y-ne-me ok x lt y l e),
          deferred-release_resource s y (y-lt-n ok x lt y l e) (y-ne-me ok x lt y l e),
          f.is_using,
          f.is_waiting,
          f.our,
        )
        (Both-release (side s y) _ _ _ (link ok x lt y l e) answer refl
          ((ok.nodes x lt).waits ∙ ap waiting_in q) ((ok.nodes x lt).all_held (ap passed q) y l e))

  answer-from :
      c.phase x ≡ inside → IsFrom filename x (release_resource s).0.our_sequence_number answer
  answer-from e = record {
    z = (release_resource s).0.our_sequence_number;
    fits = (release-here e).fits;
    text = get_msg_lem (release_resource s).0 (release-here e).file (release-here e).me;
    kind = inl refl;
  }

  release-sent :
      (y : ℕ)
      → y < n
      → x ≢ y
      → c.phase x ≡ inside
      → Letters filename x
          (release_resource s).0.our_sequence_number
          (c.channel x y ++ (if deferred s y then answer ∷ [] else []))
  release-sent y l e q =
      All-append _ (c.channel x y) _ (rw (release_resource-Frame s).our (ok.letters x y lt l e))
        (elim (Bool-cases (deferred s y)) [ inl b ↦ rw b (answer-from q, tt) | inr b ↦ rw b tt ])

  pub release-Acts :
      c.phase x ≡ inside
      → Acts n filename c x
          (release_resource s).0
          (update c.phase x idle)
          (post c.channel x (release_resource s).1)
  release-Acts e = record {
    here = rw (==_refl x) (release-here e);
    stays = λ y ne. rw (ne→== x y ne);
    linked = λ y l ne.
        rw
          (
            post-to ok x lt y l ne _,
            post-from ok x lt y l ne _,
            posted-release_resource s y (y-lt-n ok x lt y l ne) (y-ne-me ok x lt y l ne),
          )
          (release-linked y l ne e);
    sent = λ y l ne.
        rw
          (
            post-to ok x lt y l ne _,
            posted-release_resource s y (y-lt-n ok x lt y l ne) (y-ne-me ok x lt y l ne),
          )
          (release-sent y l ne e);
    left = λ y l ne.
        rw (post-from ok x lt y l ne (release_resource s).1)
          (ok.letters y x l lt (λ q. ne (sym q)));
    elsewhere = λ y z ny nz. rw (ne→== x y ny);
  }
