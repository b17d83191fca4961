-- ===== src/Ra/Invariant/Local.antt =====
-- A request and an entry of a client's main thread keep the invariant of the network.
use distributed_mutual_exclu.Base.{
  ℕ, ◌<◌, ◌≡◌, ◌≢◌, refl, sym, ap, ◌∙◌, inl, inr, false, List, [], ◌∷◌, ◌++◌, Bytes, ==_refl, ne→==,
  if◌then◌else◌, All-append, Bool-cases,
}
use distributed_mutual_exclu.Base.Int.{to_int-IsInt}
use distributed_mutual_exclu.Packet.Types.{MessageType, client_request_cs_client}
use distributed_mutual_exclu.Ra.{
  Ra, Send, message_text, granted, get_msg, request_resource, enter_critical_section,
}
use distributed_mutual_exclu.Ra.Effects.{Letter, posted, posted-request_resource}
use distributed_mutual_exclu.Ra.Network.{idle, waiting, cleared, inside, Net, update, post}
use distributed_mutual_exclu.Ra.Link.{side, Both, Letters, IsFrom}
use distributed_mutual_exclu.Ra.Link.Counts.{Letters-renumber, quiet-requests}
use distributed_mutual_exclu.Ra.Link.Moves.{Both-request, Both-enter}
use distributed_mutual_exclu.Ra.Invariant.{NodeOk, NetOk, Acts, passed, using_in}

-- What a client writes names its file and itself.
pub get_msg_lem :
    {filename : Bytes} {i : ℕ} (r : Ra)
    → r.filename ≡ filename
    → r.me ≡ i
    → get_msg r ≡ message_text filename i r.our_sequence_number
unfolding get_msg
get_msg_lem r e q = rw (e, q)

module _ {n : ℕ} {filename : Bytes} {c : Net} (ok : NetOk n filename c) (x : ℕ) (lt : x < n) where
  abbrev pub s : Ra
  s = c.node x

  module _ (y : ℕ) (l : y < n) (e : x ≢ y) where
    pub link : Both x y (side s y) (side (c.node y) x) (c.channel x y) (c.channel y x)
    link = ok.links x y lt l e

    pub y-ne-me : y ≢ s.me
    y-ne-me q = e (sym (q ∙ (ok.nodes x lt).me))

    pub y-lt-n : y < s.n
    y-lt-n = rw (ok.nodes x lt).size l

    pub post-to : (out : List Send) → post c.channel x out x y ≡ c.channel x y ++ posted y out
    post-to out = rw (==_refl x)

    pub post-from : (out : List Send) → post c.channel x out y x ≡ c.channel y x
    post-from out = rw (ne→== x y e)

  abbrev pub letter_of : MessageType → Ra → Letter
  letter_of t r = record { message_type = t; msg = get_msg r }

  request-here : c.phase x ≡ idle → NodeOk n filename x (request_resource s).0 waiting
  unfolding request_resource
  request-here e =
      let h = ok.nodes x lt in
      record {
        me = h.me;
        size = h.size;
        file = h.file;
        fits = to_int-IsInt _;
        uses = h.uses ∙ ap using_in e;
        waits = refl;
        a_size = h.a_size;
        deferred_size = h.deferred_size;
        all_held = λ q. cc;
      }

  request-linked :
      (y : ℕ)
      → y < n
      → x ≢ y
      → s.is_waiting ≡ false
      → s.is_using ≡ false
      → Both x y
          (side (request_resource s).0 y)
          (side (c.node y) x)
          (c.channel x y
            ++ (if granted s y
                then []
                else letter_of client_request_cs_client (request_resource s).0 ∷ []))
          (c.channel y x)
  unfolding request_resource
  request-linked y l e free out =
      Both-request (side s y) (side (c.node y) x) (c.channel x y) (c.channel y x) (link y l e) _ _
        refl free out

  request-from :
      c.phase x ≡ idle
      → IsFrom filename x
          (request_resource s).0.our_sequence_number
          (letter_of client_request_cs_client (request_resource s).0)
  request-from e = record {
    z = (request_resource s).0.our_sequence_number;
    fits = (request-here e).fits;
    text = get_msg_lem (request_resource s).0 (request-here e).file (request-here e).me;
    kind = inr (refl, refl);
  }

  request-sent :
      c.phase x ≡ idle
      → (y : ℕ) → y < n
      → x ≢ y
      → s.is_waiting ≡ false
      → Letters filename x (request_resource s).0.our_sequence_number (
          c.channel x y
          ++ (if granted s y
              then []
              else letter_of client_request_cs_client (request_resource s).0 ∷ []))
  request-sent p y l e free =
      All-append _ (c.channel x y) _
        (Letters-renumber filename x _ _ (c.channel x y)
          (quiet-requests (side s y) _ _ _ (link y l e) free) (ok.letters x y lt l e))
        (elim (Bool-cases (granted s y)) [ inl q ↦ rw q tt | inr q ↦ rw q (request-from p, tt) ])

  pub request-Acts :
      c.phase x ≡ idle
      → Acts n filename c x
          (request_resource s).0
          (update c.phase x waiting)
          (post c.channel x (request_resource s).1)
  request-Acts e = record {
    here = rw (==_refl x) (request-here e);
    stays = λ y ne. rw (ne→== x y ne);
    linked = λ y l ne.
        rw
          (
            post-to y l ne _,
            post-from y l ne _,
            posted-request_resource s y (y-lt-n y l ne) (y-ne-me y l ne),
          )
          (request-linked y l ne not_waiting not_using);
    sent = λ y l ne.
        rw (post-to y l ne _, posted-request_resource s y (y-lt-n y l ne) (y-ne-me y l ne))
          (request-sent e y l ne not_waiting);
    left = λ y l ne.
        rw (post-from y l ne (request_resource s).1) (ok.letters y x l lt (λ q. ne (sym q)));
    elsewhere = λ y z ny nz. rw (ne→== x y ny);
  }
    where
      not_waiting : s.is_waiting ≡ false
      not_waiting = rw ((ok.nodes x lt).waits, e)

      not_using : s.is_using ≡ false
      not_using = rw ((ok.nodes x lt).uses, e)

  enter-here : c.phase x ≡ cleared → NodeOk n filename x (enter_critical_section s) inside
  unfolding enter_critical_section
  enter-here e =
      let h = ok.nodes x lt in
      record {
        me = h.me;
        size = h.size;
        file = h.file;
        fits = h.fits;
        uses = refl;
        waits = refl;
        a_size = h.a_size;
        deferred_size = h.deferred_size;
        all_held = λ q. h.all_held (ap passed e);
      }

  enter-linked :
      (y : ℕ)
      → y < n
      → x ≢ y
      → c.phase x ≡ cleared
      → Both x y
          (side (enter_critical_section s) y)
          (side (c.node y) x)
          (c.channel x y)
          (c.channel y x)
  unfolding enter_critical_section
  enter-linked y l e q =
      Both-enter (side s y) _ _ _ (link y l e) ((ok.nodes x lt).all_held (ap passed q) y l e)

  enter-number : (enter_critical_section s).our_sequence_number ≡ s.our_sequence_number
  unfolding enter_critical_section
  enter-number = refl

  pub enter-Acts :
      c.phase x ≡ cleared
      → Acts n filename c x (enter_critical_section s) (update c.phase x inside) c.channel
  enter-Acts e = record {
    here = rw (==_refl x) (enter-here e);
    stays = λ y ne. rw (ne→== x y ne);
    linked = λ y l ne. enter-linked y l ne e;
    sent = λ y l ne. rw enter-number (ok.letters x y lt l ne);
    left = λ y l ne. ok.letters y x l lt (λ q. ne (sym q));
    elsewhere = λ y z ny nz. refl;
  }
