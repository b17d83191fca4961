-- ===== src/Client/Dispatch.antt =====
-- How a client's files come to the objects of the algorithm.
use distributed_mutual_exclu.Base.{
  Bool, All-map, ◌≡◌, ◌≢◌, refl, true, false, List, [], ◌∷◌, Option, none, some, Bytes, Lacks, All,
  eqb_bytes, eqb_bytes_refl, eqb_bytes→eq,
}
use distributed_mutual_exclu.Base.Int.{ℤ}
use distributed_mutual_exclu.Packet.Types.{Packet, server_reply_enquiry_client}
use distributed_mutual_exclu.Ra
use distributed_mutual_exclu.Ra.{Ra}
use distributed_mutual_exclu.Client.{
  Client, Strategy, ra, ra_critical_section_alg, strategies, init_critical_section_alg,
}
use distributed_mutual_exclu.Client.Service.{receive_enquire_result, enquiry_results}
use distributed_mutual_exclu.Server.{response}
use distributed_mutual_exclu.Server.Storage.{split_string-response}

module _ (make : Bytes → Strategy) (old : Bytes → Option Strategy) where
  strategies-made : (fs : List Bytes) → All (λ f. strategies make old fs f ≡ some (make f)) fs
  unfolding strategies
  strategies-made [] = tt
  strategies-made (g ∷ fs) = (
    rw (eqb_bytes_refl g) refl,
    All-map fs (λ f. later f (eqb_bytes f g) refl) (strategies-made fs),
  )
    where
      later :
          (f : Bytes) (b : Bool)
          → eqb_bytes f g ≡ b
          → strategies make old fs f ≡ some (make f)
          → strategies make old (g ∷ fs) f ≡ some (make f)
      later f true e h = rw (e, eqb_bytes→eq f g e) refl
      later f false e h = rw e h

abbrev pub Yields : Option Client → (Client → Type 0) → Type 0
Yields none P = ⊥
Yields (some s) P = P s

-- The first answer to an enquiry gives a client of Ricart-Agrawala the server's files, and each file a new
-- object of the algorithm; a later answer changes the list and leaves the objects as they are; if the
-- names in the answer are not empty and have no '#'.
pub receive_enquire_result-objects :
    (s : Client) (quorums : List (List ℤ)) (is_locked : Bool) (p : Packet) (fs : List Bytes)
    → s.critical_section_alg_type ≡ ra_critical_section_alg
    → p.message_type ≡ server_reply_enquiry_client
    → p.msg ≡ response fs
    → All (λ f. Lacks b'#' f × (f ≢ [])) fs
    → (s.critical_section_alg_init ≡ false
        → Yields (receive_enquire_result s quorums is_locked p) (λ s'.
          (s'.list_files ≡ fs)
          × (s'.critical_section_alg_init ≡ true)
          × (s'.server_done_enquiry_request ≡ true)
          × All
              (λ f.
                s'.critical_section_alg_strategy f
                ≡ some (ra (Ra.init s.node.id s.node.n_clients f)))
              fs))
      × (s.critical_section_alg_init ≡ true
          → Yields (receive_enquire_result s quorums is_locked p) (λ s'.
            (s'.list_files ≡ fs)
            × (s'.server_done_enquiry_request ≡ true)
            × (s'.critical_section_alg_strategy ≡ s.critical_section_alg_strategy)))
unfolding receive_enquire_result enquiry_results init_critical_section_alg
receive_enquire_result-objects s quorums is_locked p fs alg type e names =
    let files : enquiry_results p ≡ fs =
      rw (enquiry_results, type, e) (split_string-response fs names) in
    (
      (λ h.
          simp (h, alg)
            (
              files,
              refl,
              refl,
              rw files (
                  strategies-made (λ f. ra (Ra.init s.node.id s.node.n_clients f))
                    s.critical_section_alg_strategy fs),
            )),
      (λ h. simp (h) (files, refl, refl)),
    )
