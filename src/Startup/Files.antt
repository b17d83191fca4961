-- ===== src/Startup/Files.antt =====
-- The files that the start of a node makes: its own log, and a line more in the one of its kind.
use distributed_mutual_exclu.Base.{
  ℕ, ◌≤◌, ◌<◌, ◌^◌, ◌≡◌, inl, inr, refl, sym, ap, ◌∙◌, true, false, [], ◌∷◌, ◌++◌, Option, some,
  Bytes, ◌>>=◌, codes, arith, length, length-append, ltb, eqb_bytes, eqb_bytes_refl, if◌then◌else◌,
  ==_refl, Bool-cases,
}
use distributed_mutual_exclu.Base.Int.{pos}
use distributed_mutual_exclu.Utils.Decimal.{to_string}
use distributed_mutual_exclu.Utils.Decimal.Size.{length-to_string}
use distributed_mutual_exclu.Node.{NodeType, server_node_type, client_node_type, eqb_node_type}
use distributed_mutual_exclu.Logger.{
  truncate, append, opened, put_file, set_logger, write_log, max_filename_length,
}
use distributed_mutual_exclu.Startup.{
  Disk, Start, own_log, shared_log, start_line, init_logger, start,
}

eqb_bytes-append : (p a b : Bytes) → eqb_bytes (p ++ a) (p ++ b) ≡ eqb_bytes a b
eqb_bytes-append [] a b = refl
eqb_bytes-append (c ∷ p) a b = ground (arith, ==_refl c, eqb_bytes-append p a b)

-- The files of the nodes are different ones.
shared-own :
    (logdir : Bytes) (t u : NodeType) (id : ℕ)
    → eqb_bytes (logdir ++ shared_log t) (logdir ++ own_log u id) ≡ false
shared-own logdir client_node_type client_node_type id = eqb_bytes-append logdir _ _
shared-own logdir client_node_type server_node_type id = eqb_bytes-append logdir _ _
shared-own logdir server_node_type client_node_type id = eqb_bytes-append logdir _ _
shared-own logdir server_node_type server_node_type id = eqb_bytes-append logdir _ _

shared-shared :
    (logdir : Bytes) (t u : NodeType)
    → eqb_bytes (logdir ++ shared_log t) (logdir ++ shared_log u) ≡ eqb_node_type t u
shared-shared logdir client_node_type client_node_type = eqb_bytes-append logdir _ _
shared-shared logdir client_node_type server_node_type = eqb_bytes-append logdir _ _
shared-shared logdir server_node_type client_node_type = eqb_bytes-append logdir _ _
shared-shared logdir server_node_type server_node_type = eqb_bytes-append logdir _ _

own_log-short : (t : NodeType) (id : ℕ) → id < 2 ^ 31 → length (own_log t id) ≤ 23
own_log-short client_node_type id l =
    omega (arith, length-append (to_string (pos id)) (codes ".txt"), length-to_string (pos id) l)
own_log-short server_node_type id l =
    omega (arith, length-append (to_string (pos id)) (codes ".txt"), length-to_string (pos id) l)

shared_log-short : (t : NodeType) → length (shared_log t) ≤ 23
shared_log-short client_node_type = omega arith
shared_log-short server_node_type = omega arith

set_logger-sets :
    (logdir name : Bytes) (m : _) (d : Disk)
    → length logdir ≤ 200
    → length name ≤ 23
    → set_logger (logdir ++ name) m d
      ≡ some (
        record { filename = logdir ++ name },
        put_file d (logdir ++ name) (opened m (d (logdir ++ name))),
      )
unfolding set_logger
set_logger-sets logdir name m d l k =
    let fits : ltb (length (logdir ++ name)) max_filename_length ≡ true =
      ground (arith, length-append logdir name) in
    rw fits refl

-- What a start leaves in the shared file of a kind of nodes.
pub record Started (logdir : Bytes) (n : Start) (d : Disk) (r : Option Disk) : Type 0 where
  pub after : Disk
  pub returns : r ≡ some after
  pub shared :
      (t : NodeType)
      → after (logdir ++ shared_log t) ≡ (
          if eqb_node_type t n.node_type
          then some (opened append (d (logdir ++ shared_log t)) ++ (start_line n.id ++ b'\n' ∷ []))
          else d (logdir ++ shared_log t))

-- The writes of a start, for any two different files.
module _ (own common text line : Bytes) (d : Disk) where
  abbrev d1 : Disk
  d1 = put_file d own []

  abbrev d2 : Disk
  d2 = put_file d1 common (opened append (d1 common))

  abbrev last : Disk
  last =
      write_log (record { filename = common }) line (write_log (record { filename = own }) text d2)

  last-at :
      (path : Bytes)
      → eqb_bytes path own ≡ false
      → eqb_bytes common own ≡ false
      → last path
        ≡ (if eqb_bytes path common then some (opened append (d common) ++ line) else d path)
  unfolding write_log
  last-at path h k = elim (Bool-cases (eqb_bytes path common)) [
    | inl e ↦ rw e (rw (write_log, k, eqb_bytes_refl common) refl)
    | inr e ↦ rw e (rw (write_log, h) refl)
  ]

module _ (logdir : Bytes) (n : Start) (d : Disk) where
  abbrev listener : Bytes
  listener =
      codes "Listener at "
      ++ (n.ip_addr ++ (codes " on port " ++ (to_string n.port ++ codes " \n")))

  abbrev after_start : Disk
  after_start =
      last (logdir ++ own_log n.node_type n.id) (logdir ++ shared_log n.node_type) listener
        (start_line n.id ++ b'\n' ∷ []) d

  same_type : (t u : NodeType) → eqb_node_type t u ≡ true → t ≡ u
  same_type client_node_type client_node_type h = refl
  same_type server_node_type server_node_type h = refl
  same_type client_node_type server_node_type h = cc
  same_type server_node_type client_node_type h = cc

  after_start-shared :
      (t : NodeType)
      → after_start (logdir ++ shared_log t) ≡ (
          if eqb_node_type t n.node_type
          then some (opened append (d (logdir ++ shared_log t)) ++ (start_line n.id ++ b'\n' ∷ []))
          else d (logdir ++ shared_log t))
  after_start-shared t =
      last-at (logdir ++ own_log n.node_type n.id) (logdir ++ shared_log n.node_type) listener
        (start_line n.id ++ b'\n' ∷ []) d (logdir ++ shared_log t)
        (shared-own logdir t n.node_type n.id) (shared-own logdir n.node_type n.node_type n.id)
      ∙ rw (shared-shared logdir t n.node_type) (elim (Bool-cases (eqb_node_type t n.node_type)) [
        | inl e ↦
            ap
              (λ u.
                if eqb_node_type t n.node_type
                then some
                    (opened append (d (logdir ++ shared_log u)) ++ (start_line n.id ++ b'\n' ∷ []))
                else d (logdir ++ shared_log t))
              (sym (same_type t n.node_type e))
        | inr e ↦ rw e refl
      ])

  pub start-Started : length logdir ≤ 200 → n.id < 2 ^ 31 → Started logdir n d (start logdir n d)
  unfolding start init_logger
  start-Started l k = record {
    after = after_start;
    returns =
        rw
          (
            set_logger-sets logdir (own_log n.node_type n.id) truncate d l
                (own_log-short n.node_type n.id k),
            ◌>>=◌,
          )
          (rw
            (
              set_logger-sets logdir (shared_log n.node_type) append
                  (d1 (logdir ++ own_log n.node_type n.id) (logdir ++ shared_log n.node_type)
                    listener [] d)
                  l (shared_log-short n.node_type),
              ◌>>=◌,
            )
            refl);
    shared = after_start-shared;
  }
