-- ===== src/Startup/Barrier.antt =====
-- The log files that the nodes share, and the barrier of `Client::run` of src/node/client.cpp over them.
use distributed_mutual_exclu.Base.{
  ℕ, ◌+◌, ◌≤◌, ◌<◌, ◌^◌, ◌≡◌, inl, inr, refl, sym, ap, ◌∙◌, Bool, true, false, not, ◌&&◌, List, [],
  ◌∷◌, ◌++◌, append_assoc, append-nil, Option, none, some, Bytes, ◌>>=◌, codes, All, All-append,
  arith, length, length-append, leb, if◌then◌else◌, Bool-cases,
}
use distributed_mutual_exclu.Base.Int.{pos, negsuc, ltb_ℤ}
use distributed_mutual_exclu.Utils.Decimal.{to_string, to_string-Lacks}
use distributed_mutual_exclu.Utils.Decimal.Size.{length-to_string}
use distributed_mutual_exclu.Utils.Files.{count_line}
use distributed_mutual_exclu.Utils.Lines.{
  written, IsLine, count_of, read_last_line-written, written-append,
}
use distributed_mutual_exclu.Node.{NodeType, server_node_type, client_node_type, eqb_node_type}
use distributed_mutual_exclu.Logger.{append, opened}
use distributed_mutual_exclu.Startup.{Disk, Start, shared_log, start_line, start_all, ready}
use distributed_mutual_exclu.Startup.Files.{start-Started}

-- A file with these lines, which is made with the first one.
abbrev kept : List Bytes → Option Bytes
kept [] = none
kept (l ∷ ls) = some (written (l ∷ ls))

kept-append :
    (ls : List Bytes) (l : Bytes)
    → some (opened append (kept ls) ++ (l ++ b'\n' ∷ [])) ≡ kept (ls ++ l ∷ [])
unfolding written
kept-append [] l = refl
kept-append (k ∷ ls) l =
    ap some (sym (append_assoc (written (k ∷ ls)) l (b'\n' ∷ [])) ∙ sym (written-append (k ∷ ls) l))

-- The lines of the nodes of a kind, in the order of their starts.
abbrev lines : NodeType → List Start → List Bytes
lines t [] = []
lines t (n ∷ ns) =
    let rest = lines t ns in if eqb_node_type t n.node_type then start_line n.id ∷ rest else rest

-- How many nodes of a kind are among them.
unfoldable pub started : NodeType → List Start → ℕ
started t [] = 0
started t (n ∷ ns) = (if eqb_node_type t n.node_type then 1 else 0) + started t ns

one_more :
    (b : Bool) (ls rest : List Bytes) (l : Bytes) (o : Option Bytes)
    → o ≡ kept ls
    → (if b then some (opened append o ++ (l ++ b'\n' ∷ [])) else o)
      ≡ kept (ls ++ (if b then l ∷ [] else []))
one_more true ls rest l o h = rw h (kept-append ls l)
one_more false ls rest l o h = h ∙ ap kept (sym (append-nil ls))

record AllStarted (logdir : Bytes) (ns : List Start) (ls : NodeType → List Bytes) (r : Option Disk)
    : Type 0 where
  after : Disk
  returns : r ≡ some after
  logs : (t : NodeType) → after (logdir ++ shared_log t) ≡ kept (ls t ++ lines t ns)

regroup :
    (b : Bool) (ls rest : List Bytes) (l : Bytes)
    → (ls ++ (if b then l ∷ [] else [])) ++ rest ≡ ls ++ (if b then l ∷ rest else rest)
regroup true ls rest l = append_assoc ls (l ∷ []) rest
regroup false ls rest l = append_assoc ls [] rest

start_all-AllStarted :
    (logdir : Bytes) (ns : List Start) (ls : NodeType → List Bytes) (d : Disk)
    → length logdir ≤ 200
    → All (λ n. n.id < 2 ^ 31) ns
    → ((t : NodeType) → d (logdir ++ shared_log t) ≡ kept (ls t))
    → AllStarted logdir ns ls (start_all logdir ns d)
unfolding start_all
start_all-AllStarted logdir [] ls d l a h = record {
  after = d;
  returns = refl;
  logs = λ t. h t ∙ ap kept (sym (append-nil (ls t)));
}
start_all-AllStarted logdir (n ∷ ns) ls d l (k, a) h =
    let s = start-Started logdir n d l k in
    let longer : NodeType → List Bytes =
      λ t. ls t ++ (if eqb_node_type t n.node_type then start_line n.id ∷ [] else []) in
    let r = start_all-AllStarted logdir ns longer s.after l a (λ t.
      s.shared t
      ∙ one_more (eqb_node_type t n.node_type) (ls t) [] (start_line n.id)
          (d (logdir ++ shared_log t)) (h t)) in
    record {
      after = r.after;
      returns = rw (s.returns, ◌>>=◌) r.returns;
      logs = λ t.
          r.logs t
          ∙ ap kept (regroup (eqb_node_type t n.node_type) (ls t) (lines t ns) (start_line n.id));
    }

start_line-IsLine : (id : ℕ) → id < 2 ^ 31 → IsLine (start_line id)
start_line-IsLine id l = (
  All-append _ (codes "Node ") _ (ground arith) (
      All-append _ (to_string (pos id)) _ (to_string-Lacks b'\n' (pos id) refl (λ e. omega arith))
        (ground arith)),
  All-append _ (codes "Node ") _ (ground arith) (
      All-append _ (to_string (pos id)) _ (to_string-Lacks 0 (pos id) refl (λ e. omega arith))
        (ground arith)),
  omega (arith, length-append (to_string (pos id)) (codes " starts."), length-to_string (pos id) l),
)

lines-IsLine :
    (t : NodeType) (ns : List Start) → All (λ n. n.id < 2 ^ 31) ns → All IsLine (lines t ns)
lines-IsLine t [] a = tt
lines-IsLine t (n ∷ ns) (k, a) = elim (Bool-cases (eqb_node_type t n.node_type)) [
  | inl e ↦ rw e (start_line-IsLine n.id k, lines-IsLine t ns a)
  | inr e ↦ rw e (lines-IsLine t ns a)
]

count_of-lines : (t : NodeType) (ns : List Start) → count_of (lines t ns) ≡ started t ns
unfolding count_of started
count_of-lines t [] = refl
count_of-lines t (n ∷ ns) = elim (Bool-cases (eqb_node_type t n.node_type)) [
  | inl e ↦ rw e (omega (arith, count_of-lines t ns))
  | inr e ↦ rw e (omega (arith, count_of-lines t ns))
]

not_below : (k m : ℕ) → not (ltb_ℤ (pos m) (pos k)) ≡ leb k m
not_below k m = ground arith

none_yet : (k : ℕ) → 1 ≤ k → not (ltb_ℤ (negsuc 0) (pos k)) ≡ leb k 0
none_yet k l = ground arith

missing_file : count_line none ≡ negsuc 0
unfolding count_line
missing_file = refl

counted :
    (k : ℕ) (ls : List Bytes)
    → 1 ≤ k
    → All IsLine ls
    → not (ltb_ℤ (count_line (kept ls)) (pos k)) ≡ leb k (count_of ls)
unfolding count_of
counted k [] l a = rw missing_file (none_yet k l)
counted k (x ∷ ls) l a = rw (read_last_line-written (x ∷ ls) a).1 (not_below k (count_of (x ∷ ls)))

-- After nodes (with numbers that are `int`s) have started in any order in a directory with a path of at
-- most 200 bytes, where the shared log files were missing before, the loops at the head of `Client::run`
-- end exactly if at least as many clients and as many servers are among them as the client expects, at
-- least one of each.
pub start_all-ready :
    (logdir : Bytes) (ns : List Start) (disk : Disk) (n_servers n_clients : ℕ)
    → length logdir ≤ 200
    → All (λ n. n.id < 2 ^ 31) ns
    → ((t : NodeType) → disk (logdir ++ shared_log t) ≡ none)
    → 1 ≤ n_servers
    → 1 ≤ n_clients
    → (after : Disk) × (start_all logdir ns disk ≡ some after)
      × (ready n_servers n_clients logdir after ≡ (
          leb n_clients (started client_node_type ns)
          && leb n_servers (started server_node_type ns)))
unfolding ready
start_all-ready logdir ns disk n_servers n_clients l a missing s c =
    let r = start_all-AllStarted logdir ns (λ t. []) disk l a missing in
    let count : (t : NodeType) (k : ℕ)
        → 1 ≤ k
        → not (ltb_ℤ (count_line (r.after (logdir ++ shared_log t))) (pos k))
          ≡ leb k (started t ns) =
      λ t k u.
        rw (r.logs t)
          (counted k (lines t ns) u (lines-IsLine t ns a) ∙ ap (leb k) (count_of-lines t ns)) in
    (
      r.after,
      r.returns,
      rw (count client_node_type n_clients c, count server_node_type n_servers s) refl,
    )
