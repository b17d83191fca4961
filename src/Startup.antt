-- ===== src/Startup.antt =====
-- The start of the nodes: `Node::start` of src/node/node.cpp with `initLogger` of clients and servers, and
-- the barrier at the head of `Client::run`, which counts the lines of the log files that the nodes of a
-- kind share. (The sockets of `startServerSocket` are not modelled. `snprintf` has room for more than the
-- names that a logger takes.)
pub mod Files
pub mod Barrier
mod Tests
use distributed_mutual_exclu.Base.{
  ℕ, Bool, not, ◌&&◌, List, [], ◌∷◌, ◌++◌, Option, some, Bytes, ◌>>=◌, codes,
}
use distributed_mutual_exclu.Base.Int.{ℤ, pos, ltb_ℤ}
use distributed_mutual_exclu.Utils.Decimal.{to_string}
use distributed_mutual_exclu.Utils.Files.{count_line}
use distributed_mutual_exclu.Node.{NodeType, server_node_type, client_node_type}
use distributed_mutual_exclu.Logger.{Logger, truncate, append, set_logger, write_log}

abbrev pub Disk : Type 0
Disk = Bytes → Option Bytes

-- What a node is started with.
pub record Start : Type 0 where
  pub node_type : NodeType
  pub id : ℕ
  pub ip_addr : Bytes
  pub port : ℤ

abbrev pub own_log : NodeType → ℕ → Bytes
own_log client_node_type id = codes "/client_" ++ (to_string (pos id) ++ codes ".txt")
own_log server_node_type id = codes "/server_" ++ (to_string (pos id) ++ codes ".txt")

abbrev pub shared_log : NodeType → Bytes
shared_log client_node_type = codes "/client.txt"
shared_log server_node_type = codes "/server.txt"

-- `initLogger`, of clients and of servers: `logger` and `logger2`.
unfoldable pub init_logger : Bytes → NodeType → ℕ → Disk → Option (Logger × Logger × Disk)
init_logger logdir node_type id disk = do
  (logger, disk1) ← set_logger (logdir ++ own_log node_type id) truncate disk
  (logger2, disk2) ← set_logger (logdir ++ shared_log node_type) append disk1
  some (logger, logger2, disk2)

-- The line that `startServerSocket` writes to `logger2`.
abbrev pub start_line : ℕ → Bytes
start_line id = codes "Node " ++ (to_string (pos id) ++ codes " starts.")

unfoldable pub start : Bytes → Start → Disk → Option Disk
unfolding init_logger
start logdir n disk = do
  (logger, logger2, disk1) ← init_logger logdir n.node_type n.id disk
  let disk2 =
      write_log logger
        (codes "Listener at "
          ++ (n.ip_addr ++ (codes " on port " ++ (to_string n.port ++ codes " \n"))))
        disk1
  some (write_log logger2 (start_line n.id ++ b'\n' ∷ []) disk2)

-- Nodes that start one after the other.
unfoldable pub start_all : Bytes → List Start → Disk → Option Disk
unfolding start
start_all logdir [] disk = some disk
start_all logdir (n ∷ ns) disk = do disk' ← start logdir n disk; start_all logdir ns disk'

-- Do the two loops at the head of `Client::run` end now?
unfoldable pub ready : ℕ → ℕ → Bytes → Disk → Bool
ready n_servers n_clients logdir disk =
    not (ltb_ℤ (count_line (disk (logdir ++ shared_log client_node_type))) (pos n_clients))
    && not (ltb_ℤ (count_line (disk (logdir ++ shared_log server_node_type))) (pos n_servers))
