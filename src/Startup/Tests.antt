-- ===== src/Startup/Tests.antt =====
-- Three nodes that start in a directory without log files.
use distributed_mutual_exclu.Base.{◌≡◌, refl, ◌&&◌, List, [], ◌∷◌, none, some, arith, codes, leb}
use distributed_mutual_exclu.Base.Int.{pos}
use distributed_mutual_exclu.Node.{server_node_type, client_node_type}
use distributed_mutual_exclu.Startup.{Disk, Start, start_all, ready}
use distributed_mutual_exclu.Startup.Barrier.{started, start_all-ready}

abbrev nodes : List Start
nodes =
    record { node_type = client_node_type; id = 1; ip_addr = codes "127.0.0.1"; port = pos 9001 }
    ∷ record { node_type = server_node_type; id = 0; ip_addr = codes "127.0.0.1"; port = pos 8000 }
    ∷ record { node_type = client_node_type; id = 0; ip_addr = codes "127.0.0.1"; port = pos 9000 }
    ∷ []

abbrev empty : Disk
empty path = none

start_all-ready_example :
    (after : Disk) × (start_all (codes "logs") nodes empty ≡ some after)
    × (ready 1 2 (codes "logs") after
        ≡ (leb 2 (started client_node_type nodes) && leb 1 (started server_node_type nodes)))
start_all-ready_example =
    start_all-ready (codes "logs") nodes empty 1 2 (omega arith)
      (omega arith, (omega arith, (omega arith, tt))) (λ t. refl) (omega arith) (omega arith)
