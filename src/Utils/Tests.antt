-- ===== src/Utils/Tests.antt =====
-- The theorems about conversions, texts and files at concrete values.
use distributed_mutual_exclu.Base.{
  ◌≡◌, refl, List, map, [], ◌∷◌, ◌++◌, some, Bytes, map, All, arith, codes,
}
use distributed_mutual_exclu.Base.Int.{ℤ, pos, negsuc}
use distributed_mutual_exclu.Utils.Decimal.{atoi, to_string, atoi-to_string}
use distributed_mutual_exclu.Utils.Files.{read_last_line_of_file, write_to_file, count_line}
use distributed_mutual_exclu.Utils.Addresses.{
  IsAddress, address_text, get_ip_addrs_and_ports_from_config, get_ip_addrs_and_ports-written,
}
use distributed_mutual_exclu.Utils.Config.{
  IsQuorum, quorum_text, get_quorums_from_config, get_quorums-written,
}
use distributed_mutual_exclu.Utils.Lines.{
  IsLine, written, last_of, count_of, read-write, read_last_line-written,
}

atoi-to_string_example : atoi (to_string (negsuc 1204)) ≡ negsuc 1204
atoi-to_string_example = atoi-to_string (negsuc 1204) (omega arith)

abbrev two_lines : List Bytes
two_lines = codes "0,3" ∷ [] ∷ codes "2,11" ∷ []

two_lines-IsLine : All IsLine two_lines
two_lines-IsLine = ground arith

read_last_line-written_example :
    (read_last_line_of_file (some (written two_lines)) ≡ some (codes "2,11"))
    × (count_line (some (written two_lines)) ≡ pos 2)
unfolding last_of count_of
read_last_line-written_example = read_last_line-written two_lines two_lines-IsLine

read-write_example :
    (read_last_line_of_file (some (write_to_file (some (written two_lines)) (codes "1,12")))
      ≡ some (codes "1,12"))
    × (count_line (some (write_to_file (some (written two_lines)) (codes "1,12"))) ≡ pos 3)
unfolding count_of
read-write_example = read-write two_lines b'1' (codes ",12") two_lines-IsLine (ground arith)

abbrev two_quorums : List (List ℤ)
two_quorums = (pos 0 ∷ pos 1 ∷ []) ∷ (pos 1 ∷ pos 12 ∷ []) ∷ []

two_quorums-IsQuorum : All IsQuorum two_quorums
unfolding quorum_text to_string
two_quorums-IsQuorum = ground arith

get_quorums-written_example :
    get_quorums_from_config (
      some (written (codes "127.0.0.1 9000" ∷ []) ++ b'\n' ∷ written (map quorum_text two_quorums)))
    ≡ some two_quorums
get_quorums-written_example =
    get_quorums-written (codes "127.0.0.1 9000" ∷ []) two_quorums (ground arith)
      two_quorums-IsQuorum

abbrev two_addresses : List (Bytes × ℤ)
two_addresses = (codes "127.0.0.1", pos 18556) ∷ (codes "10.176.69.32", pos 18557) ∷ []

two_addresses-IsAddress : All IsAddress two_addresses
unfolding to_string
two_addresses-IsAddress = ground arith

get_ip_addrs_and_ports-written_example :
    get_ip_addrs_and_ports_from_config
      (some (written (map address_text two_addresses) ++ codes "\n0 1\n"))
    ≡ some (codes "127.0.0.1" ∷ codes "10.176.69.32" ∷ [], pos 18556 ∷ pos 18557 ∷ [])
get_ip_addrs_and_ports-written_example =
    get_ip_addrs_and_ports-written two_addresses (codes "\n0 1\n") two_addresses-IsAddress refl
