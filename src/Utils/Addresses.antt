-- ===== src/Utils/Addresses.antt =====
-- src/utils.cpp, `getIpAddrsAndPortsFromConfig`: the addresses of servers or clients, from the first
-- block of lines of a configuration file. The length of the file is fuel enough, since each round reads
-- a byte at least.
use distributed_mutual_exclu.Base.{
  ℕ, zero, suc, ◌≤◌, ◌≡◌, refl, ap, ◌∙◌, List, [], ◌∷◌, ◌++◌, append_assoc, map, length-map, Option,
  none, some, Bytes, ◌>>=◌, All, arith, length, length-append, leb, if◌then◌else◌, ltb,
}
use distributed_mutual_exclu.Base.Int.{ℤ, IsInt}
use distributed_mutual_exclu.Utils.Decimal.{to_string}
use distributed_mutual_exclu.Utils.Files.{fgets, c_str}
use distributed_mutual_exclu.Utils.Lines.{written, length-written}
use distributed_mutual_exclu.Utils.Scan.{
  scan_word, scan_int, IsWord, scan_word-followed, scan_int-to_string,
}
use distributed_mutual_exclu.Utils.Config.{
  config_room, IsConfigLine, config_line, long_line, blank_line,
}

-- `sscanf(buffer, "%s %d", ip_addr, &port)`: both variables behind the call. Before they are first
-- written they are `none`, and to read them is a fault, as is a word that does not fit `ip_addr[16]`.
unfoldable pub scan_address : Bytes → Option Bytes → Option ℤ → Option (Bytes × ℤ)
unfolding scan_word scan_int
scan_address buffer ip_addr port = elim (scan_word buffer) [
  | none ↦ do ip ← ip_addr; p ← port; some (ip, p)
  | some (ip, rest) ↦ do
    p ← (elim (scan_int rest) [ none ↦ port | some z ↦ some z ])
    if ltb (length ip) 16 then some (ip, p) else none
]

-- The loop: what it pushes to `ip_addr_s` and to `port_s`.
unfoldable pub address_lines : ℕ → Bytes → Option Bytes → Option ℤ → Option (List Bytes × List ℤ)
unfolding fgets c_str scan_address
address_lines zero s ip_addr port = some ([], [])
address_lines (suc fuel) [] ip_addr port = some ([], [])
address_lines (suc fuel) (c ∷ s) ip_addr port =
    let read = fgets config_room (c ∷ s) in
    let pushed : Option (List Bytes × List ℤ) = (do
      (ip, p) ← scan_address (c_str read.0) ip_addr port
      (ip_addr_s, port_s) ← address_lines fuel read.1 (some ip) (some p)
      some (ip ∷ ip_addr_s, p ∷ port_s)) in
    if leb (length (c_str read.0)) 1 then some ([], []) else pushed

-- Without the file `fclose` gets a null pointer: a fault.
unfoldable pub get_ip_addrs_and_ports_from_config : Option Bytes → Option (List Bytes × List ℤ)
unfolding address_lines
get_ip_addrs_and_ports_from_config none = none
get_ip_addrs_and_ports_from_config (some s) = address_lines (length s) s none none

-- A line for an address.
abbrev pub address_text : Bytes × ℤ → Bytes
address_text (ip, p) = ip ++ (b' ' ∷ to_string p)

-- An address that the code reads whole.
abbrev pub IsAddress : Bytes × ℤ → Type 0
IsAddress (ip, p) = IsWord ip × (length ip ≤ 15) × IsInt p × IsConfigLine (address_text (ip, p))

-- Where the first block ends: at the end of the file, or at a blank line.
abbrev pub EndsBlock : Bytes → Type 0
EndsBlock [] = Unit {0}
EndsBlock (c ∷ s) = c ≡ b'\n'

scan_address-text :
    (ip : Bytes) (p : ℤ) (ip_addr : Option Bytes) (port : Option ℤ)
    → IsAddress (ip, p)
    → scan_address (address_text (ip, p) ++ b'\n' ∷ []) ip_addr port ≡ some (ip, p)
unfolding scan_address
scan_address-text ip p ip_addr port (w, short, fits, _) =
    rw
      (
        append_assoc ip (b' ' ∷ to_string p) (b'\n' ∷ []),
        scan_address,
        scan_word-followed ip (to_string p ++ b'\n' ∷ []) w,
        scan_int-to_string p (b'\n' ∷ []) fits refl,
      )
      (ground arith)

module _ (fuel c : ℕ) (s buffer rest : Bytes) (e : c_str (fgets config_room (c ∷ s)).0 ≡ buffer)
    (r : (fgets config_room (c ∷ s)).1 ≡ rest) where
  address_lines_round :
      (ip_addr : Option Bytes) (port : Option ℤ)
      → address_lines (suc fuel) (c ∷ s) ip_addr port ≡ (
          if leb (length buffer) 1 then some ([], []) else (do
            (ip, p) ← scan_address buffer ip_addr port
            (ip_addr_s, port_s) ← address_lines fuel rest (some ip) (some p)
            some (ip ∷ ip_addr_s, p ∷ port_s)))
  unfolding address_lines
  address_lines_round ip_addr port = rw (e, r)

address_lines_end :
    (fuel : ℕ) (tail : Bytes) (ip_addr : Option Bytes) (port : Option ℤ)
    → EndsBlock tail
    → address_lines fuel tail ip_addr port ≡ some ([], [])
unfolding address_lines
address_lines_end zero tail ip_addr port h = refl
address_lines_end (suc fuel) [] ip_addr port h = refl
address_lines_end (suc fuel) (c ∷ s) ip_addr port h =
    let b = blank_line s in
    ap (λ k. address_lines (suc fuel) (k ∷ s) ip_addr port) h
    ∙ address_lines_round fuel b'\n' s (b'\n' ∷ []) s b.0 b.1 ip_addr port

address_lines-written :
    (fuel : ℕ) (addresses : List (Bytes × ℤ)) (tail : Bytes) (ip_addr : Option Bytes)
    (port : Option ℤ)
    → length addresses ≤ fuel
    → All IsAddress addresses
    → EndsBlock tail
    → address_lines fuel (written (map address_text addresses) ++ tail) ip_addr port
      ≡ some (map (λ a. a.0) addresses, map (λ a. a.1) addresses)
unfolding written
address_lines-written fuel [] tail ip_addr port h a t = address_lines_end fuel tail ip_addr port t
address_lines-written zero (a ∷ others) tail ip_addr port h all t = absurd (omega arith)
address_lines-written (suc fuel) (([], p) ∷ others) tail ip_addr port h (a, more) t =
    absurd (a.0.1 refl)
address_lines-written (suc fuel) ((c ∷ l, p) ∷ others) tail ip_addr port h (a, more) t =
    let line = address_text (c ∷ l, p) in
    let left = written (map address_text others) ++ tail in
    let b = config_line line left a.3 in
    ap (λ (u : Bytes). address_lines (suc fuel) u ip_addr port)
      (append_assoc line (b'\n' ∷ written (map address_text others)) tail)
    ∙ address_lines_round fuel c (l ++ (b' ' ∷ to_string p) ++ b'\n' ∷ left) (line ++ b'\n' ∷ [])
        left b.0 b.1 ip_addr port
    ∙ rw (long_line c (l ++ (b' ' ∷ to_string p)), scan_address-text (c ∷ l) p ip_addr port a)
        (rw (address_lines-written fuel others tail (some (c ∷ l)) (some p) (omega arith) more t)
          refl)

-- `getIpAddrsAndPortsFromConfig` reads the addresses and ports that are written in the first block of
-- a configuration file, whatever follows behind a blank line, if each is a word of at most 15 bytes
-- with an `int` and no line is longer than the buffer.
pub get_ip_addrs_and_ports-written :
    (addresses : List (Bytes × ℤ)) (tail : Bytes)
    → All IsAddress addresses
    → EndsBlock tail
    → get_ip_addrs_and_ports_from_config (some (written (map address_text addresses) ++ tail))
      ≡ some (map (λ a. a.0) addresses, map (λ a. a.1) addresses)
unfolding get_ip_addrs_and_ports_from_config
get_ip_addrs_and_ports-written addresses tail a t =
    address_lines-written _ addresses tail none none
      (omega (
        arith,
        length-append (written (map address_text addresses)) tail,
        length-written (map address_text addresses),
        length-map addresses address_text,
      ))
      a t
