-- ===== src/Client/Input/Generated.antt =====
-- Input files that the client has generated: how many requests they make, and which.
use distributed_mutual_exclu.Base.{
  ℕ, zero, suc, ◌+◌, ◌%◌, ◌≤◌, ◌<◌, ◌^◌, ◌≡◌, refl, ap, inl, inr, List, [], ◌∷◌, ◌++◌, append_assoc,
  map, some, Bytes, All, arith, length, length-append, get_elem?, take, ==_cases,
}
use distributed_mutual_exclu.Base.Int.{pos}
use distributed_mutual_exclu.Utils.Decimal.{to_string}
use distributed_mutual_exclu.Utils.Decimal.Size.{length-to_string}
use distributed_mutual_exclu.Utils.Generate.{
  remainder, random_request, random_requests, generate_random_input_file,
}
use distributed_mutual_exclu.Utils.Lines.{written}
use distributed_mutual_exclu.Client.Input.{Command, read, write, requests_from_input_file}
use distributed_mutual_exclu.Client.Input.Written.{
  command_text, IsCommand, IsName, requests-written,
}

-- A READ of a file of the list at a server, or a WRITE of such a file.
abbrev pub IsDrawn : List Bytes → ℕ → Command → Type 0
IsDrawn files n_servers (read filename (pos id)) =
    ((i : ℕ) × (get_elem? files i ≡ some filename)) × (id < n_servers)
IsDrawn files n_servers (write filename) = (i : ℕ) × (get_elem? files i ≡ some filename)
IsDrawn files n_servers _ = ⊥

take_all {ℓ} : {A : Type ℓ} (n : ℕ) (xs : List A) → length xs ≤ n → take n xs ≡ xs
take_all zero [] h = refl
take_all zero (x ∷ xs) h = absurd (omega arith)
take_all (suc n) [] h = refl
take_all (suc n) (x ∷ xs) h = ap (◌∷◌ x) (take_all n xs (omega arith))

get_elem?-All {ℓ κ} :
    {A : Type ℓ} (P : A → Type κ) (xs : List A) (i : ℕ)
    → All P xs
    → i < length xs
    → (x : A) × (get_elem? xs i ≡ some x) × P x
get_elem?-All P [] i a h = absurd (omega arith)
get_elem?-All P (x ∷ xs) zero (p, a) h = (x, refl, p)
get_elem?-All P (x ∷ xs) (suc i) (p, a) h = get_elem?-All P xs i a (omega arith)

remainder-some : (a n : ℕ) → 0 < n → (r : ℕ) × (remainder a n ≡ some r) × (r < n)
unfolding remainder
remainder-some a zero h = absurd (omega arith)
remainder-some a (suc n) h = (a % suc n, refl, grind arith)

-- The names that fit a line.
abbrev pub Fits : Bytes → Type 0
Fits f = IsName f × (length f ≤ 80)

module _ (rand : ℕ → ℕ) (files : List Bytes) (n_servers : ℕ) (names : All Fits files)
    (some_file : 0 < length files) (some_server : 0 < n_servers) (few : n_servers ≤ 2 ^ 31) where
  record Drawn (k : ℕ) : Type 0 where
    command : Command
    next : ℕ
    drawn : random_request rand k files n_servers ≡ some (command_text command ++ b'\n' ∷ [], next)
    sound : IsCommand command
    listed : IsDrawn files n_servers command

  module _ (k i : ℕ) (f : Bytes) (file : remainder (rand (k + 1)) (length files) ≡ some i)
      (found : get_elem? files i ≡ some f) (fits : Fits f) where
    write_request : rand k % 2 ≡ 0 → Drawn k
    write_request e = record {
      command = write f;
      next = k + 2;
      drawn = text;
      sound = fits.0;
      listed = (i, found);
    }
      where
        text :
            random_request rand k files n_servers
            ≡ some (command_text (write f) ++ b'\n' ∷ [], k + 2)
        text =
            unfold random_request in
            rw (random_request, e, file, found)
              (ap (λ t. some (t, k + 2))
                (take_all 99 (command_text (write f) ++ b'\n' ∷ [])
                  (omega (arith, fits.1, length-append f (b'\n' ∷ [])))))

    read_request :
        (id : ℕ)
        → rand k % 2 ≡ 1
        → remainder (rand (k + 2)) n_servers ≡ some id
        → id < n_servers
        → Drawn k
    read_request id e server below = record {
      command = read f (pos id);
      next = k + 3;
      drawn = text;
      sound = (fits.0, omega arith);
      listed = ((i, found), below);
    }
      where
        text :
            random_request rand k files n_servers
            ≡ some (command_text (read f (pos id)) ++ b'\n' ∷ [], k + 3)
        text =
            unfold random_request in
            rw (random_request, e, file, found, server)
              (ap (λ t. some (t, k + 3))
                (take_all 99 (command_text (read f (pos id)) ++ b'\n' ∷ []) (
                  omega (
                    arith,
                    fits.1,
                    length-append f (b' ' ∷ to_string (pos id)),
                    length-append (f ++ (b' ' ∷ to_string (pos id))) (b'\n' ∷ []),
                    length-to_string (pos id) (omega arith),
                  ))))

  random_request-Drawn : (k : ℕ) → Drawn k
  random_request-Drawn k =
      let (i, file, li) = remainder-some (rand (k + 1)) (length files) some_file in
      let (f, found, fits) = get_elem?-All Fits files i names li in
      let (id, server, below) = remainder-some (rand (k + 2)) n_servers some_server in
      elim (==_cases (rand k % 2) 0) [
        | inl (_, e) ↦ write_request k i f file found fits e
        | inr (_, e) ↦ read_request k i f file found fits id (omega arith) server below
      ]

  -- Behind so many rounds.
  record Written (k n_requests : ℕ) : Type 0 where
    commands : List Command
    text :
        random_requests rand k files n_servers n_requests
        ≡ some (written (map command_text commands))
    count : length commands ≡ n_requests
    sound : All IsCommand commands
    listed : All (IsDrawn files n_servers) commands

  random_requests-Written : (n_requests k : ℕ) → Written k n_requests
  unfolding random_requests written
  random_requests-Written zero k = record {
    commands = [];
    text = refl;
    count = refl;
    sound = tt;
    listed = tt;
  }
  random_requests-Written (suc n) k =
      let d = random_request-Drawn k in
      let rest = random_requests-Written n d.next in
      record {
        commands = d.command ∷ rest.commands;
        text =
            rw (d.drawn, rest.text)
              (ap some (
                append_assoc (command_text d.command) (b'\n' ∷ [])
                  (written (map command_text rest.commands))));
        count = ap suc rest.count;
        sound = (d.sound, rest.sound);
        listed = (d.listed, rest.listed);
      }

  -- A file of `n_requests` requests that the client has generated makes it request that many times,
  -- each time to READ a file of the list at one of the servers, or to WRITE one; for a list of names
  -- of at most 80 bytes without white space, and at least one server.
  pub requests-generated :
      (n_requests : ℕ)
      → (s : Bytes) × (commands : List Command) × (generate_random_input_file rand files n_requests
            n_servers
          ≡ some s)
        × (requests_from_input_file (some s) ≡ some commands)
        × (length commands ≡ n_requests)
        × All (IsDrawn files n_servers) commands
  unfolding generate_random_input_file
  requests-generated n_requests =
      let w = random_requests-Written n_requests 0 in
      (
        written (map command_text w.commands),
        w.commands,
        w.text,
        requests-written w.commands w.sound,
        w.count,
        w.listed,
      )
