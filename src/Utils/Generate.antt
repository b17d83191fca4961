-- ===== src/Utils/Generate.antt =====
-- src/utils.cpp, `_generateRandomInputFile`: an input file of random requests. `rand k` is the value of
-- the k-th call of `rand`, any number: the seed is the time of day.
use distributed_mutual_exclu.Base.{
  ℕ, zero, suc, ◌+◌, ◌%◌, not, List, [], ◌∷◌, ◌++◌, Option, none, some, Bytes, ◌>>=◌, length,
  get_elem?, take, eqb_bytes, codes, if◌then◌else◌, ◌≡◌, refl,
}
use distributed_mutual_exclu.Base.Int.{pos}
use distributed_mutual_exclu.Utils.Decimal.{to_string}

-- `%`; by zero it is a fault.
unfoldable pub remainder : ℕ → ℕ → Option ℕ
remainder a zero = none
remainder a (suc n) = some (a % suc n)

-- `const char* request_types[N_REQUEST_TYPE]`
abbrev pub request_types : List Bytes
request_types = codes "read" ∷ codes "write" ∷ []

-- `char request_str[100]`, one byte of which is for the zero byte
abbrev pub request_room : ℕ
request_room = 99

-- A round of the loop: what is written, and the number of the next call of `rand`.
unfoldable pub random_request : (ℕ → ℕ) → ℕ → List Bytes → ℕ → Option (Bytes × ℕ)
unfolding remainder
random_request rand k list_files n_servers = do
  request_type ← get_elem? request_types (rand k % 2)
  file_id ← remainder (rand (k + 1)) (length list_files)
  request_file ← get_elem? list_files file_id
  if not (eqb_bytes request_type (codes "read"))
      then (do
        server_id ← remainder (rand (k + 2)) n_servers
        let text = codes "read" ++ (b' ' ∷ (request_file ++ (b' ' ∷ to_string (pos server_id))))
        some (take request_room (text ++ b'\n' ∷ []), k + 3))
      else some (take request_room ((codes "write" ++ (b' ' ∷ request_file)) ++ b'\n' ∷ []), k + 2)

-- The bytes of the file behind `n_requests` rounds.
unfoldable pub random_requests : (ℕ → ℕ) → ℕ → List Bytes → ℕ → ℕ → Option Bytes
unfolding random_request
random_requests rand k list_files n_servers zero = some []
random_requests rand k list_files n_servers (suc n_requests) = do
  (request_str, next) ← random_request rand k list_files n_servers
  left ← random_requests rand next list_files n_servers n_requests
  some (request_str ++ left)

unfoldable pub generate_random_input_file : (ℕ → ℕ) → List Bytes → ℕ → ℕ → Option Bytes
unfolding random_requests
generate_random_input_file rand list_files n_requests n_servers =
    random_requests rand 0 list_files n_servers n_requests

-- A draw of "write" writes a READ, and a draw of "read" a WRITE.
generate_test :
    generate_random_input_file (λ k. k) (codes "f1" ∷ codes "f2" ∷ []) 2 3
    ≡ some (codes "write f2\nwrite f2\n")
unfolding generate_random_input_file to_string
generate_test = refl
