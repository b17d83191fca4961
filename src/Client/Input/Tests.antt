-- ===== src/Client/Input/Tests.antt =====
-- Input files at concrete requests.
use distributed_mutual_exclu.Base.{
  ◌≡◌, List, [], ◌∷◌, map, some, Bytes, All, arith, codes, length, refl,
}
use distributed_mutual_exclu.Base.Int.{pos, to_int}
use distributed_mutual_exclu.Utils.Decimal.{atoi}
use distributed_mutual_exclu.Utils.Generate.{generate_random_input_file}
use distributed_mutual_exclu.Utils.Lines.{written}
use distributed_mutual_exclu.Client.Input.{
  Command, enquiry, read, write, unsupported, requests_from_input_file,
}
use distributed_mutual_exclu.Client.Input.Written.{command_text, IsCommand, requests-written}
use distributed_mutual_exclu.Client.Input.Generated.{Fits, IsDrawn, requests-generated}

file_test :
    requests_from_input_file
      (some (codes "read f1.txt 0\nenquiry 2\n\nwrite f2.txt\nlist\nread f3\n"))
    ≡ some (
        read (codes "f1.txt") (pos 0)
        ∷ enquiry (pos 2)
        ∷ write (codes "f2.txt")
        ∷ unsupported (codes "list")
        ∷ read (codes "f3") (pos 2)
        ∷ [])
unfolding requests_from_input_file atoi to_int
file_test = refl

abbrev three_commands : List Command
three_commands = read (codes "f1.txt") (pos 2) ∷ write (codes "f2") ∷ enquiry (pos 0) ∷ []

three_commands-IsCommand : All IsCommand three_commands
three_commands-IsCommand = ground arith

requests-written_example :
    requests_from_input_file (some (written (map command_text three_commands)))
    ≡ some three_commands
requests-written_example = requests-written three_commands three_commands-IsCommand

abbrev two_files : List Bytes
two_files = codes "f1.txt" ∷ codes "f2" ∷ []

two_files-Fits : All Fits two_files
two_files-Fits = ground arith

requests-generated_example :
    (s : Bytes) × (commands : List Command) × (generate_random_input_file (λ k. k) two_files 4 3
      ≡ some s)
    × (requests_from_input_file (some s) ≡ some commands)
    × (length commands ≡ 4)
    × All (IsDrawn two_files 3) commands
requests-generated_example =
    requests-generated (λ k. k) two_files 3 two_files-Fits (omega arith) (omega arith) (omega arith)
      4
