-- ===== src/Arguments/Tests.antt =====
-- The arguments of the README's example.
use cs451_2021_project.Base.{ℕ, ◌-◌, ◌≡◌, ◌↔◌, refl, true, List, [], ◌∷◌, Option, none, some}
use cs451_2021_project.Arguments.{
  Parser, parse_internal, parse_id, parse_host_path, parse_output_path, parse_config_path,
  all_digits,
}
use cs451_2021_project.Arguments.Accepted.{IsUsage, filled, parse_internal_iff}

-- Of one digit.
abbrev pub stoul : List ℕ → Option ℕ
stoul (c ∷ []) = some (c - b'0')
stoul _ = none

abbrev pub arguments : Parser
arguments = record {
  argv =
      (b'a' ∷ [])
      ∷ (b'-' ∷ b'-' ∷ b'i' ∷ b'd' ∷ [])
      ∷ (b'2' ∷ [])
      ∷ (b'-' ∷ b'-' ∷ b'h' ∷ b'o' ∷ b's' ∷ b't' ∷ b's' ∷ [])
      ∷ (b'h' ∷ [])
      ∷ (b'-' ∷ b'-' ∷ b'o' ∷ b'u' ∷ b't' ∷ b'p' ∷ b'u' ∷ b't' ∷ [])
      ∷ (b'o' ∷ [])
      ∷ (b'c' ∷ [])
      ∷ [];
  with_config = true;
  id = 0;
  hosts_path = [];
  output_path = [];
  config_path = [];
}

parse_internal_iff_example :
    (parse_internal stoul arguments ≡ some (filled arguments 2))
    ↔ ((filled arguments 2 ≡ filled arguments 2) × IsUsage stoul arguments.argv 2)
parse_internal_iff_example = parse_internal_iff stoul arguments (filled arguments 2) refl

-- They are accepted.
pub parsed_arguments : parse_internal stoul arguments ≡ some (filled arguments 2)
unfolding parse_internal parse_id parse_host_path parse_output_path parse_config_path all_digits
parsed_arguments = refl
