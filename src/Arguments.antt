-- ===== src/Arguments.antt =====
-- template_cpp/src/include/parser.hpp: the arguments of the program. What `stoul` makes of a text is a parameter.
pub mod Accepted
pub mod Tests
use cs451_2021_project.Base.{
  ℕ, zero, suc, Bool, true, false, ◌&&◌, List, [], ◌∷◌, Option, none, some, length, ltb, leb, ◌==◌,
  if◌then◌else◌, not,
}

-- `strcmp` finds no difference.
abbrev pub same_text : List ℕ → List ℕ → Bool
same_text [] [] = true
same_text [] (d ∷ ds) = false
same_text (c ∷ cs) [] = false
same_text (c ∷ cs) (d ∷ ds) = (c == d) && same_text cs ds

-- `argv[i]`; the code reads arguments below `argc` only.
abbrev pub arg : List (List ℕ) → ℕ → List ℕ
arg [] i = []
arg (text ∷ argv) zero = text
arg (text ∷ argv) (suc i) = arg argv i

-- The members of `Parser` that `parse` sets, with its arguments.
pub record Parser : Type 0 where
  pub argv : List (List ℕ)
  pub with_config : Bool
  pub id : ℕ
  pub hosts_path : List ℕ
  pub output_path : List ℕ
  pub config_path : List ℕ

abbrev pub is_digit : ℕ → Bool
is_digit c = leb b'0' c && leb c b'9'

unfoldable pub all_digits : List ℕ → Bool
all_digits [] = true
all_digits (c ∷ s) = is_digit c && all_digits s

abbrev pub is_positive_number : List ℕ → Bool
is_positive_number [] = false
is_positive_number (c ∷ s) = all_digits (c ∷ s)

abbrev pub put_id : Parser → Option ℕ → Option Parser
put_id p none = none
put_id p (some id) = some (record p { id = id })

-- `none` is `false`, at which `parse` ends the process.
unfoldable pub parse_id : (List ℕ → Option ℕ) → Parser → Option Parser
parse_id stoul p =
    if ltb (length p.argv) 3
    then none
    else (if same_text (arg p.argv 1) (b'-' ∷ b'-' ∷ b'i' ∷ b'd' ∷ [])
          && is_positive_number (arg p.argv 2)
        then put_id p (stoul (arg p.argv 2))
        else none)

unfoldable pub parse_host_path : Parser → Option Parser
parse_host_path p =
    if ltb (length p.argv) 5
    then none
    else (if same_text (arg p.argv 3) (b'-' ∷ b'-' ∷ b'h' ∷ b'o' ∷ b's' ∷ b't' ∷ b's' ∷ [])
        then some (record p { hosts_path = arg p.argv 4 })
        else none)

unfoldable pub parse_output_path : Parser → Option Parser
parse_output_path p =
    if ltb (length p.argv) 7
    then none
    else (if same_text (arg p.argv 5) (b'-' ∷ b'-' ∷ b'o' ∷ b'u' ∷ b't' ∷ b'p' ∷ b'u' ∷ b't' ∷ [])
        then some (record p { output_path = arg p.argv 6 })
        else none)

unfoldable pub parse_config_path : Parser → Option Parser
parse_config_path p =
    if not p.with_config
    then some p
    else (if ltb (length p.argv) 8 then none else some (record p { config_path = arg p.argv 7 }))

abbrev pub then_parse : (Parser → Option Parser) → Option Parser → Option Parser
then_parse next none = none
then_parse next (some p) = next p

unfoldable pub parse_internal : (List ℕ → Option ℕ) → Parser → Option Parser
parse_internal stoul p =
    then_parse parse_config_path
      (then_parse parse_output_path (then_parse parse_host_path (parse_id stoul p)))
