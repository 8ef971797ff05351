-- ===== src/Config/Tests.antt =====
-- The configuration file of the README: five processes, the fourth of which is affected by none.
use cs451_2021_project.Base.{
  ℕ, ◌+◌, ◌-◌, ◌*◌, ◌≡◌, ◌≤◌, refl, ◌&&◌, List, [], ◌∷◌, Option, none, some, length, leb, arith,
  ◌==◌, if◌then◌else◌, map,
}
use cs451_2021_project.Address.{max_processes}
use cs451_2021_project.Lcb.{CausalConfig}
use cs451_2021_project.Config.{
  parsed, number, number_and_text, TextFunctions, parse_lcausal_config, parse_lines,
}
use cs451_2021_project.Config.Lines.{
  Line, causes_of, scan_of, parse_lcausal_config_lem, parse_lines_repeats,
}

abbrev put_first : ℕ → List (List ℕ) → List (List ℕ)
put_first c [] = (c ∷ []) ∷ []
put_first c (piece ∷ pieces) = (c ∷ piece) ∷ pieces

abbrev pieces_of : List ℕ → List (List ℕ)
pieces_of [] = [] ∷ []
pieces_of (c ∷ str) =
    let pieces = pieces_of str in if c == b' ' then [] ∷ pieces else put_first c pieces

abbrev not_empty : List (List ℕ) → List (List ℕ)
not_empty [] = []
not_empty ([] ∷ pieces) = not_empty pieces
not_empty ((c ∷ piece) ∷ pieces) = (c ∷ piece) ∷ not_empty pieces

abbrev first_piece : List (List ℕ) → List ℕ
first_piece [] = []
first_piece (piece ∷ pieces) = piece

abbrev digits_from : ℕ → List ℕ → ℕ
digits_from n [] = n
digits_from n (c ∷ str) =
    let rest = digits_from (n * 10 + (c - b'0')) str in if leb b'0' c && leb c b'9' then rest else n

abbrev number_of : List ℕ → Option ℕ
number_of [] = none
number_of (c ∷ str) = if leb b'0' c && leb c b'9' then some (digits_from 0 (c ∷ str)) else none

abbrev pub text : TextFunctions
text = record {
  tokens = λ str. not_empty (pieces_of str);
  left_over = λ str. b' ' ∷ first_piece (not_empty (pieces_of str));
  read_uint = number_of;
}

abbrev pub initial : CausalConfig
initial = record { process_id = 1; n_messages = 0; causal = λ _. [] }

abbrev line_1 : Line
line_1 = record { process_id = 1; str = b' ' ∷ b'4' ∷ b' ' ∷ b'5' ∷ []; causes = 4 ∷ 5 ∷ [] }

abbrev line_2 : Line
line_2 = record { process_id = 2; str = b' ' ∷ b'1' ∷ []; causes = 1 ∷ [] }

few_causes : (i : ℕ) → length (causes_of i (line_1 ∷ line_2 ∷ [])) ≤ max_processes
unfolding causes_of
few_causes i = ground arith

parse_lcausal_config_lem_example :
    parse_lcausal_config text 20 (number 9 ∷ map scan_of (line_1 ∷ line_2 ∷ [])) initial
    ≡ parsed (record initial { n_messages = 9; causal = λ i. causes_of i (line_1 ∷ line_2 ∷ []) })
parse_lcausal_config_lem_example =
    parse_lcausal_config_lem text 20 9 (line_1 ∷ line_2 ∷ []) initial (λ _. refl)
      ((omega arith, (refl, (refl, tt)), omega arith), ((omega arith, (refl, tt), omega arith), tt))
      few_causes

parse_lines_repeats_example :
    (c : CausalConfig) × (parse_lines text 20
        (number_and_text 3 (b' ' ∷ b'1' ∷ b' ' ∷ b'2' ∷ []) ∷ number 4 ∷ [])
        []
        initial
      ≡ parsed c)
    × (c.causal 4 ≡ 1 ∷ [])
parse_lines_repeats_example =
    parse_lines_repeats text 20 3 4 1 (b' ' ∷ b'1' ∷ b' ' ∷ b'2' ∷ []) (2 ∷ []) [] initial
      (omega arith, (refl, (refl, tt)), omega arith) (omega arith) (omega arith) (refl, tt)
      (omega arith) refl
