-- ===== src/Config/Lines.antt =====
-- What the lines of a configuration file of template_cpp/src/src/config_parser.c lead to.
use cs451_2021_project.Base.{
  ℕ, ◌+◌, ◌≡◌, ◌≢◌, ◌≤◌, ◌<◌, refl, sym, ap, ◌∙◌, List, [], ◌∷◌, ◌++◌, some, length, update,
  if◌then◌else◌, ◌==◌, arith, map, All, append_assoc, append-nil, length-append, fun_ext, lt→ltb,
}
use cs451_2021_project.Address.{max_processes}
use cs451_2021_project.Lcb.{CausalConfig}
use cs451_2021_project.Config.{
  parsed, Scan, number, number_and_text, TextFunctions, push_cause, populate_from, parse_lines,
  parse_lcausal_config,
}

-- A line of the file: a process, the text behind it, and the numbers in this text.
pub record Line : Type 0 where
  pub process_id : ℕ
  pub str : List ℕ
  pub causes : List ℕ

-- The causes that the lines give to process `i`, in order.
unfoldable pub causes_of : ℕ → List Line → List ℕ
causes_of i [] = []
causes_of i (line ∷ lines) =
    let rest = causes_of i lines in if line.process_id == i then line.causes ++ rest else rest

abbrev pub scan_of : Line → Scan
scan_of line = number_and_text line.process_id line.str

module _ (text : TextFunctions) where
  -- Each token is read as one of these numbers.
  abbrev pub ReadsAs : List (List ℕ) → List ℕ → Type 0
  ReadsAs [] [] = Unit
  ReadsAs [] (id ∷ ids) = ⊥
  ReadsAs (token ∷ tokens) [] = ⊥
  ReadsAs (token ∷ tokens) (id ∷ ids) = (text.read_uint token ≡ some id) × ReadsAs tokens ids

  abbrev add_causes : CausalConfig → ℕ → List ℕ → CausalConfig
  add_causes config process_id ids = record config {
    causal = update config.causal process_id (config.causal process_id ++ ids);
  }

  populate_from_lem :
      (config : CausalConfig) (process_id : ℕ) (tokens : List (List ℕ)) (last : ℕ) (ids : List ℕ)
      → ReadsAs tokens ids
      → process_id < max_processes
      → length (config.causal process_id) + length ids ≤ max_processes
      → populate_from text config process_id tokens last ≡ parsed (add_causes config process_id ids)
  unfolding populate_from
  populate_from_lem config process_id [] last [] r p l =
      ap (λ f. parsed (record config { causal = f }))
        (fun_ext λ j. ground (arith, append-nil (config.causal j)))
  populate_from_lem config process_id [] last (id ∷ ids) r p l = absurd r
  populate_from_lem config process_id (token ∷ tokens) last [] r p l = absurd r
  populate_from_lem config process_id (token ∷ tokens) last (id ∷ ids) r p l =
      let longer = length-append (config.causal process_id) (id ∷ []) in
      rw (r.0, lt→ltb _ _ p, lt→ltb (length (config.causal process_id)) max_processes (omega arith))
        (populate_from_lem (push_cause config process_id id) process_id tokens id ids r.1 p
            (ground (arith, longer))
          ∙ ap (λ f. parsed (record config { causal = f }))
              (fun_ext λ j. ground (arith, append_assoc (config.causal process_id) (id ∷ []) ids)))

  -- What is said of each line: its text fits into the buffer, its tokens are numbers, its process exists.
  abbrev pub IsGood : ℕ → Line → Type 0
  IsGood size line =
      (length line.str < size)
      × ReadsAs (text.tokens line.str) line.causes
      × (line.process_id < max_processes)

  abbrev all_causes : CausalConfig → List Line → CausalConfig
  all_causes config lines = record config { causal = λ i. config.causal i ++ causes_of i lines }

  parse_lines_lem :
      (size : ℕ) (lines : List Line) (buffer : List ℕ) (config : CausalConfig)
      → All (IsGood size) lines
      → ((i : ℕ) → length (config.causal i) + length (causes_of i lines) ≤ max_processes)
      → parse_lines text size (map scan_of lines) buffer config ≡ parsed (all_causes config lines)
  unfolding parse_lines causes_of
  parse_lines_lem size [] buffer config g l =
      ap (λ f. parsed (record config { causal = f }))
        (fun_ext λ j. sym (append-nil (config.causal j)))
  parse_lines_lem size (line ∷ lines) buffer config g l =
      let added = add_causes config line.process_id line.causes in
      let room = l line.process_id in
      let both = length-append line.causes (causes_of line.process_id lines) in
      rw
        (
          lt→ltb _ _ g.0.0,
          populate_from_lem config line.process_id (text.tokens line.str) 0 line.causes g.0.1 g.0.2
              (ground (arith, both)),
        )
        (parse_lines_lem size lines (text.left_over line.str) added g.1 (λ i. ground (
          arith,
          l i,
          length-append (config.causal line.process_id) line.causes,
          length-append line.causes (causes_of line.process_id lines),
        ))
          ∙ ap (λ f. parsed (record config { causal = f }))
              (fun_ext λ j. ground (
                arith,
                append_assoc (config.causal line.process_id) line.causes
                    (causes_of line.process_id lines),
              )))

  -- A file with the number of messages and lines that each have a text is read as it says: process `i` is
  -- affected by the numbers in the lines for `i`, in order, if each text fits into the buffer and is made
  -- of numbers, each line names a process below `MAX_PROCESSES`, and none is given more causes than that.
  pub parse_lcausal_config_lem :
      (size n : ℕ) (lines : List Line) (config : CausalConfig)
      → ((i : ℕ) → config.causal i ≡ [])
      → All (IsGood size) lines
      → ((i : ℕ) → length (causes_of i lines) ≤ max_processes)
      → parse_lcausal_config text size (number n ∷ map scan_of lines) config
        ≡ parsed (record config { n_messages = n; causal = λ i. causes_of i lines })
  unfolding parse_lcausal_config
  parse_lcausal_config_lem size n lines config e g l =
      parse_lines_lem size lines [] (record config { n_messages = n }) g
        (λ i. ground (arith, e i, l i))
      ∙ ap (λ f. parsed (record config { n_messages = n; causal = f }))
          (fun_ext λ i. ap (λ c. c ++ causes_of i lines) (e i))

  -- A line without causes is not read as one: behind a line with a text, it repeats the text's first cause,
  -- as the buffer still holds what strtok has left there, the first token.
  pub parse_lines_repeats :
      (size p q id : ℕ) (str ids buffer : List ℕ) (config : CausalConfig)
      → IsGood size (record { process_id = p; str = str; causes = id ∷ ids })
      → q < max_processes
      → p ≢ q
      → ReadsAs (text.tokens (text.left_over str)) (id ∷ [])
      → length (config.causal p) + length (id ∷ ids) ≤ max_processes
      → config.causal q ≡ []
      → (c : CausalConfig) × (parse_lines text size
            (number_and_text p str ∷ number q ∷ [])
            buffer
            config
          ≡ parsed c)
        × (c.causal q ≡ id ∷ [])
  unfolding parse_lines
  parse_lines_repeats size p q id str ids buffer config g h n r l e =
      let first = add_causes config p (id ∷ ids) in
      let other : first.causal q ≡ [] = ground arith in
      (
        add_causes first q (id ∷ []),
        rw
            (
              lt→ltb _ _ g.0,
              populate_from_lem config p (text.tokens str) 0 (id ∷ ids) g.1 g.2 l,
              populate_from_lem first q (text.tokens (text.left_over str)) 0 (id ∷ []) r h
                  (omega (arith, ap length other)),
            )
            refl,
        ground (arith, other),
      )
