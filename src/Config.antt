-- ===== src/Config.antt =====
-- template_cpp/src/src/config_parser.c: the configuration file of a run. The calls of fscanf are the list of
-- their results; what strtok and sscanf make of a text are parameters.
pub mod Lines
pub mod Tests
use cs451_2021_project.Base.{
  ℕ, zero, suc, ◌+◌, Bool, true, false, ◌&&◌, List, [], ◌∷◌, ◌++◌, Option, none, some, length,
  update, ltb, if◌then◌else◌,
}
use cs451_2021_project.Address.{max_processes}
use cs451_2021_project.Lcb.{CausalConfig}

-- A function returns, ends the process, or leaves an array.
pub data Parsed (A : Type 0) : Type 0 where
  parsed : A → Parsed A
  exits : Parsed A
  overflows : Parsed A

-- What `fscanf(fp, "%lu%[^\n]", …)` reads: nothing, as the file ends or has no number there; a number
-- only; or a number and the rest of its line.
pub data Scan : Type 0 where
  end_of_file : Scan
  no_match : Scan
  number : ℕ → Scan
  number_and_text : ℕ → List ℕ → Scan

-- The pieces that strtok cuts a text into at spaces, the text that is then left in its buffer, and the
-- number that sscanf reads in a piece, if it reads one.
pub record TextFunctions : Type 0 where
  pub tokens : List ℕ → List (List ℕ)
  pub left_over : List ℕ → List ℕ
  pub read_uint : List ℕ → Option ℕ

pub record PlConfigInfo : Type 0 where
  pub n_messages : ℕ
  pub receiver_id : ℕ

-- The numbers that `fscanf(fp, "%lu %lu", …)` reads, at most two; `none` is EOF.
unfoldable pub parse_pl_config : Option (List ℕ) → PlConfigInfo → Parsed PlConfigInfo
parse_pl_config none config = exits
parse_pl_config (some []) config = parsed config
parse_pl_config (some (n ∷ [])) config = parsed (record config { n_messages = n })
parse_pl_config (some (n ∷ id ∷ more)) config =
    parsed (record config { n_messages = n; receiver_id = id })

-- Of `struct FIFOConfigInfo` the number of messages.
unfoldable pub parse_fifo_config : Option (List ℕ) → ℕ → Parsed ℕ
parse_fifo_config none n_messages = exits
parse_fifo_config (some []) n_messages = parsed n_messages
parse_fifo_config (some (n ∷ more)) n_messages = parsed n

abbrev pub number_or : ℕ → Option ℕ → ℕ
number_or last none = last
number_or last (some n) = n

abbrev pub push_cause : CausalConfig → ℕ → ℕ → CausalConfig
push_cause config process_id id = record config {
  causal = update config.causal process_id (config.causal process_id ++ id ∷ []);
}

-- `struct ConfigInfo` with its type, which says what follows.
pub data ConfigInfo : Type 0 where
  perfect_link : PlConfigInfo → ConfigInfo
  fifo : ℕ → ConfigInfo
  l_causal : CausalConfig → ConfigInfo

-- An open file: its size, and what the calls of fscanf with each of the formats read.
pub record ConfigFile : Type 0 where
  pub size : ℕ
  pub numbers : Option (List ℕ)
  pub scans : List Scan

abbrev pub map_parsed : {A B : Type 0} → (A → B) → Parsed A → Parsed B
map_parsed f (parsed a) = parsed (f a)
map_parsed f exits = exits
map_parsed f overflows = overflows

module _ (text : TextFunctions) where
  -- The loop of `populate_causal_processes`. A token without a number repeats the number before it.
  unfoldable pub populate_from : CausalConfig → ℕ → List (List ℕ) → ℕ → Parsed CausalConfig
  populate_from config process_id [] last = parsed config
  populate_from config process_id (token ∷ tokens) last =
      let id = number_or last (text.read_uint token) in
      if ltb process_id max_processes && ltb (length (config.causal process_id)) max_processes
      then populate_from (push_cause config process_id id) process_id tokens id
      else overflows

  unfoldable pub populate_causal_processes : List ℕ → CausalConfig → ℕ → Parsed CausalConfig
  unfolding populate_from
  populate_causal_processes str config process_id =
      populate_from config process_id (text.tokens str) 0

  abbrev pub then_lines :
      (CausalConfig → Parsed CausalConfig) → Parsed CausalConfig → Parsed CausalConfig
  then_lines more (parsed config) = more config
  then_lines more exits = exits
  then_lines more overflows = overflows

  -- The loop of `parse_lcausal_config`. A line without a text leaves the buffer as it was.
  unfoldable pub parse_lines : ℕ → List Scan → List ℕ → CausalConfig → Parsed CausalConfig
  unfolding populate_causal_processes
  parse_lines size [] buffer config = parsed config
  parse_lines size (end_of_file ∷ scans) buffer config = parsed config
  parse_lines size (no_match ∷ scans) buffer config = parsed config
  parse_lines size (number process_id ∷ scans) buffer config =
      then_lines (λ c. parse_lines size scans (text.left_over buffer) c)
        (populate_causal_processes buffer config process_id)
  parse_lines size (number_and_text process_id str ∷ scans) buffer config =
      if ltb (length str) size
      then then_lines (λ c. parse_lines size scans (text.left_over str) c)
          (populate_causal_processes str config process_id)
      else overflows

  -- `size` is the size of the file and of the buffer, which starts with zeros.
  unfoldable pub parse_lcausal_config : ℕ → List Scan → CausalConfig → Parsed CausalConfig
  parse_lcausal_config size [] config = exits
  parse_lcausal_config size (end_of_file ∷ scans) config = exits
  parse_lcausal_config size (no_match ∷ scans) config = exits
  parse_lcausal_config size (number n ∷ scans) config =
      parse_lines size scans [] (record config { n_messages = n })
  parse_lcausal_config size (number_and_text n str ∷ scans) config =
      if ltb (length str) size
      then parse_lines size scans str (record config { n_messages = n })
      else overflows

  -- The file is `none` if fopen fails.
  unfoldable pub parse_config : ConfigInfo → Option ConfigFile → Parsed ConfigInfo
  parse_config info none = exits
  parse_config (perfect_link config) (some file) =
      map_parsed perfect_link (parse_pl_config file.numbers config)
  parse_config (fifo n_messages) (some file) =
      map_parsed fifo (parse_fifo_config file.numbers n_messages)
  parse_config (l_causal config) (some file) =
      map_parsed l_causal (parse_lcausal_config file.size file.scans config)
