-- ===== src/App/Start.antt =====
-- `app_init` of template_cpp/src/src/lcb_app.c, and the loop of `run_receiver`.
use native.Mathlib.Decide.{ℕ_discrete}
use cs451_2021_project.Base.{
  ℕ, zero, suc, ◌+◌, ◌*◌, ◌≡◌, ◌≤◌, ◌<◌, refl, sym, ap, ◌∙◌, arith, true, List, [], Option, length,
  take, replicate, le→leb, update, leb, if◌then◌else◌,
}
use cs451_2021_project.Address.{SockAddr, ProcessInfo, get_sockaddr_by_id, max_processes}
use cs451_2021_project.BestEffort.{beb_init}
use cs451_2021_project.Urb.{zero_row, urb_init}
use cs451_2021_project.Lcb.{CausalConfig, lcb_init}
use cs451_2021_project.Lcb.Order.{count_from}
use cs451_2021_project.Logger.{init_logger}
use cs451_2021_project.Logger.Merge.{log_events}
use cs451_2021_project.Config.{
  Parsed, parsed, TextFunctions, ConfigInfo, l_causal, ConfigFile, parse_config,
}
use cs451_2021_project.App.{App, fill_addresses, array, app_init}
use cs451_2021_project.App.Record.{sent_messages, Wrote}

-- Before the call the variables have their initial values.
pub record IsFresh (app : App) : Type 0 where
  pub n_sent : app.n_sent ≡ 0
  pub num_order : app.logger.num_order ≡ 0
  pub log : app.lcb.log ≡ []
  pub v_clock : (i : ℕ) → app.lcb.v_clock i ≡ 0
  pub delivered : (i : ℕ) → app.lcb.delivered i ≡ 0
  pub rows : (i : ℕ) → (app.lcb.urb.rows i).bytes ≡ 0

-- The entries before `i` stay; the next `left` are looked up.
fill_addresses_before :
    (left i : ℕ) (infos : List ProcessInfo) (addresses : ℕ → SockAddr) (j : ℕ)
    → j < i
    → fill_addresses left i infos addresses j ≡ addresses j
unfolding fill_addresses
fill_addresses_before zero i infos addresses j h = refl
fill_addresses_before (suc left) i infos addresses j h =
    let addresses' = update addresses i (get_sockaddr_by_id (addresses i) (i + 1) infos) in
    fill_addresses_before left (i + 1) infos addresses' j (omega arith) ∙ ground arith

pub fill_addresses_lem :
    (left i : ℕ) (infos : List ProcessInfo) (addresses : ℕ → SockAddr) (j : ℕ)
    → i ≤ j
    → j < i + left
    → fill_addresses left i infos addresses j ≡ get_sockaddr_by_id (addresses j) (j + 1) infos
unfolding fill_addresses
fill_addresses_lem zero i infos addresses j h b = absurd (omega arith)
fill_addresses_lem (suc left) i infos addresses j h b =
    let addresses' = update addresses i (get_sockaddr_by_id (addresses i) (i + 1) infos) in
    elim (ℕ_discrete i j) [
      | yes same ↦
          fill_addresses_before left (i + 1) infos addresses' j (omega arith) ∙ ground arith
      | no other ↦
          fill_addresses_lem left (i + 1) infos addresses' j (omega arith) (omega arith)
          ∙ ap (λ a. get_sockaddr_by_id a (j + 1) infos) (ground arith)
    ]

-- What `app_init` leaves, with a configuration.
abbrev pub initialised : App → List ℕ → ℕ → List ProcessInfo → CausalConfig → App
initialised app filename process_id infos config =
    let addresses = fill_addresses (length infos) 0 infos app.addresses in
    record app {
      receive_forever = true;
      filename = take 255 filename;
      process_id = process_id;
      infos = infos;
      addresses = addresses;
      config = config;
      logger = init_logger app.logger;
      lcb = record app.lcb {
        lsn = 0;
        n_processes = length infos + 1;
        process_id = process_id;
        broadcast_buffer = replicate ((length infos + 1) * 4 + 1 + 256) 0;
        config = config;
        urb = record app.lcb.urb {
          beb = beb_init app.lcb.urb.beb (array max_processes 0 addresses) (length infos);
          rows = λ i. if leb i (length infos + 1) then zero_row else app.lcb.urb.rows i;
          n_processes = length infos;
          process_id = process_id;
          addresses = array max_processes 0 addresses;
        };
      };
    }

module _ (text : TextFunctions) (app : App) (filename : List ℕ) (file : Option ConfigFile)
    (process_id : ℕ) (infos : List ProcessInfo) where
  -- How `app_init` looks for the configuration.
  abbrev pub read_config : Parsed ConfigInfo
  read_config = parse_config text (l_causal (record app.config { process_id = process_id })) file

  pub app_init_lem :
      (config : CausalConfig)
      → read_config ≡ parsed (l_causal config)
      → length infos + 2 ≤ max_processes
      → app_init text app filename file true process_id infos
        ≡ parsed (initialised app filename process_id infos config)
  unfolding app_init lcb_init urb_init
  app_init_lem config e h =
      rw
        (
          le→leb (length infos) max_processes (omega arith),
          e,
          le→leb (length infos + 2) max_processes h,
        )
        refl

pub initialised-Wrote :
    (print_ulong : ℕ → List ℕ) (app : App) (filename : List ℕ) (process_id : ℕ)
    (infos : List ProcessInfo) (config : CausalConfig)
    → IsFresh app
    → Wrote print_ulong (initialised app filename process_id infos config) []
unfolding log_events count_from
initialised-Wrote print_ulong app filename process_id infos config f = record {
  logged = rw f.num_order refl;
  sends = ap (sent_messages print_ulong) (sym f.n_sent);
  delivers = rw f.log tt;
  causal = record {
    small = λ i. ground (arith, f.rows i);
    counts = record {
      clock = λ i. rw f.log (f.v_clock i);
      position = λ i. rw f.log (f.delivered i);
    };
    ordered = rw f.log tt;
  };
}
