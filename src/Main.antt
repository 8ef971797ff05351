-- ===== src/Main.antt =====
-- template_cpp/src/src/main.cpp: the arguments and the hosts, handed to the application.
pub mod Addresses
mod Tests
use cs451_2021_project.Base.{ℕ, Bool, List, Option, none, some, map}
use cs451_2021_project.Address.{SockAddr, ProcessInfo}
use cs451_2021_project.Arguments.{Parser, parse_internal}
use cs451_2021_project.Hosts.{Host, Resolver, read_file}
use cs451_2021_project.Config.{Parsed, parsed, exits, overflows, TextFunctions, ConfigFile}
use cs451_2021_project.App.{App, app_init, app_run, app_destroy}

-- The loop of `main` over the hosts.
abbrev pub process_info : Host → ProcessInfo
process_info host = record { id = host.id; ip = host.ip; port = host.port }

abbrev pub process_infos : List Host → List ProcessInfo
process_infos hosts = map process_info hosts

-- The files that the process can open.
pub record Files : Type 0 where
  pub lines : List ℕ → Option (List (List ℕ))
  pub config : List ℕ → Option ConfigFile

abbrev pub then_run : (SockAddr → Bool) → SockAddr → Parsed App → Parsed App
then_run binds stack (parsed a) = app_run binds stack a
then_run binds stack exits = exits
then_run binds stack overflows = overflows

module _ (text : TextFunctions) (stoul : List ℕ → Option ℕ) (sort : List Host → List Host)
    (scan : List ℕ → Option (ℕ × List ℕ × ℕ)) (net : Resolver) (files : Files) (app : App)
    (has_socket : Bool) where
  abbrev pub start_app : Parser → Option (List Host) → Parsed App
  start_app p none = exits
  start_app p (some hosts) =
      app_init text app p.output_path (files.config p.config_path) has_socket p.id
        (process_infos hosts)

  abbrev pub parse_hosts : Option Parser → Parsed App
  parse_hosts none = exits
  parse_hosts (some p) = start_app p (read_file sort scan net (files.lines p.hosts_path))

  -- `main` up to `app_init`.
  unfoldable pub main : Parser → Parsed App
  main p = parse_hosts (parse_internal stoul p)

  -- `main` up to the start of the threads.
  unfoldable pub main_runs : (SockAddr → Bool) → SockAddr → Parser → Parsed App
  main_runs binds stack p = then_run binds stack (main p)

-- The signal handler, which then exits: what is written to the output file. `tokens` as for `write_output`.
unfoldable pub stop : (List ℕ → List (List ℕ)) → App → Option (List ℕ)
stop tokens app = (app_destroy tokens app).1
