-- ===== src/Main/Addresses.antt =====
-- The addresses that the application gets of the hosts, through template_cpp/src/src/main.cpp.
use cs451_2021_project.Base.{
  ℕ, ◌+◌, ◌-◌, ◌≡◌, ◌≤◌, ◌<◌, refl, sym, ap, ◌∙◌, subst, arith, Bool, true, List, [], ◌∷◌, Option,
  some, length, inl, inr, Elem, take, Option-cases, Bool-cases,
}
use cs451_2021_project.Address.{SockAddr, ProcessInfo, get_sockaddr_by_id, af_inet, max_processes}
use cs451_2021_project.Lcb.{lcb_init}
use cs451_2021_project.Config.{
  Parsed, parsed, exits, overflows, TextFunctions, ConfigInfo, perfect_link, fifo, l_causal,
  ConfigFile, parse_config,
}
use cs451_2021_project.App.{App, app_run, array, app_init, fill_addresses, start_layers}
use cs451_2021_project.App.Start.{fill_addresses_lem}
use cs451_2021_project.Arguments.{Parser, parse_internal}
use cs451_2021_project.Hosts.{Host, Resolver, read_hosts, read_file}
use cs451_2021_project.Hosts.Numbered.{
  Sorts, IdsDiffer, IsNumbered, read_file_cases, read_file-IsNumbered,
}
use cs451_2021_project.Main.{Files, process_infos, main, then_run, main_runs}

abbrev pub address_of : Host → SockAddr
address_of host = record { sin_family = af_inet; sin_port = host.port; s_addr = host.ip }

numbered_id :
    (lo : ℕ) (hosts : List Host) (host : Host)
    → IsNumbered lo hosts
    → Elem host hosts
    → (lo ≤ host.id) × (host.id < lo + length hosts)
numbered_id lo [] host n e = absurd e
numbered_id lo (first ∷ hosts) host n (inl same) = omega (arith, n.0, ap (λ h. h.id) same)
numbered_id lo (first ∷ hosts) host n (inr e) = omega (arith, numbered_id (lo + 1) hosts host n.1 e)

get_sockaddr_by_id-numbered :
    (s : SockAddr) (lo : ℕ) (hosts : List Host) (host : Host)
    → IsNumbered lo hosts
    → Elem host hosts
    → get_sockaddr_by_id s host.id (process_infos hosts) ≡ address_of host
unfolding get_sockaddr_by_id
get_sockaddr_by_id-numbered s lo [] host n e = absurd e
get_sockaddr_by_id-numbered s lo (first ∷ hosts) host n (inl same) = rw same (ground arith)
get_sockaddr_by_id-numbered s lo (first ∷ hosts) host n (inr e) = ground (
  arith,
  n.0,
  numbered_id (lo + 1) hosts host n.1 e,
  get_sockaddr_by_id-numbered s (lo + 1) hosts host n.1 e,
)

-- What the layers leave as `app_init` has set it.
abbrev StartsAs : App → App → Type 0
StartsAs app a =
    (a.addresses ≡ app.addresses) × (a.process_id ≡ app.process_id) × (a.infos ≡ app.infos)

start_layers-StartsAs :
    (app : App) (r : Parsed ConfigInfo) {a : App} → start_layers app r ≡ parsed a → StartsAs app a
start_layers-StartsAs app (parsed (l_causal config)) e =
    elim (Option-cases (
      lcb_init app.lcb app.process_id (array max_processes 0 app.addresses) (length app.infos)
        config)) [
          | inl fails ↦ absurd (ground arith)
          | inr (lcb, made) ↦ (ground arith, ground arith, ground arith)
        ]
start_layers-StartsAs app (parsed (perfect_link config)) e = absurd (cc)
start_layers-StartsAs app (parsed (fifo n)) e = absurd (cc)
start_layers-StartsAs app exits e = absurd (cc)
start_layers-StartsAs app overflows e = absurd (cc)

app_init_sets :
    (text : TextFunctions) (app : App) (filename : List ℕ) (file : Option ConfigFile)
    (has_socket : Bool) (process_id : ℕ) (infos : List ProcessInfo) {a : App}
    → app_init text app filename file has_socket process_id infos ≡ parsed a
    → (a.addresses ≡ fill_addresses (length infos) 0 infos app.addresses)
      × (a.process_id ≡ process_id)
      × (a.infos ≡ infos)
unfolding app_init
app_init_sets text app filename file has_socket process_id infos {a} e =
    start_layers-StartsAs
      (record app {
        receive_forever = true;
        filename = take 255 filename;
        process_id = process_id;
        infos = infos;
        addresses = fill_addresses (length infos) 0 infos app.addresses;
      })
      (parse_config text (l_causal (record app.config { process_id = process_id })) file) {a = a}
      (ground arith)

length-map : (hosts : List Host) → length (process_infos hosts) ≡ length hosts
length-map [] = refl
length-map (host ∷ hosts) = omega (arith, length-map hosts)

module _ (text : TextFunctions) (stoul : List ℕ → Option ℕ) (sort : List Host → List Host)
    (scan : List ℕ → Option (ℕ × List ℕ × ℕ)) (net : Resolver) (files : Files) (app : App)
    (has_socket : Bool) where
  -- The process gets through `app_init` with the hosts of the file, sorted, whose ids count from 1 on.
  main_starts :
      (p q : Parser) (lines : List (List ℕ)) {read : List Host} {a : App}
      → Sorts sort
      → parse_internal stoul p ≡ some q
      → files.lines q.hosts_path ≡ some lines
      → read_hosts scan net lines ≡ some read
      → IdsDiffer read
      → main text stoul sort scan net files app has_socket p ≡ parsed a
      → IsNumbered 1 (sort read)
        × (length (sort read) ≡ length read)
        × (app_init text app q.output_path
              (files.config q.config_path)
              has_socket
              q.id
              (process_infos (sort read))
            ≡ parsed a)
  unfolding main
  main_starts p q lines {read} {a} s pe l r d e =
      elim (Option-cases (read_file sort scan net (files.lines q.hosts_path))) [
        | inl fails ↦ absurd (ground arith)
        | inr (hosts, found) ↦
            let (n, size, two) =
              read_file-IsNumbered sort scan net lines s r d
                (ap (read_file sort scan net) (sym l) ∙ found) in
            let (compact, more, made) =
              read_file_cases sort scan net lines r
                (ap (read_file sort scan net) (sym l) ∙ found) in
            let same : hosts ≡ sort read = sym made in
            (
              subst (IsNumbered 1) same n,
              ap length (sym same) ∙ size,
              subst
                  (λ h.
                    app_init text app q.output_path (files.config q.config_path) has_socket q.id
                      (process_infos h)
                    ≡ parsed a)
                  same (ground arith),
            )
      ]

-- If the process gets through to its threads, `sort` sorts by id and no id is in the file twice: then of each
-- host of the file, sorted, the address is in the application's array at one less than its id.
pub main-addresses :
    (text : TextFunctions) (stoul : List ℕ → Option ℕ) (sort : List Host → List Host)
    (scan : List ℕ → Option (ℕ × List ℕ × ℕ)) (net : Resolver) (files : Files) (app : App)
    (has_socket : Bool) (p q : Parser) (host : Host) (lines : List (List ℕ)) {read : List Host}
    {a : App}
    → Sorts sort
    → parse_internal stoul p ≡ some q
    → files.lines q.hosts_path ≡ some lines
    → read_hosts scan net lines ≡ some read
    → IdsDiffer read
    → main text stoul sort scan net files app has_socket p ≡ parsed a
    → Elem host (sort read)
    → (1 ≤ host.id) × (host.id ≤ length read) × (a.addresses (host.id - 1) ≡ address_of host)
main-addresses text stoul sort scan net files app has_socket p q host lines {read} {a} s pe l r d e
      m =
    let hosts = sort read in
    let (n, size, starts) =
      main_starts text stoul sort scan net files app has_socket p q lines s pe l r d e in
    let bounds = numbered_id 1 hosts host n m in
    let sets =
      app_init_sets text app q.output_path (files.config q.config_path) has_socket q.id
        (process_infos hosts) starts in
    (
      bounds.0,
      omega (arith, bounds.1, size),
      ap (λ f. f (host.id - 1)) sets.0
          ∙ fill_addresses_lem (length (process_infos hosts)) 0 (process_infos hosts) app.addresses
              (host.id - 1) (omega arith) (omega (arith, length-map hosts, bounds))
          ∙ ap (λ k. get_sockaddr_by_id (app.addresses (host.id - 1)) k (process_infos hosts))
              {x = host.id - 1 + 1} {y = host.id} (omega (arith, bounds.0))
          ∙ get_sockaddr_by_id-numbered (app.addresses (host.id - 1)) 1 hosts host n m,
    )

then_run_cases :
    (binds : SockAddr → Bool) (stack : SockAddr) (r : Parsed App) {a : App}
    → then_run binds stack r ≡ parsed a
    → (r ≡ parsed a) × (binds (get_sockaddr_by_id stack a.process_id a.infos) ≡ true)
unfolding app_run
then_run_cases binds stack (parsed b) {a} e =
    elim (Bool-cases (binds (get_sockaddr_by_id stack b.process_id b.infos))) [
      | inl bound ↦ (
        ground arith,
        subst (λ x. binds (get_sockaddr_by_id stack x.process_id x.infos) ≡ true) {x = b} {y = a}
            (same bound) bound,
      )
      | inr fails ↦ absurd (ground arith)
    ]
  where
    same : binds (get_sockaddr_by_id stack b.process_id b.infos) ≡ true → b ≡ a
    same bound = ground arith
then_run_cases binds stack exits e = absurd (cc)
then_run_cases binds stack overflows e = absurd (cc)

-- If the process starts its threads, `sort` sorts by id and no id is in the file twice: then the socket is bound to the address
-- of the host of the file whose id is the argument `--id`, if there is one.
pub main-binds :
    (text : TextFunctions) (stoul : List ℕ → Option ℕ) (sort : List Host → List Host)
    (scan : List ℕ → Option (ℕ × List ℕ × ℕ)) (net : Resolver) (files : Files) (app : App)
    (has_socket : Bool) (binds : SockAddr → Bool) (stack : SockAddr) (p q : Parser) (host : Host)
    (lines : List (List ℕ)) {read : List Host} {a : App}
    → Sorts sort
    → parse_internal stoul p ≡ some q
    → files.lines q.hosts_path ≡ some lines
    → read_hosts scan net lines ≡ some read
    → IdsDiffer read
    → main_runs text stoul sort scan net files app has_socket binds stack p ≡ parsed a
    → Elem host (sort read)
    → host.id ≡ q.id
    → (get_sockaddr_by_id stack a.process_id a.infos ≡ address_of host)
      × (binds (address_of host) ≡ true)
unfolding main_runs
main-binds text stoul sort scan net files app has_socket binds stack p q host lines {read} {a} s pe
      l r d e m own =
    let (begins, bound) =
      then_run_cases binds stack (main text stoul sort scan net files app has_socket p) e in
    let (n, size, starts) =
      main_starts text stoul sort scan net files app has_socket p q lines s pe l r d begins in
    let sets =
      app_init_sets text app q.output_path (files.config q.config_path) has_socket q.id
        (process_infos (sort read)) starts in
    let found : get_sockaddr_by_id stack a.process_id a.infos ≡ address_of host =
      ap (λ i. get_sockaddr_by_id stack a.process_id i) sets.2
      ∙ ap (λ k. get_sockaddr_by_id stack k (process_infos (sort read))) (sets.1 ∙ sym own)
      ∙ get_sockaddr_by_id-numbered stack 1 (sort read) host n m in
    (found, subst (λ x. binds x ≡ true) found bound)
