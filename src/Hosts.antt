-- ===== src/Hosts.antt =====
-- template_cpp/src/include/parser.hpp: the file of hosts. What the stream extraction reads in a line, the
-- resolver and `sort` are parameters; an exception that ends the process is `none`.
pub mod Numbered
pub mod Tests
use cs451_2021_project.Base.{
  ℕ, ◌+◌, Bool, true, false, ◌&&◌, ◌||◌, List, [], ◌∷◌, Option, none, some, length, ltb, leb, ◌==◌,
  if◌then◌else◌,
}
use cs451_2021_project.Address.{htons, af_inet}

pub record Host : Type 0 where
  pub id : ℕ
  pub ip : ℕ
  pub port : ℕ

-- What the library finds of a name or of the text of an address.
pub record Resolver : Type 0 where
  pub inet_addr : List ℕ → Option ℕ
  pub getaddrinfo : List ℕ → Option (List (ℕ × ℕ))

-- The loop of `ipLookup`, over families and addresses.
unfoldable pub first_inet : List (ℕ × ℕ) → Option ℕ
first_inet [] = none
first_inet ((family, ip) ∷ res) = if family == af_inet then some ip else first_inet res

abbrev pub lookup_result : Option (List (ℕ × ℕ)) → Option ℕ
lookup_result none = none
lookup_result (some res) = first_inet res

unfoldable pub ip_lookup : Resolver → List ℕ → Option ℕ
ip_lookup net host = lookup_result (net.getaddrinfo host)

abbrev pub valid_or_lookup : Resolver → List ℕ → Option ℕ → Option ℕ
valid_or_lookup net name none = ip_lookup net name
valid_or_lookup net name (some ip) = some ip

abbrev pub with_ip : ℕ → ℕ → Option ℕ → Option Host
with_ip id port none = none
with_ip id port (some ip) = some (record { id = id; ip = ip; port = htons port })

-- The constructor of `Host`.
unfoldable pub make_host : Resolver → ℕ → List ℕ → ℕ → Option Host
make_host net id name port = with_ip id port (valid_or_lookup net name (net.inet_addr name))

abbrev pub is_space : ℕ → Bool
is_space c = (c == b' ') || (leb 9 c && leb c 13)

unfoldable pub ltrim : List ℕ → List ℕ
ltrim [] = []
ltrim (c ∷ s) = let rest = ltrim s in if is_space c then rest else c ∷ s

-- Spaces go at the end, where nothing follows that stays.
abbrev pub keep : ℕ → List ℕ → List ℕ
keep c [] = if is_space c then [] else c ∷ []
keep c (d ∷ s) = c ∷ d ∷ s

unfoldable pub rtrim : List ℕ → List ℕ
rtrim [] = []
rtrim (c ∷ s) = keep c (rtrim s)

abbrev pub trim : List ℕ → List ℕ
trim s = rtrim (ltrim s)

abbrev pub push_host : Option Host → Option (List Host) → Option (List Host)
push_host none rest = none
push_host (some host) none = none
push_host (some host) (some hosts) = some (host ∷ hosts)

abbrev pub make_scanned : Resolver → Option (ℕ × List ℕ × ℕ) → Option Host
make_scanned net none = none
make_scanned net (some (id, name, port)) = make_host net id name port

-- The loop of `hosts`, where `scan` is `iss >> id >> ip >> port`.
unfoldable pub read_hosts :
    (List ℕ → Option (ℕ × List ℕ × ℕ)) → Resolver → List (List ℕ) → Option (List Host)
read_hosts scan net [] = some []
read_hosts scan net (line ∷ lines) =
    let rest = read_hosts scan net lines in
    elim (trim line) [ [] ↦ rest | c ∷ s ↦ push_host (make_scanned net (scan line)) rest ]

-- `minmax_element`, of a first id and those of the hosts.
unfoldable pub min_id : ℕ → List Host → ℕ
min_id m [] = m
min_id m (host ∷ hosts) = min_id (if ltb host.id m then host.id else m) hosts

unfoldable pub max_id : ℕ → List Host → ℕ
max_id m [] = m
max_id m (host ∷ hosts) = max_id (if ltb host.id m then m else host.id) hosts

abbrev pub is_compact : List Host → Bool
is_compact [] = false
is_compact (host ∷ hosts) =
    (min_id host.id hosts == 1) && (max_id host.id hosts == length (host ∷ hosts))

abbrev pub check_hosts : (List Host → List Host) → Option (List Host) → Option (List Host)
check_hosts sort none = none
check_hosts sort (some hosts) =
    if ltb (length hosts) 2 then none else (if is_compact hosts then some (sort hosts) else none)

-- The lines are `none` if the file cannot be opened.
unfoldable pub read_file :
    (List Host → List Host)
    → (List ℕ → Option (ℕ × List ℕ × ℕ))
    → Resolver
    → Option (List (List ℕ))
    → Option (List Host)
read_file sort scan net none = none
read_file sort scan net (some lines) = check_hosts sort (read_hosts scan net lines)
