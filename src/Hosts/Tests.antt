-- ===== src/Hosts/Tests.antt =====
-- Two hosts, the second of which stands first in the file.
use cs451_2021_project.Base.{
  ℕ, suc, ◌+◌, ◌≡◌, refl, arith, Bool, List, [], ◌∷◌, Option, none, some, length, leb,
  if◌then◌else◌, Bool-cases, inl, inr,
}
use cs451_2021_project.Address.{htons}
use cs451_2021_project.Hosts.{
  Host, Resolver, read_hosts, read_file, make_host, ltrim, rtrim, min_id, max_id,
}
use cs451_2021_project.Hosts.Numbered.{count_hosts, IsSorted, Sorts, IdsDiffer}

abbrev insert : Host → List Host → List Host
insert host [] = host ∷ []
insert host (next ∷ hosts) =
    let rest = insert host hosts in if leb host.id next.id then host ∷ next ∷ hosts else next ∷ rest

unfoldable pub sort : List Host → List Host
sort [] = []
sort (host ∷ hosts) = insert host (sort hosts)

length-insert : (host : Host) (hosts : List Host) → length (insert host hosts) ≡ suc (length hosts)
length-insert host [] = refl
length-insert host (next ∷ hosts) = ground (arith, length-insert host hosts)

count-insert :
    (p : Host → Bool) (host : Host) (hosts : List Host)
    → count_hosts p (insert host hosts) ≡ count_hosts p (host ∷ hosts)
unfolding count_hosts
count-insert p host [] = refl
count-insert p host (next ∷ hosts) = elim (Bool-cases (leb host.id next.id)) [
  | inl first ↦ rw first refl
  | inr later ↦ rw later (omega (arith, count-insert p host hosts))
]

insert-IsSorted : (host : Host) (hosts : List Host) → IsSorted hosts → IsSorted (insert host hosts)
insert-IsSorted host [] s = tt
insert-IsSorted host (next ∷ []) s = ground arith
insert-IsSorted host (next ∷ third ∷ hosts) s =
    ground (arith, s.0, s.1, insert-IsSorted host (third ∷ hosts) s.1)

sort-IsSorted : (hosts : List Host) → IsSorted (sort hosts)
unfolding sort
sort-IsSorted [] = tt
sort-IsSorted (host ∷ hosts) = insert-IsSorted host (sort hosts) (sort-IsSorted hosts)

length-sort : (hosts : List Host) → length (sort hosts) ≡ length hosts
unfolding sort
length-sort [] = refl
length-sort (host ∷ hosts) = omega (arith, length-insert host (sort hosts), length-sort hosts)

count-sort :
    (p : Host → Bool) (hosts : List Host) → count_hosts p (sort hosts) ≡ count_hosts p hosts
unfolding sort count_hosts
count-sort p [] = refl
count-sort p (host ∷ hosts) = omega (arith, count-insert p host (sort hosts), count-sort p hosts)

pub sort-Sorts : Sorts sort
sort-Sorts = record { sorted = sort-IsSorted; same_size = length-sort; same_hosts = count-sort }

-- A line is its id, for the port 11000 and the id.
abbrev pub scan : List ℕ → Option (ℕ × List ℕ × ℕ)
scan (id ∷ []) = some (id, [], 11000 + id)
scan _ = none

abbrev pub net : Resolver
net = record { inet_addr = λ _. some 0x0100007f; getaddrinfo = λ _. none }

abbrev pub lines : List (List ℕ)
lines = (2 ∷ []) ∷ [] ∷ (1 ∷ []) ∷ []

abbrev pub host_1 : Host
host_1 = record { id = 1; ip = 0x0100007f; port = 0xf92a }

abbrev pub host_2 : Host
host_2 = record { id = 2; ip = 0x0100007f; port = 0xfa2a }

pub both_read : read_hosts scan net lines ≡ some (host_2 ∷ host_1 ∷ [])
unfolding read_hosts make_host ltrim rtrim htons
both_read = refl

pub both_differ : IdsDiffer (host_2 ∷ host_1 ∷ [])
unfolding count_hosts
both_differ i = ground arith

pub both_sorted : read_file sort scan net (some lines) ≡ some (host_1 ∷ host_2 ∷ [])
unfolding read_file read_hosts make_host ltrim rtrim htons min_id max_id sort
both_sorted = refl

-- Hosts with the ids 1, 1 and 3 are accepted.
duplicates_accepted :
    read_file sort scan net (some ((1 ∷ []) ∷ (1 ∷ []) ∷ (3 ∷ []) ∷ []))
    ≡ some (host_1 ∷ host_1 ∷ record host_1 { id = 3; port = 0xfb2a } ∷ [])
unfolding read_file read_hosts make_host ltrim rtrim htons min_id max_id sort
duplicates_accepted = refl
