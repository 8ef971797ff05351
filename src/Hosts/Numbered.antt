-- ===== src/Hosts/Numbered.antt =====
-- The check of the ids in `hosts` of template_cpp/src/include/parser.hpp, and the order that `sort` makes.
use cs451_2021_project.Base.{
  ℕ, ◌+◌, ◌≡◌, ◌≤◌, refl, sym, ap, ◌∙◌, subst, arith, Bool, true, ◌||◌, List, [], ◌∷◌, Option, some,
  length, ltb, ◌==◌, if◌then◌else◌,
}
use cs451_2021_project.Hosts.{Host, Resolver, read_hosts, min_id, max_id, is_compact, read_file}

unfoldable pub count_hosts : (Host → Bool) → List Host → ℕ
count_hosts p [] = 0
count_hosts p (host ∷ hosts) = (if p host then 1 else 0) + count_hosts p hosts

abbrev pub IsSorted : List Host → Type 0
IsSorted [] = Unit
IsSorted (host ∷ []) = Unit
IsSorted (host ∷ next ∷ hosts) = (host.id ≤ next.id) × IsSorted (next ∷ hosts)

-- What `std::sort` by id does.
pub record Sorts (sort : List Host → List Host) : Type 0 where
  pub sorted : (hosts : List Host) → IsSorted (sort hosts)
  pub same_size : (hosts : List Host) → length (sort hosts) ≡ length hosts
  pub same_hosts :
      (p : Host → Bool) (hosts : List Host) → count_hosts p (sort hosts) ≡ count_hosts p hosts

abbrev has_id : ℕ → Host → Bool
has_id i host = host.id == i

abbrev is_outside : ℕ → ℕ → Host → Bool
is_outside lo hi host = ltb host.id lo || ltb hi host.id

-- No id is there twice.
abbrev pub IdsDiffer : List Host → Type 0
IdsDiffer hosts = (i : ℕ) → count_hosts (has_id i) hosts ≤ 1

-- The ids count from `lo` on.
abbrev pub IsNumbered : ℕ → List Host → Type 0
IsNumbered lo [] = Unit
IsNumbered lo (host ∷ hosts) = (host.id ≡ lo) × IsNumbered (lo + 1) hosts

min_id-le :
    (m : ℕ) (hosts : List Host) (lo : ℕ)
    → lo ≤ min_id m hosts
    → (lo ≤ m) × (count_hosts (λ host. ltb host.id lo) hosts ≡ 0)
unfolding min_id count_hosts
min_id-le m [] lo h = (h, refl)
min_id-le m (host ∷ hosts) lo h =
    ground (arith, min_id-le (if ltb host.id m then host.id else m) hosts lo h)

max_id-ge :
    (m : ℕ) (hosts : List Host) (hi : ℕ)
    → max_id m hosts ≤ hi
    → (m ≤ hi) × (count_hosts (λ host. ltb hi host.id) hosts ≡ 0)
unfolding max_id count_hosts
max_id-ge m [] hi h = (h, refl)
max_id-ge m (host ∷ hosts) hi h =
    ground (arith, max_id-ge (if ltb host.id m then m else host.id) hosts hi h)

none_outside :
    (lo hi : ℕ) (hosts : List Host)
    → count_hosts (λ host. ltb host.id lo) hosts ≡ 0
    → count_hosts (λ host. ltb hi host.id) hosts ≡ 0
    → count_hosts (is_outside lo hi) hosts ≡ 0
unfolding count_hosts
none_outside lo hi [] a b = refl
none_outside lo hi (host ∷ hosts) a b = ground (arith, none_outside lo hi hosts)

is_compact_lem :
    (hosts : List Host)
    → is_compact hosts ≡ true
    → count_hosts (is_outside 1 (length hosts)) hosts ≡ 0
unfolding count_hosts
is_compact_lem [] e = refl
is_compact_lem (host ∷ hosts) e =
    let low = min_id-le host.id hosts 1 (ground arith) in
    let high = max_id-ge host.id hosts (length (host ∷ hosts)) (ground arith) in
    ground (arith, none_outside 1 (length (host ∷ hosts)) hosts low.1 high.1)

-- Strictly increasing ids from `lo` to `hi`.
abbrev Increases : ℕ → ℕ → List Host → Type 0
Increases lo hi [] = Unit
Increases lo hi (host ∷ hosts) = (lo ≤ host.id) × (host.id ≤ hi) × Increases (host.id + 1) hi hosts

Increases-room :
    (lo hi : ℕ) (hosts : List Host)
    → lo ≤ hi + 1
    → Increases lo hi hosts
    → lo + length hosts ≤ hi + 1
Increases-room lo hi [] b h = omega arith
Increases-room lo hi (host ∷ hosts) b h =
    omega (arith, h.0, h.1, Increases-room (host.id + 1) hi hosts (omega (arith, h.1)) h.2)

Increases-IsNumbered :
    (lo hi : ℕ) (hosts : List Host)
    → lo + length hosts ≡ hi + 1
    → Increases lo hi hosts
    → IsNumbered lo hosts
Increases-IsNumbered lo hi [] e h = tt
Increases-IsNumbered lo hi (host ∷ hosts) e h =
    let first : host.id ≡ lo =
      omega (arith, h.0, h.1, Increases-room (host.id + 1) hi hosts (omega (arith, h.1)) h.2) in
    (
      first,
      Increases-IsNumbered (lo + 1) hi hosts (omega arith)
          (subst (λ n. Increases (n + 1) hi hosts) first h.2),
    )

-- Behind a host, the ids of a sorted list are larger if they are others.
above :
    (m lo hi : ℕ) (prev : Host) (hosts : List Host)
    → m ≤ prev.id
    → IsSorted (prev ∷ hosts)
    → count_hosts (has_id m) hosts ≡ 0
    → count_hosts (is_outside lo hi) hosts ≡ 0
    → count_hosts (is_outside (m + 1) hi) hosts ≡ 0
unfolding count_hosts
above m lo hi prev [] b s z o = refl
above m lo hi prev (host ∷ hosts) b s z o =
    ground (arith, above m lo hi host hosts (omega (arith, s.0)) s.1 (ground arith) (ground arith))

IsSorted-tail : (host : Host) (hosts : List Host) → IsSorted (host ∷ hosts) → IsSorted hosts
IsSorted-tail host [] s = tt
IsSorted-tail host (next ∷ hosts) s = s.1

sorted-Increases :
    (lo hi : ℕ) (hosts : List Host)
    → IsSorted hosts
    → IdsDiffer hosts
    → count_hosts (is_outside lo hi) hosts ≡ 0
    → Increases lo hi hosts
unfolding count_hosts
sorted-Increases lo hi [] s d o = tt
sorted-Increases lo hi (host ∷ hosts) s d o = (
  ground arith,
  ground arith,
  sorted-Increases (host.id + 1) hi hosts (IsSorted-tail host hosts s) (λ i. omega (arith, d i))
      (above host.id lo hi host hosts (omega arith) s (ground (arith, d host.id)) (ground arith)),
)

pub read_file_cases :
    (sort : List Host → List Host) (scan : List ℕ → Option (ℕ × List ℕ × ℕ)) (net : Resolver)
    (lines : List (List ℕ)) {read hosts : List Host}
    → read_hosts scan net lines ≡ some read
    → read_file sort scan net (some lines) ≡ some hosts
    → (is_compact read ≡ true) × (2 ≤ length read) × (sort read ≡ hosts)
unfolding read_file
read_file_cases sort scan net lines r e = (ground arith, ground arith, ground arith)

-- If no id is there twice and `sort` sorts the hosts by id, the list that `hosts` returns counts its ids from 1
-- on: as many as there are hosts in the file.
pub read_file-IsNumbered :
    (sort : List Host → List Host) (scan : List ℕ → Option (ℕ × List ℕ × ℕ)) (net : Resolver)
    (lines : List (List ℕ)) {read hosts : List Host}
    → Sorts sort
    → read_hosts scan net lines ≡ some read
    → IdsDiffer read
    → read_file sort scan net (some lines) ≡ some hosts
    → IsNumbered 1 hosts × (length hosts ≡ length read) × (2 ≤ length hosts)
read_file-IsNumbered sort scan net lines {read} {hosts} s r d e =
    let (compact, two, made) = read_file_cases sort scan net lines r e in
    let size = ap length (sym made) ∙ s.same_size read in
    (
      Increases-IsNumbered 1 (length read) hosts (omega (arith, size)) (
          sorted-Increases 1 (length read) hosts (subst IsSorted made (s.sorted read))
            (λ i.
              subst (λ l. count_hosts (has_id i) l ≤ 1) made
                (omega (arith, s.same_hosts (has_id i) read, d i)))
            (subst (λ l. count_hosts (is_outside 1 (length read)) l ≡ 0) made
              (s.same_hosts (is_outside 1 (length read)) read ∙ is_compact_lem read compact))),
      size,
      omega (arith, size, two),
    )
