-- ===== src/Urb/Cells.antt =====
-- The entries of `pam_table`: `sum` counts the processes in `ack`.
use cs451_2021_project.Base.{
  ℕ, zero, suc, ◌+◌, ◌≡◌, ◌≤◌, ◌<◌, ◌⊎◌, Bool, true, false, refl, arith, update, if◌then◌else◌,
  List,
}
use cs451_2021_project.Address.{max_processes}
use cs451_2021_project.Urb.{Urb, Pam, fill_pam}
use cs451_2021_project.Urb.Deliver.{count_ack}

-- How many of the first `k` processes are marked.
unfoldable pub count_acks : ℕ → (ℕ → Bool) → ℕ
count_acks zero ack = 0
count_acks (suc k) ack = (if ack k then 1 else 0) + count_acks k ack

count_acks-le : (k : ℕ) (ack : ℕ → Bool) → count_acks k ack ≤ k
unfolding count_acks
count_acks-le zero ack = omega arith
count_acks-le (suc k) ack = ground (arith, count_acks-le k ack)

count_acks-update_above :
    (k : ℕ) (ack : ℕ → Bool) (s : ℕ) → k ≤ s → count_acks k (update ack s true) ≡ count_acks k ack
unfolding count_acks
count_acks-update_above zero ack s h = refl
count_acks-update_above (suc k) ack s h = ground (arith, count_acks-update_above k ack s)

count_acks-update :
    (k : ℕ) (ack : ℕ → Bool) (s : ℕ)
    → s < k
    → ack s ≡ false
    → count_acks k (update ack s true) ≡ count_acks k ack + 1
unfolding count_acks
count_acks-update zero ack s h e = absurd (omega arith)
count_acks-update (suc k) ack s h e =
    ground (arith, count_acks-update k ack s, count_acks-update_above k ack s)

none_marked : (k : ℕ) (ack : ℕ → Bool) (s : ℕ) → count_acks k ack ≡ 0 → s < k → ack s ≡ false
unfolding count_acks
none_marked zero ack s e h = absurd (omega arith)
none_marked (suc k) ack s e h = ground (arith, none_marked k ack s)

-- What holds of each entry: the sum counts the marks, and an entry that nobody has sent is not delivered.
abbrev pub CellIsValid : Pam → Type 0
CellIsValid pam =
    (pam.sum ≡ count_acks max_processes pam.ack) × ((1 ≤ pam.sum) ⊎ (pam.delivered ≡ false))

pub count_ack-CellIsValid :
    (pam : Pam) (s : ℕ)
    → s < max_processes
    → CellIsValid pam
    → 1 ≤ pam.sum
    → CellIsValid (count_ack pam s)
unfolding count_ack
count_ack-CellIsValid pam s h v p =
    ground (arith, count_acks-update max_processes pam.ack s, count_acks-le max_processes pam.ack)

pub fill_pam-CellIsValid :
    (pam : Pam) (s : ℕ) (content : List ℕ) (n : ℕ)
    → s < max_processes
    → CellIsValid pam
    → pam.sum ≡ 0
    → CellIsValid (fill_pam pam s content n)
unfolding fill_pam
fill_pam-CellIsValid pam s content n h v z =
    ground (arith, count_acks-update max_processes pam.ack s h, none_marked max_processes pam.ack s)

abbrev pub IsValid : Urb → Type 0
IsValid u = (os num : ℕ) → CellIsValid ((u.rows os).cells num)
