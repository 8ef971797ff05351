-- ===== src/PerfectLinks/Delivered.antt =====
-- The messages that calls of `pl_deliver` of template_cpp/src/src/perfect_links.c return in a row.
use cs451_2021_project.Base.{ℕ, zero, suc, ◌≡◌, subst₂, Bool, List, [], ◌∷◌, length, All}
use cs451_2021_project.Receive.{Datagram, Received, returned, exited, waiting, fault, unfinished}
use cs451_2021_project.Receive.Rule.{Ends}
use cs451_2021_project.PerfectLinks.{Perfect, PlDelivery, pl_deliver}
use cs451_2021_project.PerfectLinks.Recorded.{Recorded, CountsFit, Kept, New, pl_deliver-Ends}

abbrev pub keys_after :
    (Perfect → List Datagram → List (ℕ × ℕ)) → Received Perfect PlDelivery → List (ℕ × ℕ)
keys_after more (returned t d rest) = (d.index, d.seq_num) ∷ more t rest
keys_after more (exited t rest) = []
keys_after more (waiting t) = []
keys_after more fault = []
keys_after more unfinished = []

-- The keys that up to `calls` calls in a row return, as the receiving thread makes them.
unfoldable pub deliver_keys : (ℕ → Bool) → ℕ → Perfect → List Datagram → List (ℕ × ℕ)
deliver_keys fresh zero s datagrams = []
deliver_keys fresh (suc calls) s datagrams =
    keys_after (λ t rest. deliver_keys fresh calls t rest) (pl_deliver fresh s datagrams)

abbrev pub AllNew : Perfect → List (ℕ × ℕ) → Type 0
AllNew s keys = All (λ key. ¬ Recorded s key.0 key.1) keys

-- No key occurs twice.
abbrev pub Distinct : List (ℕ × ℕ) → Type 0
Distinct [] = Unit
Distinct (key ∷ keys) =
    All (λ other. ¬ ((key.0 ≡ other.0) × (key.1 ≡ other.1))) keys × Distinct keys

AllNew-earlier : (s t : Perfect) (keys : List (ℕ × ℕ)) → Kept s t → AllNew t keys → AllNew s keys
AllNew-earlier s t [] k a = tt
AllNew-earlier s t (key ∷ keys) k a = (λ r. a.0 (k.1 key.0 key.1 r), AllNew-earlier s t keys k a.1)

differ_from_Recorded :
    (t : Perfect) (i q : ℕ) (keys : List (ℕ × ℕ))
    → Recorded t i q
    → AllNew t keys
    → All (λ other. ¬ ((i ≡ other.0) × (q ≡ other.1))) keys
differ_from_Recorded t i q [] r a = tt
differ_from_Recorded t i q (key ∷ keys) r a =
    (λ e. a.0 (subst₂ (Recorded t) e.0 e.1 r), differ_from_Recorded t i q keys r a.1)

keys_after-Ends :
    (more : Perfect → List Datagram → List (ℕ × ℕ)) (s : Perfect) (n : ℕ)
    (r : Received Perfect PlDelivery)
    → Ends (Kept s) (New s) n r
    → ((t : Perfect) (rest : List Datagram)
        → CountsFit t
        → AllNew t (more t rest) × Distinct (more t rest))
    → AllNew s (keys_after more r) × Distinct (keys_after more r)
keys_after-Ends more s n (returned t d rest) e ih =
    let later = ih t rest e.0.0.0 in
    (
      (e.0.1, AllNew-earlier s t (more t rest) e.0.0 later.0),
      (differ_from_Recorded t d.index d.seq_num (more t rest) e.0.2 later.0, later.1),
    )
keys_after-Ends more s n (exited t rest) e ih = (tt, tt)
keys_after-Ends more s n (waiting t) e ih = (tt, tt)
keys_after-Ends more s n fault e ih = (tt, tt)
keys_after-Ends more s n unfinished e ih = (tt, tt)

deliver_keys_ends :
    (fresh : ℕ → Bool) (calls : ℕ) (s : Perfect) (datagrams : List Datagram)
    → CountsFit s
    → AllNew s (deliver_keys fresh calls s datagrams)
      × Distinct (deliver_keys fresh calls s datagrams)
unfolding deliver_keys
deliver_keys_ends fresh zero s datagrams c = (tt, tt)
deliver_keys_ends fresh (suc calls) s datagrams c =
    keys_after-Ends (λ t rest. deliver_keys fresh calls t rest) s (length datagrams)
      (pl_deliver fresh s datagrams) (pl_deliver-Ends fresh s datagrams c)
      (λ t rest c'. deliver_keys_ends fresh calls t rest c')

-- However many calls of `pl_deliver` are made in a row, and whatever datagrams arrive, no pair of a
-- sender's index and a number is returned twice, if each count `n_ack` is below 2 ^ 32 at the start.
pub deliver_keys-Distinct :
    (fresh : ℕ → Bool) (calls : ℕ) (s : Perfect) (datagrams : List Datagram)
    → CountsFit s
    → Distinct (deliver_keys fresh calls s datagrams)
deliver_keys-Distinct fresh calls s datagrams c = (deliver_keys_ends fresh calls s datagrams c).1
