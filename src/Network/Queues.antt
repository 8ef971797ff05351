-- ===== src/Network/Queues.antt =====
-- Which packets the operations of template_cpp/src/src/stubborn_links.c keep in the queues of a process.
use native.Mathlib.Decide.{ℕ_discrete}
use cs451_2021_project.Base.{
  ℕ, ◌≡◌, ◌⊎◌, inl, inr, refl, ap, sym, ◌∙◌, subst, true, List, [], ◌∷◌, ◌++◌, some, take, Elem,
  update, update_self, update_ne,
}
use cs451_2021_project.Address.{SockAddr, get_index}
use cs451_2021_project.LinkedList.{Packet}
use cs451_2021_project.StubbornLinks.{Links, sl_send, ack_type, ack_first, handle_packet}
use cs451_2021_project.StubbornLinks.Invariant.{IsValid, handle_packet-IsValid}
use cs451_2021_project.Network.{Message}
use cs451_2021_project.Network.Local.{
  new_packet, sl_send_lem, Looked, idle, removed, repeated, ack_first-keeps, Elem-before, Elem-last,
}

-- A message waits in a queue.
abbrev pub InQueue : Links → ℕ → Message → Type 0
InQueue s i m = (p : Packet) × Elem p (s.hashmap i) × (p.num ≡ m.num) × (p.message ≡ m.bytes)

pub sl_send-InQueue :
    (s : Links) (receiver : SockAddr) (buffer : List ℕ) (n num i : ℕ) (m : Message) {t : Links}
    → sl_send s receiver buffer n num ≡ some t
    → InQueue s i m
    → InQueue t i m
sl_send-InQueue s receiver buffer n num i m e (p, there, same_num, same_bytes) =
    let sends = sl_send_lem s receiver buffer n num e in
    (
      p,
      subst (λ f. Elem p (f i)) (sym sends.0)
          (elim (ℕ_discrete (get_index receiver) i) [
            | no other ↦
                subst (Elem p) (sym (update_ne s.hashmap (get_index receiver) i _ other)) there
            | yes at ↦
                subst
                  (λ x. Elem p (
                    update s.hashmap (get_index receiver)
                      (s.hashmap (get_index receiver) ++ new_packet buffer n num ∷ []) x))
                  at
                  (subst (Elem p) (sym (update_self s.hashmap (get_index receiver) _)) (
                    Elem-before (s.hashmap (get_index receiver)) p (new_packet buffer n num)
                      (subst (λ x. Elem p (s.hashmap x)) (sym at) there)))
          ]),
      same_num,
      same_bytes,
    )

pub sl_send-adds :
    (s : Links) (receiver : SockAddr) (buffer : List ℕ) (n num : ℕ) {t : Links}
    → sl_send s receiver buffer n num ≡ some t
    → InQueue t (get_index receiver) (record { num = num; bytes = take n buffer })
sl_send-adds s receiver buffer n num e =
    let sends = sl_send_lem s receiver buffer n num e in
    (
      new_packet buffer n num,
      subst (λ f. Elem (new_packet buffer n num) (f (get_index receiver))) (sym sends.0)
          (subst (Elem (new_packet buffer n num))
            (sym (update_self s.hashmap (get_index receiver) _))
            (Elem-last (s.hashmap (get_index receiver)) (new_packet buffer n num))),
      refl,
      refl,
    )

-- A message leaves a queue only with an acknowledged packet of its number.
pub Looked-InQueue :
    (s : Links) (i j : ℕ) (m : Message) {t : Links}
    → Looked s i t
    → InQueue s j m
    → InQueue t j m ⊎ ((p : Packet) × Elem p (s.hashmap j) × (p.num ≡ m.num) × (p.ack ≡ true))
Looked-InQueue s i j m (idle q w) (p, there, same_num, same_bytes) =
    inl (p, subst (λ f. Elem p (f j)) (sym q) there, same_num, same_bytes)
Looked-InQueue s i j m (repeated r list e q w) (p, there, same_num, same_bytes) =
    inl (p, subst (λ f. Elem p (f j)) (sym q) there, same_num, same_bytes)
Looked-InQueue s i j m {t} (removed r list first acked q w) (p, there, same_num, same_bytes) =
    elim (ℕ_discrete i j) [
      | no other ↦ inl (
        p,
        subst (λ f. Elem p (f j)) (sym q)
            (subst (Elem p) (sym (update_ne s.hashmap i j list other)) there),
        same_num,
        same_bytes,
      )
      | yes at ↦ split at (subst (Elem p) first (subst (λ x. Elem p (s.hashmap x)) (sym at) there))
    ]
  where
    split :
        i ≡ j
        → Elem p (r ∷ list)
        → InQueue t j m ⊎ ((x : Packet) × Elem x (s.hashmap j) × (x.num ≡ m.num) × (x.ack ≡ true))
    split at (inl e) = inr (p, there, same_num, ap (λ x. x.ack) e ∙ acked)
    split at (inr rest) = inl (
      p,
      subst (λ f. Elem p (f j)) (sym q)
          (subst (λ x. Elem p (update s.hashmap i list x)) at
            (subst (Elem p) (sym (update_self s.hashmap i list)) rest)),
      same_num,
      same_bytes,
    )

-- The links behind an acknowledgement.
abbrev pub acked : Links → SockAddr → ℕ → Links
acked s sender num = record s {
  hashmap = update s.hashmap (get_index sender) (ack_first num (s.hashmap (get_index sender)));
}

pub acked-IsValid :
    (s : Links) (sender : SockAddr) (num : ℕ) → IsValid s → IsValid (acked s sender num)
unfolding handle_packet
acked-IsValid s sender num v = handle_packet-IsValid s sender ack_type num v refl

pub acked-InQueue :
    (s : Links) (sender : SockAddr) (num i : ℕ) (m : Message)
    → InQueue s i m
    → InQueue (acked s sender num) i m
acked-InQueue s sender num i m (p, there, same_num, same_bytes) =
    elim (ℕ_discrete (get_index sender) i) [
      | no other ↦ (
        p,
        subst (Elem p) (sym (update_ne s.hashmap (get_index sender) i _ other)) there,
        same_num,
        same_bytes,
      )
      | yes at ↦
          let (q, here, n, b) =
            ack_first-keeps num (s.hashmap (get_index sender)) p
              (subst (λ x. Elem p (s.hashmap x)) (sym at) there) in
          (
            q,
            subst
                (λ x. Elem q (
                  update s.hashmap (get_index sender) (ack_first num (s.hashmap (get_index sender)))
                    x))
                at (subst (Elem q) (sym (update_self s.hashmap (get_index sender) _)) here),
            n ∙ same_num,
            b ∙ same_bytes,
          )
    ]
