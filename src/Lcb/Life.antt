-- ===== src/Lcb/Life.antt =====
-- The calls of template_cpp/src/src/localized_causal_broadcast.c one after the other: the sender thread calls
-- `lcb_broadcast`, the receiver thread `lcb_deliver`.
use cs451_2021_project.Base.{
  ℕ, ◌≡◌, ◌<◌, ◌+◌, ◌*◌, ◌-◌, ap, [], ◌∷◌, ◌++◌, refl, subst, Bool, arith, List, Option, none, some,
  length, take, Option-cases, inl, inr,
}
use cs451_2021_project.Address.{SockAddr, u32}
use cs451_2021_project.Receive.{Datagram, Received, returned, exited, waiting, fault, unfinished}
use cs451_2021_project.Receive.Rule.{Ends}
use cs451_2021_project.Urb.{
  Urb, Pam, Row, pam_alloc, broadcast_from, broadcast_as, get_address, urb_broadcast,
}
use cs451_2021_project.Urb.Deliver.{UrbDelivery, urb_deliver}
use cs451_2021_project.Urb.Memory.{SameMemory, pam_alloc-bytes, urb_deliver-SameMemory}
use cs451_2021_project.Lcb.{Lcb, Entry, strlen, lcb_pack, send_clocked, lcb_broadcast}
use cs451_2021_project.Lcb.Deliver.{
  deliver_entry, fill_content, Loop, done, crashed, no_fuel, drain, after_drain, after_urb,
  lcb_deliver,
}
use cs451_2021_project.Lcb.Spec.{RowsAreSmall, Steps, here, more, deliver}
use cs451_2021_project.Lcb.Refine.{Steps-RowsAreSmall}
use cs451_2021_project.Lcb.Drain.{drain_finishes, drain_refines}
use cs451_2021_project.Lcb.Order.{Counts, IsOrdered, drain-IsOrdered}

-- The clock and the positions count the log, which is in localized causal order.
pub record IsCausal (s : Lcb) : Type 0 where
  pub small : RowsAreSmall s
  pub counts : Counts s
  pub ordered : IsOrdered s.config.causal s.log

-- The calls of the layer below, and what `lcb_broadcast` changes.
with_urb-IsCausal :
    (s : Lcb) (u : Urb) (lsn : ℕ) (buffer : List ℕ)
    → SameMemory s.urb u
    → IsCausal s
    → IsCausal (record s { lsn = lsn; broadcast_buffer = buffer; urb = u })
with_urb-IsCausal s u lsn buffer m k = record {
  small = λ i. ground (arith, m.bytes i, k.small i);
  counts = record { clock = k.counts.clock; position = k.counts.position };
  ordered = k.ordered;
}

-- Such a state, whose log is that of `s` and what was logged since.
pub record Continues (s t : Lcb) : Type 0 where
  pub causal : IsCausal t
  pub new : List Entry
  pub log : t.log ≡ new ++ s.log

abbrev pub Stays : Lcb → Lcb → Type 0
Stays s t = IsCausal t × (t.log ≡ s.log)

Steps-log : {s t : Lcb} {c : ℕ} → Steps s t c → (new : List Entry) × (t.log ≡ new ++ s.log)
unfolding deliver_entry
Steps-log here = ([], refl)
Steps-log (more steps (deliver entry array b n y)) =
    let (new, e) = Steps-log steps in
    (fill_content array entry ∷ new, ap (λ l. fill_content array entry ∷ l) e)

after_drain-Ends :
    (content : List ℕ) (s : Lcb) (d : UrbDelivery) (rest : List Datagram) (n : ℕ) (r : Loop Lcb)
    → IsCausal s
    → length rest < n
    → drain content s ≡ r
    → Ends (Stays s) (λ t _. Continues s t) n (after_drain d rest r)
after_drain-Ends content s d rest n (done t) k h e =
    let causal = drain-IsOrdered content s k.small k.counts k.ordered e in
    let steps = (drain_refines content s k.small e).1 in
    let (new, log) = Steps-log steps in
    (
      record {
        causal = record {
          small = Steps-RowsAreSmall steps k.small;
          counts = causal.0;
          ordered = causal.1;
        };
        new = new;
        log = log;
      },
      h,
    )
after_drain-Ends content s d rest n crashed k h e = tt
after_drain-Ends content s d rest n no_fuel k h e = drain_finishes content s k.small e

received-Stays :
    (s : Lcb) (u : Urb) → SameMemory s.urb u → IsCausal s → Stays s (record s { urb = u })
received-Stays s u m k = (with_urb-IsCausal s u s.lsn s.broadcast_buffer m k, refl)

put_log :
    (s : Lcb) (u : Urb) (n : ℕ) (r : Received Lcb UrbDelivery)
    → Ends (Stays (record s { urb = u })) (λ t _. Continues (record s { urb = u }) t) n r
    → Ends (Stays s) (λ t _. Continues s t) n r
put_log s u n (returned t d rest) (c, h) =
    (record { causal = c.causal; new = c.new; log = c.log }, h)
put_log s u n (exited t rest) c = (c.0, c.1)
put_log s u n (waiting t) c = (c.0, c.1)
put_log s u n fault c = tt
put_log s u n unfinished c = c

after_urb-Ends :
    (stack : List ℕ) (s : Lcb) (n : ℕ) (r : Received Urb UrbDelivery)
    → IsCausal s
    → Ends (SameMemory s.urb) (λ u _. SameMemory s.urb u) n r
    → Ends (Stays s) (λ t _. Continues s t) n (after_urb stack s r)
after_urb-Ends stack s n (returned u d rest) k (m, h) =
    put_log s u n (after_drain d rest (drain stack (record s { urb = u }))) (
      after_drain-Ends stack (record s { urb = u }) d rest n (drain stack (record s { urb = u }))
        (with_urb-IsCausal s u s.lsn s.broadcast_buffer m k) h refl)
after_urb-Ends stack s n (exited u rest) k m = received-Stays s u m k
after_urb-Ends stack s n (waiting u) k m = received-Stays s u m k
after_urb-Ends stack s n fault k m = tt
after_urb-Ends stack s n unfinished k m = m

-- Where the clock and the positions count the log, which is in localized causal order, and each row takes
-- less than 2 ^ 32 bytes, a call of `lcb_deliver` on any datagrams comes to an end within the fuel of the
-- model: it returns behind at least one datagram, exits, waits for the next datagram or accesses memory out
-- of bounds. In the first three cases the same holds again; if it returns, the log keeps what it held, else it
-- stays as it was.
pub lcb_deliver-Ends :
    (fresh_acks : ℕ → Bool) (fresh_pams : ℕ → Pam) (stack : List ℕ) (s : Lcb)
    (datagrams : List Datagram)
    → IsCausal s
    → Ends
        (Stays s)
        (λ t _. Continues s t)
        (length datagrams)
        (lcb_deliver fresh_acks fresh_pams stack s datagrams)
unfolding lcb_deliver
lcb_deliver-Ends fresh_acks fresh_pams stack s datagrams k =
    after_urb-Ends stack s (length datagrams) (urb_deliver fresh_acks fresh_pams s.urb datagrams) k
      (urb_deliver-SameMemory fresh_acks fresh_pams s.urb datagrams)

broadcast_from-SameMemory :
    (u : Urb) (own : SockAddr) (message : List ℕ) (n : ℕ) (row : Option Row) {v : Urb}
    → ((r : Row) → row ≡ some r → r.bytes ≡ (u.rows u.process_id).bytes)
    → broadcast_from u own message n row ≡ some v
    → SameMemory u v
broadcast_from-SameMemory u own message n none k e = absurd (cc)
broadcast_from-SameMemory u own message n (some row) k e = record {
  bytes = λ o. ground (arith, k row refl);
  n_processes = ground arith;
  process_id = ground arith;
  addresses = ground arith;
}

broadcast_as-SameMemory :
    (u : Urb) (message : List ℕ) (n : ℕ) (own : Option SockAddr) {v : Urb}
    → broadcast_as u message n own ≡ some v
    → SameMemory u v
broadcast_as-SameMemory u message n none e = absurd (cc)
broadcast_as-SameMemory u message n (some own) e =
    broadcast_from-SameMemory u own message n
      (pam_alloc (u.rows u.process_id) u.process_id u.count message n)
      (λ r made. pam_alloc-bytes (u.rows u.process_id) u.process_id u.count message n made)
      (ground arith)

urb_broadcast-SameMemory :
    (u : Urb) (message : List ℕ) (n : ℕ) {v : Urb}
    → urb_broadcast u message n ≡ some v
    → SameMemory u v
unfolding urb_broadcast
urb_broadcast-SameMemory u message n e =
    broadcast_as-SameMemory u message n (get_address u.addresses (u.process_id - 1)) (ground arith)

send_clocked-Stays :
    (s : Lcb) (length : Option ℕ) (buffer : Option (List ℕ)) {t : Lcb}
    → send_clocked s length buffer ≡ some t
    → IsCausal s
    → Stays s t
send_clocked-Stays s none buffer e k = absurd (cc)
send_clocked-Stays s (some length) none e k = absurd (cc)
send_clocked-Stays s (some length) (some buffer) e k =
    elim (Option-cases (urb_broadcast s.urb buffer (s.n_processes * 4 + 1 + length))) [
      | inl fails ↦ absurd (ground arith)
      | inr (u, sends) ↦
          subst (Stays s)
            {x = record s { lsn = u32 (s.lsn + 1); broadcast_buffer = buffer; urb = u }}
            (ground arith)
            (
              with_urb-IsCausal s u (u32 (s.lsn + 1)) buffer
                  (urb_broadcast-SameMemory s.urb buffer (s.n_processes * 4 + 1 + length) sends) k,
              refl,
            )
    ]

pub lcb_broadcast-Stays :
    (s : Lcb) (message : List ℕ) (n : ℕ) {t : Lcb}
    → lcb_broadcast s message n ≡ some t
    → IsCausal s
    → Stays s t
unfolding lcb_broadcast
lcb_broadcast-Stays s message n e k =
    send_clocked-Stays s (strlen message) (lcb_pack s (take n message)) (ground arith) k

-- A call of the sender thread, or of the receiver thread, that returns.
pub data Call (s : Lcb) : Lcb → Type 0 where
  send : {t : Lcb} (message : List ℕ) (n : ℕ) → lcb_broadcast s message n ≡ some t → Call s t
  receive :
      {t : Lcb} (fresh_acks : ℕ → Bool) (fresh_pams : ℕ → Pam) (stack : List ℕ)
      (datagrams rest : List Datagram) (d : UrbDelivery)
      → lcb_deliver fresh_acks fresh_pams stack s datagrams ≡ returned t d rest
      → Call s t

pub data Calls (s : Lcb) : Lcb → Type 0 where
  start : Calls s s
  then_call : {t u : Lcb} → Calls s t → Call t u → Calls s u

Call-IsCausal : {s t : Lcb} → Call s t → IsCausal s → IsCausal t
Call-IsCausal {s} (send message n e) k = (lcb_broadcast-Stays s message n e k).0
Call-IsCausal {s} (receive fresh_acks fresh_pams stack datagrams rest d e) k =
    (subst (Ends (Stays s) (λ t _. Continues s t) (length datagrams)) e
      (lcb_deliver-Ends fresh_acks fresh_pams stack s datagrams k)).0.causal

-- Whatever is broadcast and whatever arrives, in any order of the calls: from a state whose log is in
-- localized causal order, with the clock and the positions counting it and with rows of less than 2 ^ 32
-- bytes, the calls of `lcb_broadcast` and `lcb_deliver` lead to such states only.
pub Calls-IsCausal : {s t : Lcb} → Calls s t → IsCausal s → IsCausal t
Calls-IsCausal start k = k
Calls-IsCausal (then_call calls call) k = Call-IsCausal call (Calls-IsCausal calls k)
