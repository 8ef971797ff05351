-- ===== src/Lcb/Tests.antt =====
-- Two messages of one process, the second of which depends on the first.
use cs451_2021_project.Base.{
  ℕ, ◌↔◌, ◌≡◌, ◌≢◌, refl, arith, true, [], ◌∷◌, ◌++◌, none, some, replicate, ◌==◌, if◌then◌else◌,
  ltb, ◌&&◌, List, inl, drop, false,
}
use cs451_2021_project.Serializer.{deserialize, of_bytes}
use cs451_2021_project.PerfectLinks.Tests.{initial_perfect, peer}
use cs451_2021_project.Urb.{get_address, Pam, Row, zero_pam, accessible}
use cs451_2021_project.Address.{u32}
use cs451_2021_project.Address.Room.{initial-HasRoom}
use cs451_2021_project.Receive.Rule.{Ends}
use cs451_2021_project.PerfectLinks.Sending.{Queued}
use cs451_2021_project.Urb.Sending.{urb_packed}
use cs451_2021_project.Lcb.{Lcb, check_causes, check_local_causality, strlen, lcb_broadcast}
use cs451_2021_project.Lcb.Deliver.{
  lcb_deliver, done, drain, drain_all, drain_rows, visit_row, drain_row, next_of, read_entry,
  entry_fields, clock_of_bytes, deliver_entry, memory,
}
use cs451_2021_project.Lcb.Spec.{IsReady, RowsAreSmall, Steps, check_local_causality_iff}
use cs451_2021_project.Lcb.Refine.{IsLeft}
use cs451_2021_project.Lcb.Order.{count_from, Counts, IsOrdered, drain-IsOrdered}
use cs451_2021_project.Lcb.Capacity.{lcb_broadcast_overflows}
use cs451_2021_project.Lcb.Sending.{CanSend, lcb_packed, lcb_broadcast_queues}
use cs451_2021_project.Lcb.Life.{
  IsCausal, Stays, Continues, Calls, start, then_call, send, Calls-IsCausal, lcb_deliver-Ends,
}
use cs451_2021_project.Lcb.Total.{CanRead, drain_total}

-- The message of process 1 that follows `clock` messages of its own.
abbrev stored : ℕ → Pam
stored clock = record zero_pam {
  delivered = true;
  sum = 1;
  content = (0 ∷ 0 ∷ 0 ∷ 0 ∷ clock ∷ 0 ∷ 0 ∷ 0 ∷ b'1' ∷ 0 ∷ []) ++ replicate 246 0;
  n = 10;
}

abbrev row : ℕ → Row
row i = record {
  cells = λ num. if i == 1 && ltb num 2 then stored num else zero_pam;
  bytes = if ltb i 2 then 1200 else 0;
  size = if ltb i 2 then 3 else 0;
  used = if i == 1 then 2 else 0;
}

abbrev initial : Lcb
initial = record {
  urb = record {
    beb = record { perfect = initial_perfect; addresses = peer ∷ [] };
    rows = row;
    n_processes = 1;
    process_id = 1;
    addresses = peer ∷ [];
    count = 2;
  };
  config = record { process_id = 1; n_messages = 2; causal = λ _. 0 ∷ [] };
  v_clock = λ _. 0;
  lsn = 2;
  process_id = 1;
  n_processes = 2;
  broadcast_buffer = replicate 265 0;
  delivered = λ _. 0;
  log = [];
}

initial-RowsAreSmall : RowsAreSmall initial
initial-RowsAreSmall i = ground arith

initial-Counts : Counts initial
unfolding count_from
initial-Counts = record { clock = λ i. refl; position = λ i. refl }

-- Both messages are delivered.
drained : (t : Lcb) × (drain [] initial ≡ done t)
unfolding drain drain_all drain_rows visit_row drain_row next_of read_entry entry_fields
    clock_of_bytes deliver_entry memory check_local_causality check_causes deserialize of_bytes
    accessible
drained = (_, refl)

both_delivered : (drained.0.v_clock 1 ≡ 2) × (drained.0.delivered 1 ≡ 2)
unfolding drained deliver_entry
both_delivered = (refl, refl)

drain-IsOrdered_example : Counts drained.0 × IsOrdered drained.0.config.causal drained.0.log
drain-IsOrdered_example =
    drain-IsOrdered [] initial initial-RowsAreSmall initial-Counts tt drained.1

check_local_causality_iff_example :
    ((check_local_causality initial (λ j. if j == 1 then 1 else 0) 1 ≡ some true)
      ↔ IsReady initial (λ j. if j == 1 then 1 else 0) 1)
    × ((check_local_causality initial (λ j. if j == 1 then 1 else 0) 1 ≡ some false)
        ↔ (¬ IsReady initial (λ j. if j == 1 then 1 else 0) 1))
check_local_causality_iff_example =
    check_local_causality_iff initial (λ j. if j == 1 then 1 else 0) 1 (omega arith)
      (omega arith, tt)

-- 60 processes, whose clocks have 61 entries.
abbrev sixty : Lcb
sixty = record initial { n_processes = 61 }

one_byte : strlen (b'1' ∷ 0 ∷ []) ≡ some 1
unfolding strlen
one_byte = refl

some_address : sixty.urb.beb.addresses ≢ []
some_address e = absurd (cc)

lcb_broadcast_overflows_example : lcb_broadcast sixty (b'1' ∷ 0 ∷ []) 2 ≡ none
lcb_broadcast_overflows_example =
    lcb_broadcast_overflows sixty (b'1' ∷ 0 ∷ []) 2 1 one_byte some_address (omega arith)

initial-CanRead : CanRead initial
unfolding accessible
initial-CanRead = record {
  rows_fit = omega arith;
  causes_fit = λ i. (omega arith, tt);
  small = initial-RowsAreSmall;
  rows = λ i b. record {
    end = 2;
    behind = omega arith;
    within = ground arith;
    last = ground arith;
    readable = λ num d. ground arith;
  };
}

drain_total_example :
    (t : Lcb) × (drain [] initial ≡ done t) × ((c : ℕ) × Steps initial t c) × IsLeft t 1
drain_total_example = drain_total [] initial 1 initial-CanRead (omega arith)

initial-CanSend : CanSend initial
unfolding accessible get_address
initial-CanSend = record {
  below = record {
    own = peer;
    is_own = refl;
    positive = λ e. absurd (omega arith);
    below = omega arith;
    place = refl;
    differ = (tt, tt);
    room = initial-HasRoom (peer ∷ []) (omega arith);
  };
  clock_fits = omega arith;
  in_clock = omega arith;
  buffer_size = refl;
}

abbrev text : List ℕ
text = b'1' ∷ 0 ∷ []

lcb_broadcast_queues_example :
    (t : Lcb) × (lcb_broadcast initial text 1 ≡ some t)
    × (t.lsn ≡ u32 3)
    × (drop 9 t.broadcast_buffer ≡ drop 9 initial.broadcast_buffer)
    × Queued initial_perfect.links t.urb.beb.perfect.links peer
        (urb_packed 0xf92a 2 (lcb_packed initial (b'1' ∷ [])))
unfolding initial-CanSend
lcb_broadcast_queues_example =
    lcb_broadcast_queues initial text 1 peer initial-CanSend one_byte (omega arith) (omega arith)
      (inl refl)

initial-IsCausal : IsCausal initial
initial-IsCausal = record { small = initial-RowsAreSmall; counts = initial-Counts; ordered = tt }

-- A broadcast, and what is left when no datagram arrives.
sent : (t : Lcb) × Calls initial t
sent =
    (lcb_broadcast_queues_example.0, then_call start (send text 1 lcb_broadcast_queues_example.1))

Calls-IsCausal_example : IsCausal sent.0
Calls-IsCausal_example = Calls-IsCausal sent.1 initial-IsCausal

lcb_deliver-Ends_example :
    Ends
      (Stays initial)
      (λ t _. Continues initial t)
      1
      (lcb_deliver
        (λ _. false)
        (λ _. zero_pam)
        []
        initial
        (record { peer = peer; bytes = text } ∷ []))
lcb_deliver-Ends_example =
    lcb_deliver-Ends (λ _. false) (λ _. zero_pam) [] initial
      (record { peer = peer; bytes = text } ∷ []) initial-IsCausal
