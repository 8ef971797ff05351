-- ===== src/Network/Tests.antt =====
-- Two processes on the local host, at the ports 11001 and 11002: the first sends the second a message, which arrives.
use cs451_2021_project.Base.{
  ℕ, zero, suc, ◌≡◌, ◌≢◌, ◌<◌, ◌⊎◌, inl, refl, sym, ◌∙◌, arith, true, List, [], ◌∷◌, some, Elem,
  Option,
}
use cs451_2021_project.Address.{SockAddr, get_index}
use cs451_2021_project.LinkedList.{Packet, insert_last}
use cs451_2021_project.Receive.{returned}
use cs451_2021_project.Serializer.{serialize, deserialize, to_bytes, of_bytes}
use cs451_2021_project.StubbornLinks.{
  Links, sl_init, sl_send, serve, sl_deliver, header, fill_buffer, received_size, ack_message,
  handle_packet,
}
use cs451_2021_project.StubbornLinks.Invariant.{initial_links}
use cs451_2021_project.Network.{
  Message, IsMessage, delivery_from, Net, send, look, deliver, Runs, start, turn, AreHosts,
}
use cs451_2021_project.Network.Promises.{no_creation, no_loss}
use cs451_2021_project.Network.Thread.{Later}
use cs451_2021_project.Network.Progress.{can_drain}

abbrev address : ℕ → SockAddr
address zero = record { sin_family = 2; sin_port = 0xf92a; s_addr = 0x0100007f }
address (suc n) = record { sin_family = 2; sin_port = 0xfa2a; s_addr = 0x0100007f }

index_0 : get_index (address 0) ≡ 1
unfolding get_index
index_0 = refl

index_1 : get_index (address 1) ≡ 2
unfolding get_index
index_1 = refl

two : (P : ℕ → Type 0) → P 0 → P 1 → (a : ℕ) → a < 2 → P a
two P p q zero h = p
two P p q (suc zero) h = q
two P p q (suc (suc a)) h = absurd (omega arith)

hosts : AreHosts 2 address
hosts = record {
  ports = two (λ a. (address a).sin_port ≢ 0) (omega arith) (omega arith);
  differ = λ a b ha hb.
      two (λ x. (y : ℕ) → y < 2 → get_index (address x) ≡ get_index (address y) → x ≡ y)
        (two (λ y. get_index (address 0) ≡ get_index (address y) → 0 ≡ y) (λ e. refl)
          (λ e. absurd (omega (arith, sym index_0 ∙ e ∙ index_1))))
        (two (λ y. get_index (address 1) ≡ get_index (address y) → 1 ≡ y)
          (λ e. absurd (omega (arith, sym index_1 ∙ e ∙ index_0))) (λ e. refl))
        a ha b hb;
}

abbrev text : List ℕ
text = b'm' ∷ 0 ∷ 0 ∷ 0 ∷ 0 ∷ b'1' ∷ []

abbrev message : Message
message = record { num = 0; bytes = text }

message-IsMessage : IsMessage message
unfolding header fill_buffer received_size deserialize of_bytes
message-IsMessage = (refl, omega arith, omega arith)

queued : (t : Links) × (sl_send (sl_init initial_links) (address 1) text 6 0 ≡ some t)
unfolding sl_send sl_init insert_last get_index
queued = (_, refl)

abbrev before : Links
before = serve true queued.0 2

on_wire : Elem (record { peer = address 1; bytes = text }) before.wire
unfolding serve queued sl_init
on_wire = inl refl

arrived :
    (t : Links) × (sl_deliver
        (sl_init initial_links)
        (record { peer = address 0; bytes = text } ∷ [])
      ≡ returned t (delivery_from (address 0) message) [])
unfolding sl_deliver handle_packet ack_message header fill_buffer received_size deserialize
    serialize of_bytes to_bytes
arrived = (_, refl)

run :
    (s : Net) × Runs 2 address s
    × Elem message (s.sent 0 1)
    × Elem (delivery_from (address 0) message) (s.got 1 0)
run = (
  _,
  turn
      (turn
        (turn start (send 0 1 text 6 0 (omega arith) (omega arith) message-IsMessage tt queued.1))
        (look 0 2 true (omega arith)))
      (deliver 0 1 text (delivery_from (address 0) message) (omega arith) (omega arith) on_wire
        arrived.1),
  inl refl,
  inl refl,
)

no_creation_example :
    (m : Message) × Elem m (run.0.sent 0 1)
    × (delivery_from (address 0) message ≡ delivery_from (address 0) m)
no_creation_example =
    no_creation 2 address hosts run.1 0 1 (delivery_from (address 0) message) run.3

no_loss_example :
    (((p : Packet) × Elem p ((run.0.links 0).hashmap (get_index (address 1)))
        × (p.num ≡ 0)
        × (p.message ≡ text))
      ⊎ Elem (delivery_from (address 0) message) (run.0.got 1 0))
    × ((run.0.links 0).hashmap (get_index (address 1)) ≡ []
        → Elem (delivery_from (address 0) message) (run.0.got 1 0))
no_loss_example = no_loss 2 address hosts run.1 0 1 (omega arith) (omega arith) message run.2

can_drain_example :
    (t : Net) × (at : Option ℕ) × Later 2 address 0 run.0 (some 3) t at
    × (t.sent ≡ run.0.sent)
    × ((t.links 0).hashmap (get_index (address 1)) ≡ [])
    × ((m : Message) → Elem m (run.0.sent 0 1) → Elem (delivery_from (address 0) m) (t.got 1 0))
    × ((t.links 0).send_forever ≡ true)
unfolding run queued serve sl_init
can_drain_example = can_drain 2 address hosts run.1 0 1 (omega arith) (omega arith) refl (some 3)
