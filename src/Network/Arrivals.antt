-- ===== src/Network/Arrivals.antt =====
-- A datagram that reaches a process: the message or the acknowledgement of template_cpp/src/src/stubborn_links.c
-- that it is.
use cs451_2021_project.Base.{
  ℕ, ◌≡◌, ◌≢◌, ◌<◌, ◌⊎◌, inl, inr, ap, sym, ◌∙◌, subst, subst₂, some, List, [], ◌∷◌, Elem, update,
}
use cs451_2021_project.Address.{SockAddr, get_index}
use cs451_2021_project.Receive.{Delivery, Datagram, returned, waiting}
use cs451_2021_project.StubbornLinks.{Links, ack_type, header, fill_buffer, sl_deliver}
use cs451_2021_project.StubbornLinks.Invariant.{IsValid}
use cs451_2021_project.StubbornLinks.Exchange.{message_arrives, ack_is_not_empty}
use cs451_2021_project.Network.{Message, delivery_from, Net, put, AreHosts}
use cs451_2021_project.Network.Tables.{put-Elem, put-keeps, put-has}
use cs451_2021_project.Network.Local.{ack_arrives}
use cs451_2021_project.Network.Invariant.{AckOk, WireOk, Grows, ProcessOk, ProcessOk-Grows}
use cs451_2021_project.Network.Steps.{ack_first-ProcessOk, reply-ProcessOk}
use cs451_2021_project.Network.Queues.{InQueue, acked, acked-IsValid, acked-InQueue}
use cs451_2021_project.Network.Reliable.{IsSound, update_all}

abbrev replied : Links → SockAddr → List ℕ → Links
replied s sender reply = record s { wire = record { peer = sender; bytes = reply } ∷ s.wire }

replied-IsValid :
    (s : Links) (sender : SockAddr) (reply : List ℕ) → IsValid s → IsValid (replied s sender reply)
replied-IsValid s sender reply v = record {
  small = v.small;
  addressed = v.addressed;
  in_range = v.in_range;
  own_index = v.own_index;
}

returned_ne_waiting :
    {s t : Links} {d : Delivery} {rest : List Datagram} → returned s d rest ≢ waiting t
returned_ne_waiting p = cc

module _ (count : ℕ) (address : ℕ → SockAddr) (hosts : AreHosts count address) where
  -- `b` returns a message of `a` and acknowledges it.
  got_message :
      {s : Net} (a b : ℕ) (m : Message) (reply : List ℕ)
      → a < count
      → Elem m (s.sent a b)
      → header (fill_buffer reply) ≡ some (ack_type, m.num)
      → IsSound count address hosts s
      → IsSound count address hosts (record s {
        links = update s.links b (replied (s.links b) (address a) reply);
        got = put s.got b a (delivery_from (address a) m);
      })
  got_message {s} a b m reply ha has read k = record {
    processes =
        update_all (λ c x. c < count → ProcessOk count address hosts s.sent got' c x) s.links b
          (replied (s.links b) (address a) reply)
          (λ h.
            reply-ProcessOk count address hosts s.sent got' b a (s.links b) reply ha ack
              (replied-IsValid (s.links b) (address a) reply (k.processes b h).valid)
              (ProcessOk-Grows count address hosts grows (k.processes b h)))
          (λ c other h. ProcessOk-Grows count address hosts grows (k.processes c h));
    held =
        update_all Held s.links b (replied (s.links b) (address a) reply) (more b)
          (λ c other. more c);
    messages = k.messages;
    unique = k.unique;
    created = λ c d x e. elim (put-Elem s.got b a (delivery_from (address a) m) d c x e) [
      | inl old ↦ k.created c d x old
      | inr (p, q, same) ↦ (
        m,
        subst (λ y. Elem m (s.sent c y)) p (subst (λ y. Elem m (s.sent y b)) q has),
        same ∙ ap (λ y. delivery_from (address y) m) q,
      )
    ];
  }
    where
      got' : ℕ → ℕ → List Delivery
      got' = put s.got b a (delivery_from (address a) m)

      grows : Grows count address hosts s.sent s.sent s.got got'
      grows = record {
        more_sent = λ c d x e. e;
        more_got = put-keeps s.got b a (delivery_from (address a) m);
      }

      ack : AckOk count address hosts s.sent got' b a reply
      ack = record {
        message = m;
        read = read;
        was_sent = has;
        got_it = put-has s.got b a (delivery_from (address a) m);
      }

      Held : ℕ → Links → Type 0
      Held c x =
          (d : ℕ)
          → c < count
          → d < count
          → (m' : Message) → Elem m' (s.sent c d)
          → InQueue x (get_index (address d)) m' ⊎ Elem (delivery_from (address c) m') (got' d c)

      more : (c : ℕ) → Held c (s.links c)
      more c d hc hd m' e = elim (k.held c d hc hd m' e) [
        | inl waits ↦ inl waits
        | inr got ↦ inr (
            put-keeps s.got b a (delivery_from (address a) m) d c (delivery_from (address c) m')
              got)
      ]

  -- `b` takes an acknowledgement of `a`.
  got_ack :
      {s : Net} (a b : ℕ) (bytes : List ℕ)
      → a < count
      → (ok : AckOk count address hosts s.sent s.got a b bytes) → IsSound count address hosts s
      → IsSound count address hosts
          (record s { links = update s.links b (acked (s.links b) (address a) ok.message.num) })
  got_ack {s} a b bytes ha ok k = record {
    processes =
        update_all (λ c x. c < count → ProcessOk count address hosts s.sent s.got c x) s.links b
          (acked (s.links b) (address a) ok.message.num)
          (λ h.
            ack_first-ProcessOk count address hosts s.sent s.got b a (s.links b) ok.message ha
              (k.unique b a) ok.was_sent ok.got_it
              (acked-IsValid (s.links b) (address a) ok.message.num (k.processes b h).valid)
              (k.processes b h))
          (λ c other h. k.processes c h);
    held =
        update_all Held s.links b (acked (s.links b) (address a) ok.message.num) still
          (λ c other d. k.held c d);
    messages = k.messages;
    unique = k.unique;
    created = k.created;
  }
    where
      Held : ℕ → Links → Type 0
      Held c x =
          (d : ℕ)
          → c < count
          → d < count
          → (m : Message) → Elem m (s.sent c d)
          → InQueue x (get_index (address d)) m ⊎ Elem (delivery_from (address c) m) (s.got d c)

      still : Held b (acked (s.links b) (address a) ok.message.num)
      still d hb hd m e = elim (k.held b d hb hd m e) [
        | inl waits ↦
            inl
              (acked-InQueue (s.links b) (address a) ok.message.num (get_index (address d)) m waits)
        | inr got ↦ inr got
      ]

  -- What a process has on the wire, as it arrives.
  wire_of :
      {s : Net} (a b : ℕ) (bytes : List ℕ)
      → a < count
      → b < count
      → Elem (record { peer = address b; bytes = bytes }) (s.links a).wire
      → IsSound count address hosts s
      → WireOk count address hosts s.sent s.got a b bytes
  wire_of a b bytes ha hb e k = (k.processes a ha).wired b hb bytes e

  message_of :
      {s : Net} (a b : ℕ) (m : Message) (bytes : List ℕ)
      → Elem m (s.sent a b)
      → bytes ≡ m.bytes
      → IsSound count address hosts s
      → (reply : List ℕ) × (sl_deliver (s.links b) (record { peer = address a; bytes = bytes } ∷ [])
          ≡ returned (replied (s.links b) (address a) reply) (delivery_from (address a) m) [])
        × (header (fill_buffer reply) ≡ some (ack_type, m.num))
  message_of {s} a b m bytes has same k =
      let is = k.messages a b m has in
      let (reply, arrives, read) =
        message_arrives (s.links b) (address a) m.bytes m.num is.0 is.1 is.2 in
      (
        reply,
        ap (λ x. sl_deliver (s.links b) (record { peer = address a; bytes = x } ∷ [])) same
            ∙ arrives,
        read,
      )

  pub deliver-IsSound :
      {s : Net} (a b : ℕ) (bytes : List ℕ) {t : Links} (d : Delivery)
      → a < count
      → b < count
      → Elem (record { peer = address b; bytes = bytes }) (s.links a).wire
      → sl_deliver (s.links b) (record { peer = address a; bytes = bytes } ∷ []) ≡ returned t d []
      → IsSound count address hosts s
      → IsSound count address hosts (record s { links = update s.links b t; got = put s.got b a d })
  deliver-IsSound {s} a b bytes {t} d ha hb w e k = elim (wire_of a b bytes ha hb w k) [
    | inl (m, has, same) ↦
        let (reply, arrives, read) = message_of a b m bytes has same k in
        subst₂
          (λ x y.
            IsSound count address hosts
              (record s { links = update s.links b x; got = put s.got b a y }))
          (cc) (cc) (got_message a b m reply ha has read k)
    | inr ok ↦ absurd (
        returned_ne_waiting (
          sym e
          ∙ ack_arrives (s.links b) (address a) bytes ok.message.num ok.read
              (ack_is_not_empty bytes ok.message.num ok.read)))
  ]

  pub absorb-IsSound :
      {s : Net} (a b : ℕ) (bytes : List ℕ) {t : Links}
      → a < count
      → b < count
      → Elem (record { peer = address b; bytes = bytes }) (s.links a).wire
      → sl_deliver (s.links b) (record { peer = address a; bytes = bytes } ∷ []) ≡ waiting t
      → IsSound count address hosts s
      → IsSound count address hosts (record s { links = update s.links b t })
  absorb-IsSound {s} a b bytes {t} ha hb w e k = elim (wire_of a b bytes ha hb w k) [
    | inl (m, has, same) ↦
        let (reply, arrives, read) = message_of a b m bytes has same k in
        absurd (returned_ne_waiting (sym arrives ∙ e))
    | inr ok ↦
        let arrives =
          ack_arrives (s.links b) (address a) bytes ok.message.num ok.read
            (ack_is_not_empty bytes ok.message.num ok.read) in
        subst (λ x. IsSound count address hosts (record s { links = update s.links b x })) (cc)
          (got_ack a b bytes ha ok k)
  ]
