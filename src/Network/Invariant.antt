-- ===== src/Network/Invariant.antt =====
-- What holds of processes that run template_cpp/src/src/stubborn_links.c, whatever their network does.
use native.Mathlib.Decide.{ℕ_discrete}
use cs451_2021_project.Base.{
  ℕ, ◌≡◌, ◌<◌, ◌⊎◌, inl, inr, refl, ap, sym, ◌∙◌, subst, true, List, some, take, Elem, update_self,
  update_ne,
}
use cs451_2021_project.Address.{SockAddr, get_index}
use cs451_2021_project.LinkedList.{Packet}
use cs451_2021_project.Receive.{Delivery}
use cs451_2021_project.StubbornLinks.{Links, ack_type, sl_send, header, fill_buffer}
use cs451_2021_project.StubbornLinks.Invariant.{IsValid, sl_send-IsValid}
use cs451_2021_project.Network.{Message, delivery_from, AreHosts}
use cs451_2021_project.Network.Local.{new_packet, sl_send_lem, Elem-behind}

module _ (count : ℕ) (address : ℕ → SockAddr) (hosts : AreHosts count address) where
  -- For given tables: a packet of `a` for `b` is a message that was sent, and if it is marked, `b` got it.
  pub record PacketOk (sent : ℕ → ℕ → List Message) (got : ℕ → ℕ → List Delivery) (a b : ℕ)
      (p : Packet) : Type 0 where
    pub message : Message
    pub was_sent : Elem message (sent a b)
    pub same_num : p.num ≡ message.num
    pub same_bytes : p.message ≡ message.bytes
    pub got_it : p.ack ≡ true → Elem (delivery_from (address a) message) (got b a)

  -- An acknowledgement that `a` gives `b` is for a message that `a` got.
  pub record AckOk (sent : ℕ → ℕ → List Message) (got : ℕ → ℕ → List Delivery) (a b : ℕ)
      (bytes : List ℕ) : Type 0 where
    pub message : Message
    pub read : header (fill_buffer bytes) ≡ some (ack_type, message.num)
    pub was_sent : Elem message (sent b a)
    pub got_it : Elem (delivery_from (address b) message) (got a b)

  -- What `a` has on the wire for `b`.
  abbrev pub WireOk : (ℕ → ℕ → List Message) → (ℕ → ℕ → List Delivery) → ℕ → ℕ → List ℕ → Type 0
  WireOk sent got a b bytes =
      ((m : Message) × Elem m (sent a b) × (bytes ≡ m.bytes)) ⊎ AckOk sent got a b bytes

  pub record ProcessOk (sent : ℕ → ℕ → List Message) (got : ℕ → ℕ → List Delivery) (a : ℕ)
      (s : Links) : Type 0 where
    pub valid : IsValid s
    pub queued :
        (b : ℕ)
        → b < count
        → (p : Packet) → Elem p (s.hashmap (get_index (address b)))
        → PacketOk sent got a b p
    pub wired :
        (b : ℕ)
        → b < count
        → (bytes : List ℕ) → Elem (record { peer = address b; bytes = bytes }) s.wire
        → WireOk sent got a b bytes

  -- More was sent and got.
  pub record Grows (sent sent' : ℕ → ℕ → List Message) (got got' : ℕ → ℕ → List Delivery)
      : Type 0 where
    pub more_sent : (a b : ℕ) (m : Message) → Elem m (sent a b) → Elem m (sent' a b)
    pub more_got : (a b : ℕ) (d : Delivery) → Elem d (got a b) → Elem d (got' a b)

  pub ProcessOk-Grows :
      {sent sent' : ℕ → ℕ → List Message} {got got' : ℕ → ℕ → List Delivery} {a : ℕ} {s : Links}
      → Grows sent sent' got got'
      → ProcessOk sent got a s
      → ProcessOk sent' got' a s
  ProcessOk-Grows {sent} {sent'} {got} {got'} {a} g k = record {
    valid = k.valid;
    queued = λ b h p e.
        let q = k.queued b h p e in
        record {
          message = q.message;
          was_sent = g.more_sent a b q.message q.was_sent;
          same_num = q.same_num;
          same_bytes = q.same_bytes;
          got_it = λ x. g.more_got b a (delivery_from (address a) q.message) (q.got_it x);
        };
    wired = λ b h bytes e. wider b bytes (k.wired b h bytes e);
  }
    where
      wider : (b : ℕ) (bytes : List ℕ) → WireOk sent got a b bytes → WireOk sent' got' a b bytes
      wider b bytes (inl (m, s, e)) = inl (m, g.more_sent a b m s, e)
      wider b bytes (inr k) = inr (record {
        message = k.message;
        read = k.read;
        was_sent = g.more_sent b a k.message k.was_sent;
        got_it = g.more_got a b (delivery_from (address b) k.message) k.got_it;
      })

  pub sl_send-ProcessOk :
      {sent : ℕ → ℕ → List Message} {got : ℕ → ℕ → List Delivery} (a b : ℕ) (s : Links)
      (buffer : List ℕ) (n num : ℕ) {t : Links}
      → b < count
      → Elem (record { num = num; bytes = take n buffer }) (sent a b)
      → sl_send s (address b) buffer n num ≡ some t
      → ProcessOk sent got a s
      → ProcessOk sent got a t
  sl_send-ProcessOk {sent} {got} a b s buffer n num {t} hb has e k =
      let sends = sl_send_lem s (address b) buffer n num e in
      record {
        valid = sl_send-IsValid s (address b) buffer n num (hosts.ports b hb) k.valid e;
        queued = λ c hc p m. elim (ℕ_discrete (get_index (address b)) (get_index (address c))) [
          | no other ↦ k.queued c hc p (
              subst (Elem p)
                (ap (λ f. f (get_index (address c))) sends.0
                  ∙ update_ne s.hashmap (get_index (address b)) (get_index (address c)) _ other)
                m)
          | yes same ↦
              subst (λ x. PacketOk sent got a x p) (hosts.differ b c hb hc same)
                (last p (
                  Elem-behind (s.hashmap (get_index (address b))) p (new_packet buffer n num) (
                    subst (Elem p)
                      (ap (λ i. t.hashmap i) (sym same)
                        ∙ ap (λ f. f (get_index (address b))) sends.0
                        ∙ update_self s.hashmap (get_index (address b)) _)
                      m)))
        ];
        wired = λ c hc bytes m. k.wired c hc bytes (subst (Elem _) sends.1 m);
      }
    where
      last :
          (p : Packet)
          → Elem p (s.hashmap (get_index (address b))) ⊎ (p ≡ new_packet buffer n num)
          → PacketOk sent got a b p
      last p (inl old) = k.queued b hb p old
      last p (inr new) = subst (PacketOk sent got a b) (sym new) (record {
        message = record { num = num; bytes = take n buffer };
        was_sent = has;
        same_num = refl;
        same_bytes = refl;
        got_it = λ x. cc;
      })
