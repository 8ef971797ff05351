-- ===== src/Network/Steps.antt =====
-- What the operations of template_cpp/src/src/stubborn_links.c keep of one process among others.
use native.Mathlib.Decide.{ℕ_discrete}
use cs451_2021_project.Base.{
  ℕ, ◌≡◌, ◌<◌, ◌⊎◌, inl, inr, refl, ap, sym, ◌∙◌, subst, Bool, List, ◌∷◌, Elem, update, update_self,
  update_ne,
}
use cs451_2021_project.Address.{SockAddr, get_index}
use cs451_2021_project.LinkedList.{Packet}
use cs451_2021_project.Receive.{Delivery}
use cs451_2021_project.StubbornLinks.{Links, serve, ack_first}
use cs451_2021_project.StubbornLinks.Invariant.{IsValid, serve-IsValid}
use cs451_2021_project.Network.{Message, delivery_from, AreHosts}
use cs451_2021_project.Network.Local.{
  Looked, idle, removed, repeated, serve-Looked, ack_first-Elem, IsMarked,
}
use cs451_2021_project.Network.Invariant.{PacketOk, AckOk, WireOk, ProcessOk}

module _ (count : ℕ) (address : ℕ → SockAddr) (hosts : AreHosts count address)
    (sent : ℕ → ℕ → List Message) (got : ℕ → ℕ → List Delivery) (a : ℕ) where
  abbrev Ok : Links → Type 0
  Ok s = ProcessOk count address hosts sent got a s

  Looked-Ok : (s : Links) (i : ℕ) {t : Links} → IsValid t → Looked s i t → Ok s → Ok t
  Looked-Ok s i v (idle q w) k = record {
    valid = v;
    queued = λ b h p m. k.queued b h p (subst (λ f. Elem p (f (get_index (address b)))) q m);
    wired = λ b h bytes m. k.wired b h bytes (subst (Elem _) w m);
  }
  Looked-Ok s i {t} v (removed p list first acked q w) k = record {
    valid = v;
    queued = λ b h r m.
        k.queued b h r
          (still r (get_index (address b)) (subst (λ f. Elem r (f (get_index (address b)))) q m));
    wired = λ b h bytes m. k.wired b h bytes (subst (Elem _) w m);
  }
    where
      still : (r : Packet) (j : ℕ) → Elem r (update s.hashmap i list j) → Elem r (s.hashmap j)
      still r j m = elim (ℕ_discrete i j) [
        | no other ↦ subst (Elem r) (update_ne s.hashmap i j list other) m
        | yes same ↦
            subst (λ x. Elem r (s.hashmap x)) same
              (subst (Elem r) (sym first) (
                inr (
                  subst (Elem r)
                    (ap (update s.hashmap i list) (sym same) ∙ update_self s.hashmap i list) m)))
      ]
  Looked-Ok s i {t} v (repeated p list first q w) k = record {
    valid = v;
    queued = λ b h r m. k.queued b h r (subst (λ f. Elem r (f (get_index (address b)))) q m);
    wired = λ b h bytes m. on_wire b h bytes (subst (Elem _) w m);
  }
    where
      on_wire :
          (b : ℕ)
          → b < count
          → (bytes : List ℕ)
          → Elem
              (record { peer = address b; bytes = bytes })
              (record { peer = s.addresses i; bytes = p.message } ∷ s.wire)
          → WireOk count address hosts sent got a b bytes
      on_wire b h bytes (inr old) = k.wired b h bytes old
      on_wire b h bytes (inl new) =
          let to : address b ≡ s.addresses i = ap (λ d. d.peer) new in
          let index : get_index (address b) ≡ i =
            ap get_index to ∙ k.valid.own_index i (k.valid.addressed i (λ e. absurd (cc))) in
          let ok = k.queued b h p (
            subst (λ x. Elem p (s.hashmap x)) (sym index)
              (subst (Elem p) (sym first) (inl refl))) in
          inl (ok.message, ok.was_sent, ap (λ d. d.bytes) new ∙ ok.same_bytes)

  pub serve-ProcessOk : (accepts : Bool) (s : Links) (i : ℕ) → Ok s → Ok (serve accepts s i)
  serve-ProcessOk accepts s i k =
      Looked-Ok s i (serve-IsValid accepts s i k.valid) (serve-Looked accepts s i) k

  -- An acknowledgement of `b` that `a` handles, for a message of `a` that `b` got.
  pub ack_first-ProcessOk :
      (b : ℕ) (s : Links) (message : Message)
      → b < count
      → ((m m' : Message) → Elem m (sent a b) → Elem m' (sent a b) → m.num ≡ m'.num → m ≡ m')
      → Elem message (sent a b)
      → Elem (delivery_from (address a) message) (got b a)
      → IsValid (record s {
        hashmap =
            update s.hashmap
              (get_index (address b))
              (ack_first message.num (s.hashmap (get_index (address b))));
      })
      → Ok s
      → Ok (record s {
        hashmap =
            update s.hashmap
              (get_index (address b))
              (ack_first message.num (s.hashmap (get_index (address b))));
      })
  ack_first-ProcessOk b s message hb unique has got_it v k = record {
    valid = v;
    queued = λ c hc p m. elim (ℕ_discrete (get_index (address b)) (get_index (address c))) [
      | no other ↦ k.queued c hc p (
          subst (Elem p)
            (update_ne s.hashmap (get_index (address b)) (get_index (address c)) _ other) m)
      | yes same ↦
          subst (λ x. PacketOk count address hosts sent got a x p) (hosts.differ b c hb hc same)
            (marked p (
              ack_first-Elem message.num (s.hashmap (get_index (address b))) p (
                subst (Elem p)
                  (ap (update s.hashmap (get_index (address b)) _) (sym same)
                    ∙ update_self s.hashmap (get_index (address b)) _)
                  m)))
    ];
    wired = k.wired;
  }
    where
      marked :
          (p : Packet)
          → Elem p (s.hashmap (get_index (address b)))
            ⊎ IsMarked message.num p (s.hashmap (get_index (address b)))
          → PacketOk count address hosts sent got a b p
      marked p (inl old) = k.queued b hb p old
      marked p (inr (q, there, num, e)) =
          let ok = k.queued b hb q there in
          let same = unique message ok.message has ok.was_sent (sym num ∙ ok.same_num) in
          record {
            message = ok.message;
            was_sent = ok.was_sent;
            same_num = ap (λ x. x.num) e ∙ ok.same_num;
            same_bytes = ap (λ x. x.message) e ∙ ok.same_bytes;
            got_it = λ x. subst (λ y. Elem (delivery_from (address a) y) (got b a)) same got_it;
          }

  -- A message of `b` that `a` has got is acknowledged on the wire.
  pub reply-ProcessOk :
      (b : ℕ) (s : Links) (bytes : List ℕ)
      → b < count
      → AckOk count address hosts sent got a b bytes
      → IsValid (record s { wire = record { peer = address b; bytes = bytes } ∷ s.wire })
      → Ok s
      → Ok (record s { wire = record { peer = address b; bytes = bytes } ∷ s.wire })
  reply-ProcessOk b s bytes hb ok v k = record {
    valid = v;
    queued = k.queued;
    wired = λ c hc other m. on_wire c hc other m;
  }
    where
      on_wire :
          (c : ℕ)
          → c < count
          → (other : List ℕ)
          → Elem
              (record { peer = address c; bytes = other })
              (record { peer = address b; bytes = bytes } ∷ s.wire)
          → WireOk count address hosts sent got a c other
      on_wire c hc other (inr old) = k.wired c hc other old
      on_wire c hc other (inl new) =
          let same = hosts.differ b c hb hc (ap (λ d. get_index d.peer) (sym new)) in
          inr (
            subst (λ x. AckOk count address hosts sent got a x other) same
              (subst (AckOk count address hosts sent got a b) (ap (λ d. d.bytes) (sym new)) ok))
