-- ===== src/Network/Reliable.antt =====
-- What processes that run template_cpp/src/src/stubborn_links.c promise each other, and that their turns keep it.
use cs451_2021_project.Base.{
  All-Elem, ℕ, ◌≡◌, ◌≢◌, ◌<◌, ◌⊎◌, inl, inr, refl, ap, sym, ◌∙◌, subst, arith, Bool, List, [], some,
  take, All, Elem, update, update_self, update_ne,
}
use native.Mathlib.Decide.{ℕ_discrete}
use cs451_2021_project.Address.{SockAddr, get_index}
use cs451_2021_project.Receive.{Delivery}
use cs451_2021_project.StubbornLinks.{Links, sl_init, sl_send, serve}
use cs451_2021_project.StubbornLinks.Invariant.{initial_links, sl_init-IsValid}
use cs451_2021_project.Network.{Message, IsMessage, delivery_from, Net, put, initial_net, AreHosts}
use cs451_2021_project.Network.Tables.{put-Elem, put-keeps, put-has}
use cs451_2021_project.Network.Local.{serve-Looked}
use cs451_2021_project.Network.Invariant.{Grows, ProcessOk, ProcessOk-Grows, sl_send-ProcessOk}
use cs451_2021_project.Network.Steps.{serve-ProcessOk}
use cs451_2021_project.Network.Queues.{InQueue, sl_send-InQueue, sl_send-adds, Looked-InQueue}

pub update_all :
    (P : ℕ → Links → Type 0) (links : ℕ → Links) (a : ℕ) (t : Links)
    → P a t
    → ((c : ℕ) → a ≢ c → P c (links c))
    → (c : ℕ) → P c (update links a t c)
update_all P links a t here others c = elim (ℕ_discrete a c) [
  | no other ↦ subst (P c) (sym (update_ne links a c t other)) (others c other)
  | yes same ↦
      subst (λ x. P x (update links a t x)) same (subst (P a) (sym (update_self links a t)) here)
]

module _ (count : ℕ) (address : ℕ → SockAddr) (hosts : AreHosts count address) where
  pub record IsSound (s : Net) : Type 0 where
    pub processes : (a : ℕ) → a < count → ProcessOk count address hosts s.sent s.got a (s.links a)
    pub held :
        (a b : ℕ)
        → a < count
        → b < count
        → (m : Message) → Elem m (s.sent a b)
        → InQueue (s.links a) (get_index (address b)) m
          ⊎ Elem (delivery_from (address a) m) (s.got b a)
    pub messages : (a b : ℕ) (m : Message) → Elem m (s.sent a b) → IsMessage m
    pub unique :
        (a b : ℕ) (m m' : Message)
        → Elem m (s.sent a b)
        → Elem m' (s.sent a b)
        → m.num ≡ m'.num
        → m ≡ m'
    pub created :
        (a b : ℕ) (d : Delivery)
        → Elem d (s.got b a)
        → (m : Message) × Elem m (s.sent a b) × (d ≡ delivery_from (address a) m)

  no_packets : (i : ℕ) → (sl_init initial_links).hashmap i ≡ []
  unfolding sl_init
  no_packets i = ground arith

  no_datagrams : (sl_init initial_links).wire ≡ []
  unfolding sl_init
  no_datagrams = refl

  pub initial_net-IsSound : IsSound initial_net
  initial_net-IsSound = record {
    processes = λ a h. record {
      valid = sl_init-IsValid;
      queued = λ b hb p e. absurd (subst (Elem p) (no_packets (get_index (address b))) e);
      wired = λ b hb bytes e. absurd (subst (Elem _) no_datagrams e);
    };
    held = λ a b ha hb m e. absurd e;
    messages = λ a b m e. absurd e;
    unique = λ a b m m' e. absurd e;
    created = λ a b d e. absurd e;
  }

  pub send-IsSound :
      {s : Net} (a b : ℕ) (buffer : List ℕ) (n num : ℕ) {t : Links}
      → b < count
      → IsMessage (record { num = num; bytes = take n buffer })
      → All (λ m. m.num ≢ num) (s.sent a b)
      → sl_send (s.links a) (address b) buffer n num ≡ some t
      → IsSound s
      → IsSound (record s {
        links = update s.links a t;
        sent = put s.sent a b (record { num = num; bytes = take n buffer });
      })
  send-IsSound {s} a b buffer n num {t} hb ok fresh e k = record {
    processes =
        update_all (λ c x. c < count → ProcessOk count address hosts sent' s.got c x) s.links a t
          (λ h.
            sl_send-ProcessOk count address hosts a b (s.links a) buffer n num hb
              (put-has s.sent a b new) e
              (ProcessOk-Grows count address hosts grows (k.processes a h)))
          (λ c other h. ProcessOk-Grows count address hosts grows (k.processes c h));
    held = update_all (λ c x. Held c x) s.links a t sender others;
    messages = λ c d m e. elim (put-Elem s.sent a b new c d m e) [
      | inl old ↦ k.messages c d m old
      | inr (p, q, same) ↦ subst IsMessage (sym same) ok
    ];
    unique = λ c d m m' e e' same.
        one c d m m' same (put-Elem s.sent a b new c d m e) (put-Elem s.sent a b new c d m' e');
    created = λ c d x e.
        let (m, has, same) = k.created c d x e in (m, put-keeps s.sent a b new c d m has, same);
  }
    where
      new : Message
      new = record { num = num; bytes = take n buffer }

      sent' : ℕ → ℕ → List Message
      sent' = put s.sent a b new

      grows : Grows count address hosts s.sent sent' s.got s.got
      grows = record { more_sent = put-keeps s.sent a b new; more_got = λ c d x e. e }

      Held : ℕ → Links → Type 0
      Held c x =
          (d : ℕ)
          → c < count
          → d < count
          → (m : Message) → Elem m (sent' c d)
          → InQueue x (get_index (address d)) m ⊎ Elem (delivery_from (address c) m) (s.got d c)

      sender : Held a t
      sender d ha hd m f = elim (put-Elem s.sent a b new a d m f) [
        | inl old ↦ elim (k.held a d ha hd m old) [
          | inl waits ↦ inl (
              sl_send-InQueue (s.links a) (address b) buffer n num (get_index (address d)) m e
                waits)
          | inr got ↦ inr got
        ]
        | inr (p, q, same) ↦ inl (
            subst (λ x. InQueue t (get_index (address x)) m) q
              (subst (InQueue t (get_index (address b))) (sym same)
                (sl_send-adds (s.links a) (address b) buffer n num e)))
      ]

      others : (c : ℕ) → a ≢ c → Held c (s.links c)
      others c other d hc hd m f = elim (put-Elem s.sent a b new c d m f) [
        | inl old ↦ k.held c d hc hd m old
        | inr (p, q, same) ↦ absurd (other p)
      ]

      unused : (c d : ℕ) (m : Message) → a ≡ c → b ≡ d → Elem m (s.sent c d) → m.num ≢ num
      unused c d m p q f =
          All-Elem (λ x. x.num ≢ num) (s.sent a b) fresh
            (subst (λ x. Elem m (s.sent x b)) (sym p) (subst (λ x. Elem m (s.sent c x)) (sym q) f))

      one :
          (c d : ℕ) (m m' : Message)
          → m.num ≡ m'.num
          → Elem m (s.sent c d) ⊎ ((a ≡ c) × (b ≡ d) × (m ≡ new))
          → Elem m' (s.sent c d) ⊎ ((a ≡ c) × (b ≡ d) × (m' ≡ new))
          → m ≡ m'
      one c d m m' same (inl f) (inl f') = k.unique c d m m' f f' same
      one c d m m' same (inr (p, q, f)) (inr (p', q', f')) = f ∙ sym f'
      one c d m m' same (inl f) (inr (p, q, f')) =
          absurd (unused c d m p q f (same ∙ ap (λ x. x.num) f'))
      one c d m m' same (inr (p, q, f)) (inl f') =
          absurd (unused c d m' p q f' (sym same ∙ ap (λ x. x.num) f))

  pub look-IsSound :
      {s : Net} (a i : ℕ) (accepts : Bool)
      → IsSound s
      → IsSound (record s { links = update s.links a (serve accepts (s.links a) i) })
  look-IsSound {s} a i accepts k = record {
    processes =
        update_all (λ c x. c < count → ProcessOk count address hosts s.sent s.got c x) s.links a
          looked
          (λ h.
            serve-ProcessOk count address hosts s.sent s.got a accepts (s.links a) i
              (k.processes a h))
          (λ c other h. k.processes c h);
    held = update_all (λ c x. Held c x) s.links a looked looker (λ c other d. k.held c d);
    messages = k.messages;
    unique = k.unique;
    created = k.created;
  }
    where
      looked : Links
      looked = serve accepts (s.links a) i

      Held : ℕ → Links → Type 0
      Held c x =
          (d : ℕ)
          → c < count
          → d < count
          → (m : Message) → Elem m (s.sent c d)
          → InQueue x (get_index (address d)) m ⊎ Elem (delivery_from (address c) m) (s.got d c)

      -- What leaves the queue was acknowledged.
      looker : Held a looked
      looker d ha hd m f = elim (k.held a d ha hd m f) [
        | inr got ↦ inr got
        | inl waits ↦
            elim (Looked-InQueue (s.links a) i (get_index (address d)) m
              (serve-Looked accepts (s.links a) i) waits) [
                | inl still ↦ inl still
                | inr (p, there, num, acked) ↦
                    let ok = (k.processes a ha).queued d hd p there in
                    inr (
                      subst (λ x. Elem (delivery_from (address a) x) (s.got d a))
                        (k.unique a d ok.message m ok.was_sent f (sym ok.same_num ∙ num))
                        (ok.got_it acked))
              ]
      ]
