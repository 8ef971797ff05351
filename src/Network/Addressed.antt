-- ===== src/Network/Addressed.antt =====
-- The addresses that template_cpp/src/src/stubborn_links.c keeps for its queues are those of the processes.
use native.Mathlib.Decide.{ℕ_discrete}
use cs451_2021_project.Base.{ℕ, ◌≡◌, ◌≢◌, ◌<◌, sym, subst, arith, Bool, List, [], ◌∷◌, some}
use cs451_2021_project.Address.{SockAddr, get_index}
use cs451_2021_project.Receive.{Datagram, Delivery, returned, waiting}
use cs451_2021_project.StubbornLinks.{
  Links, sl_init, remember_address, sl_send, serve, handle_packet, sl_deliver,
}
use cs451_2021_project.StubbornLinks.Invariant.{initial_links}
use cs451_2021_project.Network.{Net, Turn, send, look, deliver, absorb, Runs, start, turn, AreHosts}
use cs451_2021_project.Network.Reliable.{update_all}

serve-addresses : (accepts : Bool) (s : Links) (i : ℕ) → (serve accepts s i).addresses ≡ s.addresses
unfolding serve
serve-addresses accepts s i = ground arith

returned-addresses :
    (s t : Links) (datagram : Datagram) (d : Delivery)
    → sl_deliver s (datagram ∷ []) ≡ returned t d []
    → t.addresses ≡ s.addresses
unfolding sl_deliver handle_packet
returned-addresses s t datagram d e = ground arith

waiting-addresses :
    (s t : Links) (datagram : Datagram)
    → sl_deliver s (datagram ∷ []) ≡ waiting t
    → t.addresses ≡ s.addresses
unfolding sl_deliver handle_packet
waiting-addresses s t datagram e = ground arith

sl_send-addresses :
    (s : Links) (receiver : SockAddr) (buffer : List ℕ) (n num : ℕ) {t : Links}
    → sl_send s receiver buffer n num ≡ some t
    → t.addresses ≡ (remember_address s receiver).addresses
unfolding sl_send
sl_send-addresses s receiver buffer n num e = ground arith

module _ (count : ℕ) (address : ℕ → SockAddr) (hosts : AreHosts count address) where
  -- An address that is set is that of the process whose queue it is.
  abbrev pub IsAddressed : Links → Type 0
  IsAddressed s =
      (b : ℕ)
      → b < count
      → (s.addresses (get_index (address b))).sin_port ≢ 0
      → s.addresses (get_index (address b)) ≡ address b

  same-IsAddressed : (s t : Links) → t.addresses ≡ s.addresses → IsAddressed s → IsAddressed t
  same-IsAddressed s t e k b hb =
      subst (λ f. (f (get_index (address b))).sin_port ≢ 0 → f (get_index (address b)) ≡ address b)
        (sym e) (k b hb)

  remember_address-IsAddressed :
      (s : Links) (a : ℕ) → a < count → IsAddressed s → IsAddressed (remember_address s (address a))
  unfolding remember_address
  remember_address-IsAddressed s a ha k b hb =
      elim (ℕ_discrete (get_index (address a)) (get_index (address b))) [
        | no other ↦ λ h. ground (arith, k b hb)
        | yes same ↦ λ h. ground (arith, k b hb, hosts.differ a b ha hb same)
      ]

  Turn-IsAddressed :
      {s t : Net}
      → Turn count address s t
      → ((c : ℕ) → IsAddressed (s.links c))
      → (c : ℕ) → IsAddressed (t.links c)
  Turn-IsAddressed {s} (send a b buffer n num {t} ha hb ok fresh e) k =
      update_all (λ _ x. IsAddressed x) s.links a t
        (same-IsAddressed (remember_address (s.links a) (address b)) t
          (sl_send-addresses (s.links a) (address b) buffer n num e)
          (remember_address-IsAddressed (s.links a) b hb (k a)))
        (λ c other. k c)
  Turn-IsAddressed {s} (look a i accepts ha) k =
      update_all (λ _ x. IsAddressed x) s.links a (serve accepts (s.links a) i)
        (same-IsAddressed (s.links a) (serve accepts (s.links a) i)
          (serve-addresses accepts (s.links a) i) (k a))
        (λ c other. k c)
  Turn-IsAddressed {s} (deliver a b bytes {t} d ha hb w e) k =
      update_all (λ _ x. IsAddressed x) s.links b t
        (same-IsAddressed (s.links b) t (returned-addresses (s.links b) t _ d e) (k b))
        (λ c other. k c)
  Turn-IsAddressed {s} (absorb a b bytes {t} ha hb w e) k =
      update_all (λ _ x. IsAddressed x) s.links b t
        (same-IsAddressed (s.links b) t (waiting-addresses (s.links b) t _ e) (k b))
        (λ c other. k c)

  initial-IsAddressed : IsAddressed (sl_init initial_links)
  unfolding sl_init
  initial-IsAddressed b hb h = ground (arith, h)

  pub Runs-IsAddressed : {s : Net} → Runs count address s → (c : ℕ) → IsAddressed (s.links c)
  Runs-IsAddressed start c = initial-IsAddressed
  Runs-IsAddressed (turn r st) c = Turn-IsAddressed st (Runs-IsAddressed r) c
