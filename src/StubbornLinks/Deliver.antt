-- ===== src/StubbornLinks/Deliver.antt =====
-- The loop of `sl_deliver` of template_cpp/src/src/stubborn_links.c.
use cs451_2021_project.Base.{
  ℕ, suc, ◌≡◌, Bool, true, false, List, [], ◌∷◌, Option, none, some, arith, length, if◌then◌else◌,
  Option-cases, inl, inr, ◌==◌,
}
use cs451_2021_project.Address.{SockAddr}
use cs451_2021_project.Receive.{Datagram, Delivery, Received, returned}
use cs451_2021_project.Receive.Rule.{Ends, Ends-mono}
use cs451_2021_project.StubbornLinks.{
  Links, on_header, handle_packet, header, fill_buffer, received_size, message_type, sl_deliver,
}

module _ (P : Links → Type 0)
    (keeps : (s : Links) (sender : SockAddr) (type seq_num : ℕ) (t : Links)
      → P s
      → handle_packet s sender type seq_num ≡ some t
      → P t) where
  abbrev Kept : Links → Delivery → Type 0
  Kept t d = P t

  if-Ends :
      (b : Bool) (n : ℕ) (x y : Received Links Delivery)
      → Ends P Kept n x
      → Ends P Kept n y
      → Ends P Kept n (if b then x else y)
  if-Ends true n x y hx hy = hx
  if-Ends false n x y hx hy = hy

  on_header-Ends :
      (s : Links) (d : Delivery) (rest : List Datagram) (again : Links → Received Links Delivery)
      (fields : Option (ℕ × ℕ))
      → P s
      → ((t : Links) → P t → Ends P Kept (length rest) (again t))
      → Ends P Kept (suc (length rest)) (on_header s d rest again fields)
  on_header-Ends s d rest again none p ih = tt
  on_header-Ends s d rest again (some (type, seq_num)) p ih =
      elim (Option-cases (handle_packet s d.sender type seq_num)) [
        | inl e ↦ rw e tt
        | inr (t, e) ↦
            let kept = keeps s d.sender type seq_num t p e in
            rw e (
              if-Ends (type == message_type) (suc (length rest)) (returned t d rest) (again t)
                (kept, omega arith)
                (Ends-mono P Kept (length rest) (suc (length rest)) (again t) (omega arith)
                  (ih t kept)))
      ]

  -- A call of `sl_deliver` ends, with fewer datagrams if it returns, and keeps what each handled packet
  -- keeps.
  pub sl_deliver-Ends :
      (s : Links) (datagrams : List Datagram)
      → P s
      → Ends P Kept (length datagrams) (sl_deliver s datagrams)
  unfolding sl_deliver
  sl_deliver-Ends s [] p = p
  sl_deliver-Ends s (d ∷ rest) p = if-Ends (received_size d.bytes == 0) (suc (length rest)) _ _ p (
      on_header-Ends s _ rest (λ s'. sl_deliver s' rest) (header (fill_buffer d.bytes)) p
        (λ t q. sl_deliver-Ends t rest q))
