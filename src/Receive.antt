-- ===== src/Receive.antt =====
-- Datagrams that arrive, and the loops that the deliver functions of the layers share: each calls the
-- layer below until it has something to pass up (the `do … while` of `pl_deliver` and `urb_deliver`).
pub mod Rule
use cs451_2021_project.Base.{ℕ, zero, suc, List, [], ◌∷◌}
use cs451_2021_project.Address.{SockAddr}

pub record Datagram : Type 0 where
  pub peer : SockAddr
  pub bytes : List ℕ

-- What the deliver function of a layer passes up: the sender, the buffer of `MAX_CHARS` bytes and `n`.
pub record Delivery : Type 0 where
  pub sender : SockAddr
  pub message : List ℕ
  pub n : ℕ

-- How a call of a deliver function ends, with the state and the datagrams that are left: it returns;
-- the thread exits as `recvfrom` gave nothing; it waits, as all datagrams are consumed; or it
-- accesses memory out of bounds. In `unfinished` the fuel of the model has run out.
pub data Received (S : Type 0) (A : Type 0) : Type 0 where
  returned : S → A → List Datagram → Received S A
  exited : S → List Datagram → Received S A
  waiting : S → Received S A
  fault : Received S A
  unfinished : Received S A

-- How the body of a loop ends: with another iteration, behind the loop, or out of bounds.
pub data Turn (S : Type 0) (B : Type 0) : Type 0 where
  again : S → Turn S B
  leave : S → B → Turn S B
  out_of_bounds : Turn S B

-- The state of a layer holds that of the layer below.
unfoldable pub map_state : {S T A : Type 0} → (S → T) → Received S A → Received T A
map_state f (returned s a rest) = returned (f s) a rest
map_state f (exited s rest) = exited (f s) rest
map_state f (waiting s) = waiting (f s)
map_state f fault = fault
map_state f unfinished = unfinished

abbrev pub after_turn :
    {S B : Type 0} → (S → List Datagram → Received S B) → List Datagram → Turn S B → Received S B
after_turn loop rest (again s) = loop s rest
after_turn loop rest (leave s b) = returned s b rest
after_turn loop rest out_of_bounds = fault

abbrev pub after_deliver :
    {S A B : Type 0}
    → (S → List Datagram → Received S B)
    → (S → A → Turn S B)
    → Received S A
    → Received S B
after_deliver loop body (returned s a rest) = after_turn loop rest (body s a)
after_deliver loop body (exited s rest) = exited s rest
after_deliver loop body (waiting s) = waiting s
after_deliver loop body fault = fault
after_deliver loop body unfinished = unfinished

unfoldable pub deliver_loop :
    {S A B : Type 0}
    → (S → List Datagram → Received S A)
    → (S → A → Turn S B)
    → ℕ
    → S
    → List Datagram
    → Received S B
deliver_loop deliver body zero s datagrams = unfinished
deliver_loop deliver body (suc fuel) s datagrams =
    after_deliver (λ s' rest. deliver_loop deliver body fuel s' rest) body (deliver s datagrams)
