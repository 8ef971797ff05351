-- ===== src/Handler/Tests.antt =====
-- Two processes on the local host: the second sends the first two messages, over links that keep what they are given.
use cs451_2021_project.Base.{
  ℕ, ◌≡◌, inl, inr, refl, arith, true, List, [], ◌∷◌, Option, some, none, replicate, map,
}
use cs451_2021_project.Address.{SockAddr}
use cs451_2021_project.LinkedList.{message_size}
use cs451_2021_project.Config.{PlConfigInfo}
use cs451_2021_project.Logger.{empty_logger, write_output}
use cs451_2021_project.Logger.Merge.{text_of}
use cs451_2021_project.Logger.Tests.{tokens, tokens-text_of, digit}
use cs451_2021_project.App.{message_buffer}
use cs451_2021_project.App.Tests.{infos}
use cs451_2021_project.Handler.{PerfectLink, Handler, waits, finished, get_sockaddr_by_id, run}
use cs451_2021_project.Handler.Lookup.{AddressesDiffer}
use cs451_2021_project.Handler.Sender.{sends}
use cs451_2021_project.App.Numbered.{sent_lines}
use cs451_2021_project.Handler.Receiver.{Numbered, Gives, silent, message, delivered_line}
use cs451_2021_project.Handler.Whole.{run_sends, run_receives}

-- What arrives, and the calls of `pl_send`, the latest first.
record Mail : Type 0 where
  arriving : List (SockAddr × List ℕ)
  calls : List (SockAddr × List ℕ)

abbrev take_mail : Mail → List (SockAddr × List ℕ) → Option (Mail × SockAddr × List ℕ)
take_mail s [] = none
take_mail s ((sender, buffer) ∷ arriving) = some (record s { arriving = arriving }, sender, buffer)

abbrev mail : PerfectLink Mail
mail = record {
  pl_init = λ s. s;
  pl_send = λ s receiver buffer. record s { calls = (receiver, buffer) ∷ s.calls };
  pl_deliver = λ s buffer. take_mail s s.arriving;
}

abbrev stack : SockAddr
stack = record { sin_family = 0; sin_port = 0; s_addr = 0 }

abbrev config : PlConfigInfo
config = record { n_messages = 2; receiver_id = 1 }

abbrev none_arrive : Mail
none_arrive = record { arriving = []; calls = [] }

abbrev numbered : List Numbered
numbered = record { sender_id = 2; num = 1 } ∷ record { sender_id = 2; num = 2 } ∷ []

abbrev two_arrive : Mail
two_arrive = record {
  arriving =
      (get_sockaddr_by_id stack 2 infos, message_buffer digit 1)
      ∷ (get_sockaddr_by_id stack 2 infos, message_buffer digit 2)
      ∷ [];
  calls = [];
}

run_sends_example :
    (t : Handler Mail) × (run mail digit true
        (λ _. true)
        0
        stack
        stack
        config
        2
        infos
        none_arrive
        empty_logger
      ≡ finished t)
    × (t.links ≡ sends mail digit (get_sockaddr_by_id stack 1 infos) 2 none_arrive)
    × (write_output tokens t.logger ≡ some (text_of (sent_lines digit 2)))
run_sends_example =
    run_sends mail digit tokens stack stack config 2 infos (λ _. true) 0 none_arrive
      (λ n. (omega arith, tt)) tokens-text_of (omega arith) (omega arith) refl

infos-AddressesDiffer : AddressesDiffer infos
infos-AddressesDiffer = ((inr (omega arith), tt), (tt, tt))

two_arrive-Gives : Gives mail digit stack infos two_arrive (replicate message_size 0) numbered
two_arrive-Gives = message (inr (inl refl)) refl (message (inr (inl refl)) refl (silent refl))

run_receives_example :
    (t : Handler Mail) × (run mail digit true
        (λ _. true)
        3
        stack
        stack
        config
        1
        infos
        two_arrive
        empty_logger
      ≡ waits t)
    × (write_output tokens t.logger ≡ some (text_of (map (delivered_line digit) numbered)))
run_receives_example =
    run_receives mail digit tokens stack stack config 1 infos (λ _. true) 3 two_arrive numbered
      infos-AddressesDiffer (λ n. (omega arith, (omega arith, tt))) tokens-text_of two_arrive-Gives
      (omega arith) (omega arith) refl refl
