-- ===== src/Scheduler/System/Finish.antt =====
-- How a worker and its decoder come to their end once the crawler has exited.
use ocular.Prelude.{ℕ, suc, ◌+◌, ◌≤◌, true, none, ◌≡◌}
use ocular.Prelude.Int.{ℤ}
use ocular.Kube.Errors.{Error, err}
use ocular.Scheduler.Decoder.{Round, DecoderState, decode}
use ocular.Scheduler.System.{Sender, Receiver, Channel, Move}

-- the round after the crawler has exited, with nothing left in a pipe that can be opened
abbrev pub last_round : {T : Type 0} → Error → Round T
last_round e = record { open_error = none; decoded = err e; cancelled = true }

module _ {T R : Type 0} (pause : ℤ) (request : T → R) (eof : Error) where
  -- a move after the crawler has exited: in the decoder's rounds the context is done and the pipe,
  -- which can be opened, is empty; what the API server answers is open
  abbrev pub AfterExit : {c d : Channel T R} → Move pause request c d → Type 0
  AfterExit (Move.decode r running e) = r ≡ last_round eof
  AfterExit (Move.meet e f) = Unit
  AfterExit (Move.create reply e) = Unit
  AfterExit (Move.stop e f) = Unit

  -- as many such moves, in any order
  pub data Drain : ℕ → Channel T R → Channel T R → Type 0 where
    stay : {c : Channel T R} → Drain 0 c c
    then :
        {n : ℕ} {c d e : Channel T R} (m : Move pause request c d)
        → AfterExit m
        → Drain n d e
        → Drain (suc n) c e

  -- such a move is possible
  abbrev pub Next : Channel T R → Type 0
  Next c = (d : Channel T R) × (m : Move pause request c d) × AfterExit m

  -- the moves that are left at most
  abbrev sender_rank : Sender T → ℕ
  sender_rank (Sender.at DecoderState.finished) = 0
  sender_rank (Sender.at _) = 1
  sender_rank (Sender.sending t) = 3

  abbrev receiver_rank : Receiver T → ℕ
  receiver_rank Receiver.done = 0
  receiver_rank Receiver.receiving = 1
  receiver_rank (Receiver.received t) = 2

  abbrev rank : Channel T R → ℕ
  rank c = sender_rank c.sender + receiver_rank c.receiver

  -- what a move after the exit does: there is one move less to make, and nothing more is decoded
  abbrev Closer : Channel T R → Channel T R → Type 0
  Closer c d = (suc (rank d) ≤ rank c) × (d.decoded ≡ c.decoded)
