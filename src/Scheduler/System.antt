-- ===== src/Scheduler/System.antt =====
-- A decoder and its worker in cmd/scheduler/main.go: two goroutines over a channel without a buffer,
-- interleaved in any order. What the API server answers to a creation is a parameter.
pub mod Laws
pub mod Finish
use ocular.Prelude.{ℕ, Option, none, some, List, [], ◌∷◌, ◌++◌, ◌≡◌, ◌≢◌}
use ocular.Prelude.Int.{ℤ}
use ocular.Kube.Errors.{Error}
use ocular.Scheduler.Decoder.{Round, Act, DecoderState, round}

-- what a worker does with what it receives
pub data Work (R : Type 0) : Type 0 where
  -- Create, with the object
  create : R → Work R
  -- time.Sleep, in seconds
  sleep : ℤ → Work R

-- the body of a worker's loop: after an error it goes on without a pause
unfoldable pub handle : {R : Type 0} → ℤ → R → Option Error → List (Work R)
handle pause request none = Work.create request ∷ Work.sleep pause ∷ []
handle pause request (some e) = Work.create request ∷ []

-- the decoder at the head of its loop, or blocked at `c <- t`
pub data Sender (T : Type 0) : Type 0 where
  at : DecoderState → Sender T
  sending : T → Sender T

-- the worker at the head of its loop, with something received, or returned
pub data Receiver (T : Type 0) : Type 0 where
  receiving : Receiver T
  received : T → Receiver T
  done : Receiver T

pub record Channel (T R : Type 0) : Type 0 where
  pub sender : Sender T
  pub receiver : Receiver T
  -- what has been decoded, and what the worker has done, in order
  pub decoded : List T
  pub work : List (Work R)

abbrev pub start : {T R : Type 0} → Channel T R
start = record {
  sender = Sender.at DecoderState.no_decoder;
  receiver = Receiver.receiving;
  decoded = [];
  work = [];
}

-- the send among the acts of a round
abbrev pub sends : {T : Type 0} → List (Act T) → Option T
sends [] = none
sends (Act.sent t ∷ acts) = some t
sends (_ ∷ acts) = sends acts

abbrev pub after_round : {T R : Type 0} → Channel T R → DecoderState → Option T → Channel T R
after_round c next none = record c { sender = Sender.at next }
after_round c next (some t) = record c { sender = Sender.sending t; decoded = c.decoded ++ t ∷ [] }

module _ {T R : Type 0} (pause : ℤ) (request : T → R) where
  pub data Move (c : Channel T R) : Channel T R → Type 0 where
    -- a round of the decoder's loop
    decode :
        {state : DecoderState} (r : Round T)
        → state ≢ DecoderState.finished
        → c.sender ≡ Sender.at state
        → Move c (after_round c (round state r).1 (sends (round state r).0))
    -- the send meets the receive; the decoder goes on with `continue`
    meet :
        {t : T}
        → c.sender ≡ Sender.sending t
        → c.receiver ≡ Receiver.receiving
        → Move c
            (record c { sender = Sender.at DecoderState.decoding; receiver = Receiver.received t })
    create :
        {t : T} (reply : Option Error)
        → c.receiver ≡ Receiver.received t
        → Move c (record c {
          receiver = Receiver.receiving;
          work = c.work ++ handle pause (request t) reply;
        })
    -- the channel is closed
    stop :
        c.sender ≡ Sender.at DecoderState.finished
        → c.receiver ≡ Receiver.receiving
        → Move c (record c { receiver = Receiver.done })

  -- the moves from one state to another, in order
  pub data Moves : Channel T R → Channel T R → Type 0 where
    stay : {c : Channel T R} → Moves c c
    then : {c d e : Channel T R} → Move c d → Moves d e → Moves c e
