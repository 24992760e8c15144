-- ===== src/Scheduler/Decoder.antt =====
-- fifoDecoder of cmd/scheduler/main.go, by the rounds of its loop. What the pipe, the decoder and
-- the context answer in a round is a parameter.
pub mod Laws
use ocular.Prelude.{Bool, true, false, Option, none, some, List, [], ◌∷◌, ◌++◌, if◌then◌else◌}
use ocular.Kube.Errors.{Error, Result, ok, err}

pub record Round (T : Type 0) : Type 0 where
  -- openFIFOReader's error; looked at only if there is no decoder
  pub open_error : Option Error
  -- decoder.Decode; io.EOF is an error like the others but for the log
  pub decoded : Result T
  -- ctx.Done() is ready
  pub cancelled : Bool

-- what the loop does, in order
pub data Act (T : Type 0) : Type 0 where
  opened : Act T
  closed : Act T
  slept : Act T
  -- c <- t
  sent : T → Act T
  -- close(c)
  channel_closed : Act T

-- the variable `decoder`, or the end of the function
pub data DecoderState : Type 0 where
  no_decoder decoding finished : DecoderState

module _ {T : Type 0} where
  -- the round from the call of Decode on
  unfoldable pub decode : Result T → Bool → List (Act T) × DecoderState
  decode (ok t) cancelled = (Act.sent t ∷ [], DecoderState.decoding)
  decode (err e) true = (Act.closed ∷ Act.slept ∷ Act.channel_closed ∷ [], DecoderState.finished)
  decode (err e) false = (Act.closed ∷ Act.slept ∷ [], DecoderState.no_decoder)

  -- a round without a decoder
  unfoldable pub open_then_decode : Option Error → Result T → Bool → List (Act T) × DecoderState
  unfolding decode
  open_then_decode (some e) reply cancelled = (Act.slept ∷ [], DecoderState.no_decoder)
  open_then_decode none reply cancelled =
      let (acts, state) = decode reply cancelled in (Act.opened ∷ acts, state)

  unfoldable pub round : DecoderState → Round T → List (Act T) × DecoderState
  unfolding open_then_decode
  round DecoderState.no_decoder r = open_then_decode r.open_error r.decoded r.cancelled
  round DecoderState.decoding r = decode r.decoded r.cancelled
  round DecoderState.finished r = ([], DecoderState.finished)

  -- the loop over the rounds that are given
  unfoldable pub fifo_decoder_from : DecoderState → List (Round T) → List (Act T) × DecoderState
  unfolding round
  fifo_decoder_from state [] = ([], state)
  fifo_decoder_from state (r ∷ rs) =
      let (acts, next) = round state r in
      let (more, last) = fifo_decoder_from next rs in (acts ++ more, last)

  unfoldable pub fifo_decoder : List (Round T) → List (Act T) × DecoderState
  unfolding fifo_decoder_from
  fifo_decoder rounds = fifo_decoder_from DecoderState.no_decoder rounds
