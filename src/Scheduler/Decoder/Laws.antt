-- ===== src/Scheduler/Decoder/Laws.antt =====
-- What the decoder of a pipe opens and closes, and when it ends.
use ocular.Prelude.{
  ℕ, ◌+◌, Bool, true, false, not, Option, none, some, List, [], ◌∷◌, ◌++◌, ◌&&◌, ◌||◌, sym, ◌≡◌,
  refl, ap, arith, All, any, is_some, Bool-cases, inl, inr,
}
use ocular.Kube.Errors.{Error, Result, ok, err}
use ocular.Scheduler.Decoder.{
  Round, Act, DecoderState, decode, open_then_decode, round, fifo_decoder_from, fifo_decoder,
}

abbrev pub open_now : DecoderState → ℕ
open_now DecoderState.decoding = 1
open_now _ = 0

abbrev pub ended : DecoderState → ℕ
ended DecoderState.finished = 1
ended _ = 0

module _ {T : Type 0} where
  abbrev pub total : (Act T → ℕ) → List (Act T) → ℕ
  total weight [] = 0
  total weight (act ∷ acts) = weight act + total weight acts

  abbrev pub opening : Act T → ℕ
  opening Act.opened = 1
  opening _ = 0

  abbrev pub closing : Act T → ℕ
  closing Act.closed = 1
  closing _ = 0

  abbrev pub channel_closing : Act T → ℕ
  channel_closing Act.channel_closed = 1
  channel_closing _ = 0

  total-append :
      (weight : Act T → ℕ) (xs ys : List (Act T))
      → total weight (xs ++ ys) ≡ total weight xs + total weight ys
  total-append weight [] ys = omega arith
  total-append weight (x ∷ xs) ys = omega (arith, total-append weight xs ys)

  -- what a run does to the pipe and to the channel, from one state to another
  pub record Balanced (from : DecoderState) (run : List (Act T) × DecoderState) : Type 0 where
    pub pipe : total opening run.0 + open_now from ≡ total closing run.0 + open_now run.1
    pub channel : total channel_closing run.0 + ended from ≡ ended run.1

  decode-Balanced :
      (reply : Result T) (cancelled : Bool)
      → Balanced DecoderState.decoding (decode reply cancelled)
  unfolding decode
  decode-Balanced (ok t) cancelled = record { pipe = refl; channel = refl }
  decode-Balanced (err e) true = record { pipe = refl; channel = refl }
  decode-Balanced (err e) false = record { pipe = refl; channel = refl }

  round-Balanced : (state : DecoderState) (r : Round T) → Balanced state (round state r)
  unfolding round open_then_decode
  round-Balanced DecoderState.no_decoder r = opened r.open_error
    where
      opened :
          (e : Option Error)
          → Balanced DecoderState.no_decoder (open_then_decode e r.decoded r.cancelled)
      opened none =
          let b = decode-Balanced r.decoded r.cancelled in
          record { pipe = omega (arith, b.pipe); channel = omega (arith, b.channel) }
      opened (some e) = record { pipe = refl; channel = refl }
  round-Balanced DecoderState.decoding r = decode-Balanced r.decoded r.cancelled
  round-Balanced DecoderState.finished r = record { pipe = refl; channel = refl }

  fifo_decoder_from-Balanced :
      (state : DecoderState) (rounds : List (Round T))
      → Balanced state (fifo_decoder_from state rounds)
  unfolding fifo_decoder_from
  fifo_decoder_from-Balanced state [] = record { pipe = refl; channel = omega arith }
  fifo_decoder_from-Balanced state (r ∷ rs) =
      let (acts, next) = round state r in
      let (more, last) = fifo_decoder_from next rs in
      let first : Balanced state (acts, next) = round-Balanced state r in
      let rest : Balanced next (more, last) = fifo_decoder_from-Balanced next rs in
      record {
        pipe = omega (
          arith,
          total-append opening acts more,
          total-append closing acts more,
          first.pipe,
          rest.pipe,
        );
        channel =
            omega (arith, total-append channel_closing acts more, first.channel, rest.channel);
      }

  -- The pipe has been opened as often as it has been closed, and once more exactly while it is
  -- being decoded; the channel is closed once if the decoder has returned, and not at all before.
  pub fifo_decoder-Balanced :
      (rounds : List (Round T)) → Balanced DecoderState.no_decoder (fifo_decoder rounds)
  unfolding fifo_decoder
  fifo_decoder-Balanced rounds = fifo_decoder_from-Balanced DecoderState.no_decoder rounds

  abbrev fails : Result T → Bool
  fails (ok t) = false
  fails (err e) = true

  -- the pipe can be opened, and nothing can be decoded after the crawler has exited
  abbrev pub is_last : Round T → Bool
  is_last r = not (is_some r.open_error) && fails r.decoded && r.cancelled

  finished_stays :
      (rounds : List (Round T))
      → fifo_decoder_from DecoderState.finished rounds ≡ ([], DecoderState.finished)
  unfolding fifo_decoder_from round
  finished_stays [] = refl
  finished_stays (r ∷ rs) = rw (finished_stays rs) refl

  round-last :
      (state : DecoderState) (r : Round T)
      → is_last r ≡ true
      → (round state r).1 ≡ DecoderState.finished
  unfolding round open_then_decode decode
  round-last state r h = ground arith

  fifo_decoder_from-ends :
      (state : DecoderState) (rounds : List (Round T))
      → any is_last rounds ≡ true
      → (fifo_decoder_from state rounds).1 ≡ DecoderState.finished
  unfolding fifo_decoder_from
  fifo_decoder_from-ends state [] h = cc h
  fifo_decoder_from-ends state (r ∷ rs) h = elim (Bool-cases (is_last r)) [
    | inl e ↦ rw (round-last state r e, finished_stays rs) refl
    | inr e ↦
        fifo_decoder_from-ends (round state r).1 rs (rw (sym (ap (λ b. b || any is_last rs) e)) h)
  ]

  -- The decoder returns if there is a round in which the pipe can be opened, nothing can be
  -- decoded, and the crawler has exited.
  pub fifo_decoder-ends :
      (rounds : List (Round T))
      → any is_last rounds ≡ true
      → (fifo_decoder rounds).1 ≡ DecoderState.finished
  unfolding fifo_decoder
  fifo_decoder-ends rounds h = fifo_decoder_from-ends DecoderState.no_decoder rounds h

  round-stuck :
      (r : Round T)
      → is_some r.open_error ≡ true
      → open_then_decode r.open_error r.decoded r.cancelled
        ≡ (Act.slept ∷ [], DecoderState.no_decoder)
  unfolding open_then_decode
  round-stuck r h = ground arith

  -- While the pipe cannot be opened the decoder does not return, whether or not the crawler has
  -- exited: it sleeps and tries again.
  pub fifo_decoder-stuck :
      (rounds : List (Round T))
      → All (λ (r : Round T). is_some r.open_error ≡ true) rounds
      → ((fifo_decoder rounds).1 ≡ DecoderState.no_decoder)
        × All (λ act. act ≡ Act.slept) (fifo_decoder rounds).0
  unfolding fifo_decoder fifo_decoder_from round open_then_decode
  fifo_decoder-stuck [] h = (refl, tt)
  fifo_decoder-stuck (r ∷ rs) h =
      let (state, slept) = fifo_decoder-stuck rs h.1 in
      rw (round-stuck r h.0) (state, (refl, slept))
