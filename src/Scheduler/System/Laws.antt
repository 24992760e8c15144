-- ===== src/Scheduler/System/Laws.antt =====
-- Nothing that is decoded is lost, repeated or reordered on its way to the API server.
use ocular.Prelude.{Option, none, some, List, [], ◌∷◌, ◌++◌, map, ◌≡◌, refl, sym, ap, ◌∙◌, subst}
use mathlib.Core.List.{append-nil, append_assoc, map-append}
use ocular.Prelude.Int.{ℤ}
use ocular.Kube.Errors.{Error}
use ocular.Scheduler.Decoder.{DecoderState, round}
use ocular.Scheduler.System.{
  Work, handle, Sender, Receiver, Channel, start, sends, after_round, Move, Moves,
}

-- the objects of the creations, in order
abbrev pub creations : {R : Type 0} → List (Work R) → List R
creations [] = []
creations (Work.create r ∷ ws) = r ∷ creations ws
creations (Work.sleep n ∷ ws) = creations ws

-- what has left the decoder and not reached the API server
abbrev held : {T : Type 0} → Receiver T → List T
held (Receiver.received t) = t ∷ []
held _ = []

abbrev waiting : {T : Type 0} → Sender T → List T
waiting (Sender.sending t) = t ∷ []
waiting (Sender.at state) = []

creations-append :
    {R : Type 0} (xs ys : List (Work R)) → creations (xs ++ ys) ≡ creations xs ++ creations ys
creations-append [] ys = refl
creations-append (Work.create r ∷ xs) ys = ap (λ l. r ∷ l) (creations-append xs ys)
creations-append (Work.sleep n ∷ xs) ys = creations-append xs ys

creations-handle :
    {R : Type 0} (pause : ℤ) (r : R) (reply : Option Error)
    → creations (handle pause r reply) ≡ r ∷ []
unfolding handle
creations-handle pause r none = refl
creations-handle pause r (some e) = refl

module _ {T R : Type 0} (pause : ℤ) (request : T → R) where
  -- what is decoded has been created, is with the worker, or waits at the channel
  pub record Inv (c : Channel T R) : Type 0 where
    accounted :
        map request c.decoded
        ≡ creations c.work ++ map request (held c.receiver ++ waiting c.sender)
    pub finished : c.receiver ≡ Receiver.done → c.sender ≡ Sender.at DecoderState.finished

  pub start-Inv : Inv start
  start-Inv = record { accounted = refl; finished = λ e. cc e }

  -- the equation of the invariant, for the parts of a state
  Accounted : Sender T → Receiver T → List T → List (Work R) → Type 0
  Accounted sender receiver decoded work =
      map request decoded ≡ creations work ++ map request (held receiver ++ waiting sender)

  decode-Accounted :
      (next : DecoderState) (o : Option T) (c : Channel T R)
      → waiting c.sender ≡ []
      → Accounted c.sender c.receiver c.decoded c.work
      → let d = after_round c next o in Accounted d.sender d.receiver d.decoded d.work
  unfolding Accounted
  decode-Accounted next none c e h =
      subst (λ w. map request c.decoded ≡ creations c.work ++ map request (held c.receiver ++ w)) e
        h
  decode-Accounted next (some t) c e h =
      map-append request c.decoded (t ∷ [])
      ∙ ap (λ l. l ++ request t ∷ [])
          (h
            ∙ ap (λ l. creations c.work ++ map request l)
                (ap (λ w. held c.receiver ++ w) e ∙ append-nil (held c.receiver)))
      ∙ append_assoc (creations c.work) (map request (held c.receiver)) (request t ∷ [])
      ∙ ap (λ l. creations c.work ++ l) (sym (map-append request (held c.receiver) (t ∷ [])))

  at-inj : {s t : DecoderState} → ◌≡◌ {A = Sender T} (Sender.at s) (Sender.at t) → s ≡ t
  at-inj e = cc e

  decode-finished :
      (next : DecoderState) (o : Option T) (c : Channel T R)
      → (c.receiver ≡ Receiver.done → (next ≡ DecoderState.finished) × (o ≡ none))
      → let d = after_round c next o in
        d.receiver ≡ Receiver.done → d.sender ≡ Sender.at DecoderState.finished
  decode-finished next none c h e = ap Sender.at (h e).0
  decode-finished next (some t) c h e = cc ((h e).1)

  create-Accounted :
      (c : Channel T R) (t : T) (reply : Option Error)
      → Accounted c.sender (Receiver.received t) c.decoded c.work
      → Accounted c.sender Receiver.receiving c.decoded (c.work ++ handle pause (request t) reply)
  unfolding Accounted
  create-Accounted c t reply h =
      rw
        (
          creations-append c.work (handle pause (request t) reply),
          creations-handle pause (request t) reply,
        )
        (h
          ∙ sym (append_assoc (creations c.work) (request t ∷ []) (map request (waiting c.sender))))

  pub Move-Inv : {c d : Channel T R} → Move pause request c d → Inv c → Inv d
  unfolding Accounted
  Move-Inv {c} (Move.decode {state} r running e) inv = record {
    accounted =
        decode-Accounted (round state r).1 (sends (round state r).0) c (ap waiting e) inv.accounted;
    finished =
        decode-finished (round state r).1 (sends (round state r).0) c
          (λ h. absurd (running (at-inj (sym e ∙ inv.finished h))));
  }
  Move-Inv {c} (Move.meet {t} e f) inv = record {
    accounted =
        subst (λ s. Accounted s Receiver.receiving c.decoded c.work) e
          (subst (λ r. Accounted c.sender r c.decoded c.work) f inv.accounted);
    finished = λ h. cc h;
  }
  Move-Inv {c} (Move.create {t} reply e) inv = record {
    accounted =
        create-Accounted c t reply
          (subst (λ r. Accounted c.sender r c.decoded c.work) e inv.accounted);
    finished = λ h. cc h;
  }
  Move-Inv {c} (Move.stop e f) inv = record {
    accounted = subst (λ r. Accounted c.sender r c.decoded c.work) f inv.accounted;
    finished = λ h. e;
  }

  pub Moves-Inv : {c d : Channel T R} → Moves pause request c d → Inv c → Inv d
  Moves-Inv Moves.stay inv = inv
  Moves-Inv (Moves.then m ms) inv = Moves-Inv ms (Move-Inv m inv)

  -- What the worker has created is a first part of what was decoded.
  Moves-prefix :
      {c : Channel T R}
      → Moves pause request start c
      → (rest : List R) × (map request c.decoded ≡ creations c.work ++ rest)
  unfolding Accounted
  Moves-prefix ms = (_, (Moves-Inv ms start-Inv).accounted)

  -- When a worker has returned, in any interleaving with its decoder, it has asked the API server
  -- for one object for each thing that was decoded, in order and for no other, whether or not the
  -- server answered with errors.
  pub Moves-created :
      {c : Channel T R}
      → Moves pause request start c
      → c.receiver ≡ Receiver.done
      → creations c.work ≡ map request c.decoded
  unfolding Accounted
  Moves-created {c} ms e =
      let inv : Inv c = Moves-Inv ms start-Inv in
      let h =
        subst (λ s. Accounted s Receiver.done c.decoded c.work) (inv.finished e)
          (subst (λ v. Accounted c.sender v c.decoded c.work) e inv.accounted) in
      sym (h ∙ append-nil (creations c.work))
