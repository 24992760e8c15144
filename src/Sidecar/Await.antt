-- ===== src/Sidecar/Await.antt =====
-- AwaitScans of cmd/sidecar/main.go: a goroutine for each scanner looks for the scanner's file
-- again and again, while the other containers of the pod write theirs. An errgroup keeps the first
-- error; its context is cancelled then, but no goroutine looks at the context.
pub mod Laws
pub mod Return
use ocular.Prelude.{
  ℕ, zero, suc, String, Bool, true, false, Option, none, some, List, [], ◌∷◌, map, ◌≡◌, ◌&&◌,
}
use ocular.Prelude.Dict.{or_else}
use ocular.Kube.Errors.{Error, Result, ok, err}
use ocular.Sidecar.Marks.{MarkOs, is_scanner_complete}

-- where a goroutine stands: in its loop, or returned
pub data Poll : Type 0 where
  polling : Poll
  returned : Option Error → Poll

pub record Goroutine : Type 0 where
  pub scanner : String
  pub poll : Poll

-- the goroutines of one AwaitScans, the first error of the group, and the rest of the world
pub record Await (S : Type 0) : Type 0 where
  pub world : S
  pub goroutines : List Goroutine
  pub first_error : Option Error

abbrev pub spawn : String → Goroutine
spawn scanner = record { scanner = scanner; poll = Poll.polling }

-- the state when all goroutines have been started
abbrev pub await_scans : {S : Type 0} → List String → S → Await S
await_scans scanners s = record { world = s; goroutines = map spawn scanners; first_error = none }

abbrev poll_result : Result Bool → Poll
poll_result (ok true) = Poll.returned none
poll_result (ok false) = Poll.polling
poll_result (err e) = Poll.returned (some e)

module _ {S : Type 0} (os : MarkOs S) where
  -- one round of the loop of a goroutine
  unfoldable pub look : S → Goroutine → Goroutine
  unfolding is_scanner_complete
  look s g = record g { poll = turn g.poll }
    where
      turn : Poll → Poll
      turn Poll.polling = poll_result (is_scanner_complete os g.scanner s)
      turn (Poll.returned e) = Poll.returned e

  unfoldable pub look_at : ℕ → S → List Goroutine → List Goroutine
  unfolding look
  look_at i s [] = []
  look_at zero s (g ∷ gs) = look s g ∷ gs
  look_at (suc i) s (g ∷ gs) = g ∷ look_at i s gs

  -- the error with which the goroutine returns, if it does so with one
  abbrev pub failure : S → Goroutine → Option Error
  failure s g = of g.poll (is_scanner_complete os g.scanner s)
    where
      of : Poll → Result Bool → Option Error
      of Poll.polling (err e) = some e
      of _ _ = none

  unfoldable pub failure_at : ℕ → S → List Goroutine → Option Error
  failure_at i s [] = none
  failure_at zero s (g ∷ gs) = failure s g
  failure_at (suc i) s (g ∷ gs) = failure_at i s gs

  -- `others` says what the rest of the pod does to the world between two looks
  pub data Turn (others : S → S → Type 0) (a : Await S) : Await S → Type 0 where
    poll :
        (i : ℕ)
        → Turn others a (record {
          world = a.world;
          goroutines = look_at i a.world a.goroutines;
          first_error = or_else a.first_error (failure_at i a.world a.goroutines);
        })
    other : (s : S) → others a.world s → Turn others a (record a { world = s })

  pub data Reach (others : S → S → Type 0) (a : Await S) : Await S → Type 0 where
    start : Reach others a a
    later : {b c : Await S} → Reach others a b → Turn others b c → Reach others a c

abbrev pub has_returned : Poll → Bool
has_returned Poll.polling = false
has_returned (Poll.returned e) = true

-- g.Wait comes back
abbrev pub all_returned : List Goroutine → Bool
all_returned [] = true
all_returned (g ∷ gs) = has_returned g.poll && all_returned gs

-- A run of the hook from the world `s` that ends in the world `t` and returns `e`.
pub record Ends {S : Type 0} (os : MarkOs S) (others : S → S → Type 0) (scanners : List String)
    (s t : S) (e : Option Error) : Type 0 where
  pub final : Await S
  pub reached : Reach os others (await_scans scanners s) final
  pub over : all_returned final.goroutines ≡ true
  pub world : final.world ≡ t
  pub error : final.first_error ≡ e
