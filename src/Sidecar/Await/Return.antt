-- ===== src/Sidecar/Await/Return.antt =====
-- AwaitScans comes back once the files of all scanners are there.
use ocular.Prelude.{
  ℕ, zero, suc, ◌<◌, length, Bool, true, String, List, [], ◌∷◌, ◌≡◌, refl, ap, ◌⊎◌, inl, inr, ◌∙◌,
  subst, arith, All,
}
use ocular.Sidecar.Marks.{MarkOs, is_scanner_complete}
use ocular.Sidecar.Await.{Goroutine, Await, look, look_at, Turn, Reach, has_returned, all_returned}
use ocular.Sidecar.Await.Laws.{IsMarked, scanners_of, scanners-look_at, Stays}

-- The goroutine with the given place has returned, or there is none.
abbrev returned_at : ℕ → List Goroutine → Bool
returned_at j [] = true
returned_at zero (g ∷ gs) = has_returned g.poll
returned_at (suc j) (g ∷ gs) = returned_at j gs

all_returned_of_each :
    (gs : List Goroutine)
    → ((j : ℕ) → j < length gs → returned_at j gs ≡ true)
    → all_returned gs ≡ true
all_returned_of_each [] h = refl
all_returned_of_each (g ∷ gs) h =
    let first : has_returned g.poll ≡ true = h 0 (omega arith) in
    rw (first, all_returned_of_each gs (λ j below. h (suc j) (omega arith))) refl

module _ {S : Type 0} (os : MarkOs S) where
  length-look_at : (i : ℕ) (s : S) (gs : List Goroutine) → length (look_at os i s gs) ≡ length gs
  unfolding look_at
  length-look_at i s [] = refl
  length-look_at zero s (g ∷ gs) = refl
  length-look_at (suc i) s (g ∷ gs) = ap suc (length-look_at i s gs)

  look-returned :
      (s : S) (g : Goroutine) → has_returned g.poll ≡ true → has_returned (look os s g).poll ≡ true
  unfolding look
  look-returned s g h = ground arith

  look-marked :
      (s : S) (g : Goroutine) → IsMarked os s g.scanner → has_returned (look os s g).poll ≡ true
  unfolding look is_scanner_complete
  look-marked s g h = ground arith

  returned_at-look_at :
      (i j : ℕ) (s : S) (gs : List Goroutine)
      → returned_at j gs ≡ true
      → returned_at j (look_at os i s gs) ≡ true
  unfolding look_at
  returned_at-look_at i j s [] h = refl
  returned_at-look_at zero zero s (g ∷ gs) h = look-returned s g h
  returned_at-look_at zero (suc j) s (g ∷ gs) h = h
  returned_at-look_at (suc i) zero s (g ∷ gs) h = h
  returned_at-look_at (suc i) (suc j) s (g ∷ gs) h = returned_at-look_at i j s gs h

  look_at-marked :
      (i : ℕ) (s : S) (gs : List Goroutine)
      → All (IsMarked os s) (scanners_of gs)
      → returned_at i (look_at os i s gs) ≡ true
  unfolding look_at
  look_at-marked i s [] h = refl
  look_at-marked zero s (g ∷ gs) h = look-marked s g h.0
  look_at-marked (suc i) s (g ∷ gs) h = look_at-marked i s gs h.1

  module _ (others : S → S → Type 0) where
    -- the goroutine with the given place takes a turn in the run
    abbrev pub Looks : ℕ → {a b : Await S} → Reach os others a b → Type 0
    Looks j Reach.start = ⊥
    Looks j (Reach.later r (Turn.poll i)) = (i ≡ j) ⊎ Looks j r
    Looks j (Reach.later r (Turn.other s o)) = Looks j r

    AllMarked : Await S → Type 0
    AllMarked a = All (IsMarked os a.world) (scanners_of a.goroutines)

    All-stays :
        Stays os others
        → (s t : S) → others s t
        → (names : List String) → All (IsMarked os s) names
        → All (IsMarked os t) names
    All-stays stays s t o [] h = tt
    All-stays stays s t o (n ∷ ns) h = (stays s t o n h.0, All-stays stays s t o ns h.1)

    Reach-AllMarked :
        Stays os others → {a b : Await S} → Reach os others a b → AllMarked a → AllMarked b
    unfolding AllMarked
    Reach-AllMarked stays Reach.start h = h
    Reach-AllMarked stays (Reach.later {b} r (Turn.poll i)) h =
        rw (scanners-look_at os i b.world b.goroutines) (Reach-AllMarked stays r h)
    Reach-AllMarked stays (Reach.later {b} r (Turn.other s o)) h =
        All-stays stays b.world s o (scanners_of b.goroutines) (Reach-AllMarked stays r h)

    returned_at_of_look :
        Stays os others
        → (j : ℕ) {a b : Await S} (r : Reach os others a b) → AllMarked a
        → Looks j r
        → returned_at j b.goroutines ≡ true
    unfolding AllMarked
    returned_at_of_look stays j Reach.start h l = absurd l
    returned_at_of_look stays j (Reach.later {b} r (Turn.poll i)) h (inl e) =
        subst (λ k. returned_at k (look_at os i b.world b.goroutines) ≡ true) e
          (look_at-marked i b.world b.goroutines (Reach-AllMarked stays r h))
    returned_at_of_look stays j (Reach.later {b} r (Turn.poll i)) h (inr l) =
        returned_at-look_at i j b.world b.goroutines (returned_at_of_look stays j r h l)
    returned_at_of_look stays j (Reach.later r (Turn.other s o)) h l =
        returned_at_of_look stays j r h l

    length-Reach : {a b : Await S} → Reach os others a b → length b.goroutines ≡ length a.goroutines
    length-Reach Reach.start = refl
    length-Reach (Reach.later {b} r (Turn.poll i)) =
        length-look_at i b.world b.goroutines ∙ length-Reach r
    length-Reach (Reach.later r (Turn.other s o)) = length-Reach r

    -- From a state in which the files of all scanners are there, AwaitScans has come back once each
    -- of its goroutines has looked again, whatever the order of the looks and of what the other
    -- containers do in between, so long as these remove no file.
    pub await_scans-returns :
        Stays os others
        → {a b : Await S} (r : Reach os others a b)
        → All (IsMarked os a.world) (scanners_of a.goroutines)
        → ((j : ℕ) → j < length a.goroutines → Looks j r)
        → all_returned b.goroutines ≡ true
    unfolding AllMarked
    await_scans-returns stays {b} r h looks = all_returned_of_each b.goroutines (λ j below.
        returned_at_of_look stays j r h (looks j (subst (λ n. j < n) (length-Reach r) below)))
