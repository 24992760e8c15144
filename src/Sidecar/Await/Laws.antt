-- ===== src/Sidecar/Await/Laws.antt =====
-- When AwaitScans comes back, and what is there then.
use ocular.Prelude.{
  ℕ, zero, suc, String, true, Option, none, some, List, [], ◌∷◌, map, ◌≡◌, ◌≢◌, refl, ap, ◌∙◌,
  subst, arith, All, both_of_and,
}
use ocular.Prelude.Dict.{or_else}
use ocular.Kube.Errors.{Error}
use ocular.Sidecar.Marks.{MarkOs, StatReply, mark_path, is_scanner_complete}
use ocular.Sidecar.Await.{
  Poll, Goroutine, Await, spawn, look, look_at, failure, failure_at, Turn, Reach, has_returned,
  all_returned, Ends,
}

abbrev pub IsMarked : {S : Type 0} → MarkOs S → S → String → Type 0
IsMarked os s scanner = os.stat (mark_path os scanner) s ≡ StatReply.found

abbrev pub scanners_of : List Goroutine → List String
scanners_of = map (λ (g : Goroutine). g.scanner)

module _ {S : Type 0} (os : MarkOs S) where
  -- what a goroutine and the group's error say of the world
  pub record IsTrue (first : Option Error) (s : S) (g : Goroutine) : Type 0 where
    pub complete : g.poll ≡ Poll.returned none → IsMarked os s g.scanner
    pub quiet : first ≡ none → (e : Error) → g.poll ≢ Poll.returned (some e)

  look-IsTrue :
      (first : Option Error) (s : S) (g : Goroutine)
      → IsTrue first s g
      → IsTrue (or_else first (failure os s g)) s (look os s g)
  unfolding look is_scanner_complete
  look-IsTrue first s g h = ground (arith, h.complete, h.quiet)

  IsTrue-or_else :
      (first : Option Error) (more : Option Error) (s : S) (g : Goroutine)
      → IsTrue first s g
      → IsTrue (or_else first more) s g
  IsTrue-or_else none more s g h = record { complete = h.complete; quiet = λ e. h.quiet refl }
  IsTrue-or_else (some e) more s g h = h

  AllTrue : Option Error → S → List Goroutine → Type 0
  AllTrue first s = All (IsTrue first s)

  AllTrue-or_else :
      (first more : Option Error) (s : S) (gs : List Goroutine)
      → AllTrue first s gs
      → AllTrue (or_else first more) s gs
  unfolding AllTrue
  AllTrue-or_else first more s [] h = tt
  AllTrue-or_else first more s (g ∷ gs) h =
      (IsTrue-or_else first more s g h.0, AllTrue-or_else first more s gs h.1)

  look_at-AllTrue :
      (i : ℕ) (first : Option Error) (s : S) (gs : List Goroutine)
      → AllTrue first s gs
      → AllTrue (or_else first (failure_at os i s gs)) s (look_at os i s gs)
  unfolding AllTrue look_at failure_at
  look_at-AllTrue i first s [] h = tt
  look_at-AllTrue zero first s (g ∷ gs) h =
      (look-IsTrue first s g h.0, AllTrue-or_else first (failure os s g) s gs h.1)
  look_at-AllTrue (suc i) first s (g ∷ gs) h =
      (IsTrue-or_else first (failure_at os i s gs) s g h.0, look_at-AllTrue i first s gs h.1)

  spawn-AllTrue : (s : S) (names : List String) → AllTrue none s (map spawn names)
  unfolding AllTrue
  spawn-AllTrue s [] = tt
  spawn-AllTrue s (n ∷ ns) =
      (record { complete = λ e. cc e; quiet = λ e x h. cc h }, spawn-AllTrue s ns)

  pub scanners-look_at :
      (i : ℕ) (s : S) (gs : List Goroutine) → scanners_of (look_at os i s gs) ≡ scanners_of gs
  unfolding look_at look
  scanners-look_at i s [] = refl
  scanners-look_at zero s (g ∷ gs) = refl
  scanners-look_at (suc i) s (g ∷ gs) = ap (λ l. g.scanner ∷ l) (scanners-look_at i s gs)

  scanners-spawn : (names : List String) → scanners_of (map spawn names) ≡ names
  scanners-spawn [] = refl
  scanners-spawn (n ∷ ns) = ap (λ l. n ∷ l) (scanners-spawn ns)

  returned_quietly :
      (p : Poll)
      → has_returned p ≡ true
      → ((e : Error) → p ≢ Poll.returned (some e))
      → p ≡ Poll.returned none
  returned_quietly Poll.polling h quiet = cc h
  returned_quietly (Poll.returned none) h quiet = refl
  returned_quietly (Poll.returned (some e)) h quiet = absurd (quiet e refl)

  marked_of_returned :
      (s : S) (gs : List Goroutine)
      → AllTrue none s gs
      → all_returned gs ≡ true
      → All (IsMarked os s) (scanners_of gs)
  unfolding AllTrue
  marked_of_returned s [] h over = tt
  marked_of_returned s (g ∷ gs) h over =
      let (first, rest) = both_of_and (has_returned g.poll) (all_returned gs) over in
      (
        h.0.complete (returned_quietly g.poll first (h.0.quiet refl)),
        marked_of_returned s gs h.1 rest,
      )

  module _ (others : S → S → Type 0) where
    -- the other containers of the pod never remove the mark of a scanner
    abbrev pub Stays : Type 0
    Stays =
        (s t : S) → others s t → (scanner : String) → IsMarked os s scanner → IsMarked os t scanner

    other-AllTrue :
        Stays
        → (s t : S) → others s t
        → (first : Option Error) (gs : List Goroutine) → AllTrue first s gs
        → AllTrue first t gs
    unfolding AllTrue
    other-AllTrue stays s t o first [] h = tt
    other-AllTrue stays s t o first (g ∷ gs) h = (
      record { complete = λ e. stays s t o g.scanner (h.0.complete e); quiet = h.0.quiet },
      other-AllTrue stays s t o first gs h.1,
    )

    record Inv (names : List String) (a : Await S) : Type 0 where
      told : AllTrue a.first_error a.world a.goroutines
      same : scanners_of a.goroutines ≡ names

    Turn-Inv :
        Stays
        → {names : List String} {a b : Await S} → Turn os others a b
        → Inv names a
        → Inv names b
    Turn-Inv stays {a} (Turn.poll i) inv = record {
      told = look_at-AllTrue i a.first_error a.world a.goroutines inv.told;
      same = scanners-look_at i a.world a.goroutines ∙ inv.same;
    }
    Turn-Inv stays {a} (Turn.other s o) inv = record {
      told = other-AllTrue stays a.world s o a.first_error a.goroutines inv.told;
      same = inv.same;
    }

    Reach-Inv :
        Stays
        → {names : List String} {a b : Await S} → Reach os others a b
        → Inv names a
        → Inv names b
    Reach-Inv stays Reach.start inv = inv
    Reach-Inv stays (Reach.later r t) inv = Turn-Inv stays t (Reach-Inv stays r inv)

    -- If AwaitScans returns without an error, the file of every scanner is there, whatever the
    -- order of the looks and of what the other containers do, so long as these remove no file.
    pub await_scans-marked :
        Stays
        → (scanners : List String) (s t : S) → Ends os others scanners s t none
        → All (IsMarked os t) scanners
    await_scans-marked stays scanners s t ends =
        subst (λ w. All (IsMarked os w) scanners) ends.world
          (subst (All (IsMarked os a.world)) inv.same (
            marked_of_returned a.world a.goroutines
              (subst (λ e. AllTrue e a.world a.goroutines) ends.error inv.told) ends.over))
      where
        a : Await S
        a = ends.final

        inv : Inv scanners a
        inv =
            Reach-Inv stays ends.reached
              (record { told = spawn-AllTrue s scanners; same = scanners-spawn scanners })
