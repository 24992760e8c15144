-- ===== src/Sidecar/Tests.antt =====
-- The sidecar on a world that is a map from paths to texts.
use ocular.Prelude.{
  ℕ, zero, suc, String, true, Option, none, some, List, [], ◌∷◌, ◌≡◌, ◌↔◌, eq_iff, refl, subst, sym,
  inl, if◌then◌else◌, ◌=ˢ◌, arith, All, ◌<◌,
}
use ocular.Prelude.Int.{pos}
use ocular.Prelude.Dict.{Dict, lookup, insert, lookup-insert}
use ocular.Prelude.FilePath.{join, clean}
use ocular.Prelude.Split.{split_on, split_from}
use ocular.Kube.Errors.{Error, ok}
use ocular.Api.Environment.{env_var_process_dir}
use ocular.Process.{Cmd, WaitReply, build_user_command, after_start}
use ocular.Sidecar.Marks.{MarkOs, StatReply, mark_path, is_scanner_complete}
use ocular.Sidecar.Await.{
  Poll, Goroutine, Await, await_scans, Turn, Reach, Ends, all_returned, look, look_at, failure_at,
}
use ocular.Sidecar.Await.Laws.{IsMarked, Stays, await_scans-marked}
use ocular.Sidecar.Await.Return.{Looks, await_scans-returns}
use ocular.Sidecar.Main.{Host, awaited, main, exit_with}
use ocular.Sidecar.Main.Laws.{Creates, main-scanner, main-await_scanners}

abbrev World : Type 0
World = Dict String

abbrev reply_of : Option String → StatReply
reply_of none = StatReply.missing
reply_of (some text) = StatReply.found

abbrev marks : MarkOs World
marks = record {
  getenv = λ name. if name =ˢ env_var_process_dir then "/proc" else "scanner-lint";
  stat = λ path w. reply_of (lookup path w);
  create = λ path w. (insert path "" w, none);
  write_string = λ path text w. (insert path text w, none);
  itoa = λ code. "0";
}

-- the other containers only add the file of the scanner
abbrev Others : World → World → Type 0
Others s t = t ≡ insert (mark_path marks "scanner-lint") "0" s

found_of_insert :
    (path key text : String) (w : World)
    → reply_of (lookup path w) ≡ StatReply.found
    → reply_of (lookup path (insert key text w)) ≡ StatReply.found
found_of_insert path key text w h = rw (lookup-insert key path text w) (ground arith)

others-Stays : Stays marks Others
others-Stays s t o scanner h = rw (o) (found_of_insert (mark_path marks scanner) _ "0" s h)

marks-Creates : Creates marks
marks-Creates = record {
  created = λ scanner s e.
      rw
        (
          lookup-insert (mark_path marks scanner) (mark_path marks scanner) "" s,
          (eq_iff (mark_path marks scanner) (mark_path marks scanner)).1 refl,
        )
        refl;
  written = λ scanner text s h. found_of_insert (mark_path marks scanner) _ text s h;
}

abbrev lint : List String
lint = "scanner-lint" ∷ []

abbrev marked : World
marked = insert (mark_path marks "scanner-lint") "0" []

abbrev goroutine : Poll → Goroutine
goroutine p = record { scanner = "scanner-lint"; poll = p }

abbrev state : World → Poll → Await World
state w p = record { world = w; goroutines = goroutine p ∷ []; first_error = none }

-- the goroutine looks too early, then the scanner ends
early : Reach marks Others (await_scans lint []) (state marked Poll.polling)
unfolding look_at look is_scanner_complete failure_at lookup
early = Reach.later (Reach.later Reach.start (Turn.poll 0)) (Turn.other marked refl)

last_look : Reach marks Others (state marked Poll.polling) (state marked (Poll.returned none))
unfolding look_at look is_scanner_complete failure_at lookup insert join clean
last_look = Reach.later Reach.start (Turn.poll 0)

whole : Reach marks Others (await_scans lint []) (state marked (Poll.returned none))
unfolding look_at look is_scanner_complete failure_at lookup insert join clean
whole = Reach.later early (Turn.poll 0)

whole-Ends : Ends marks Others lint [] marked none
whole-Ends = record {
  final = state marked (Poll.returned none);
  reached = whole;
  over = refl;
  world = refl;
  error = refl;
}

await_scans-marked_example : All (IsMarked marks marked) lint
await_scans-marked_example = await_scans-marked marks Others others-Stays lint [] marked whole-Ends

is_marked : All (IsMarked marks marked) lint
unfolding lookup insert join clean
is_marked = (refl, tt)

looked : (j : ℕ) → j < 1 → Looks marks Others j last_look
unfolding last_look
looked zero below = inl refl
looked (suc j) below = absurd (omega arith)

await_scans-returns_example : all_returned (goroutine (Poll.returned none) ∷ []) ≡ true
await_scans-returns_example =
    await_scans-returns marks Others others-Stays last_look is_marked looked

abbrev host : Host World
host = record {
  marks = marks;
  files = record {
    open_file = λ path w. (w, none);
    create = λ path w. (w, none);
    copy = λ dst src w. (w, none);
    sync = λ path w. (w, none);
    close = λ path w. (w, none);
  };
  runner = record {
    start = λ cmd w. (w, some (Error.other "no such file"));
    wait = λ cmd w. (w, WaitReply.success);
  };
  await = λ scanners cmd w. (marked, none);
  executable = ok "/sidecar";
  environ = [];
  chmod = λ path w. w;
  mkdir_all = λ path w. w;
}

abbrev lint_cmd : Cmd
lint_cmd = record {
  entrypoint = "lint";
  args = [];
  env = [];
  wait_delay_seconds = 10;
  process_state = none;
}

lint_built : build_user_command [] ("lint" ∷ []) ≡ ok lint_cmd
unfolding build_user_command
lint_built = refl

awaited-marks : awaited marks ≡ lint
unfolding split_on split_from
awaited-marks = refl

-- a command that cannot be started
main-scanner_example :
    let (t, status) = main host ("sidecar" ∷ "scanner" ∷ "lint" ∷ []) [] in
    IsMarked marks t "scanner-lint"
    × ((status ≡ pos 0) ↔ (
        (◌≡◌ {A = Option Error} (some (Error.other "no such file")) none)
        × (◌≡◌ WaitReply.success WaitReply.success)))
main-scanner_example =
    main-scanner host "sidecar" "lint" [] lint_cmd lint_built marks-Creates (λ cmd s code h. cc h)
      (λ w. refl) []

main-await_scanners_example :
    All (IsMarked marks marked) (awaited marks)
    × (main host ("sidecar" ∷ "await-scanners" ∷ "lint" ∷ []) []
        ≡ exit_with host
            (after_start host.runner none lint_cmd (marked, some (Error.other "no such file"))))
main-await_scanners_example =
    main-await_scanners host "sidecar" "lint" [] lint_cmd lint_built Others others-Stays [] marked
      refl (subst (λ names. Ends marks Others names [] marked none) (sym awaited-marks) whole-Ends)
