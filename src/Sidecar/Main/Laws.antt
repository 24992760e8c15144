-- ===== src/Sidecar/Main/Laws.antt =====
-- What the sidecar does around a scanner and around an uploader.
use ocular.Prelude.{String, Option, none, some, List, ◌∷◌, ◌≡◌, ◌↔◌, refl, ap, All}
use ocular.Prelude.Int.{ℤ, pos}
use ocular.Kube.Errors.{Error, ok}
use ocular.Api.Environment.{env_var_container_name}
use ocular.Process.{
  Cmd, Hook, success, exit_code, build_user_command, hook_command, run_hook, after_start,
}
use ocular.Process.Laws.{NonZero, hook_command-post_stop_once, hook_command-success}
use ocular.Sidecar.Marks.{MarkOs, scan_complete_hook, mark_path, after_create, after_write}
use ocular.Sidecar.Await.{Ends}
use ocular.Sidecar.Await.Laws.{IsMarked, Stays, await_scans-marked}
use ocular.Sidecar.Main.{Host, awaited, exit_with, main, run_command}

-- os.Create leaves the file there, and writing to a file leaves it there
pub record Creates {S : Type 0} (os : MarkOs S) : Type 0 where
  pub created :
      (scanner : String) (s : S)
      → (os.create (mark_path os scanner) s).1 ≡ none
      → IsMarked os (os.create (mark_path os scanner) s).0 scanner
  pub written :
      (scanner text : String) (s : S)
      → IsMarked os s scanner
      → IsMarked os (os.write_string (mark_path os scanner) text s).0 scanner

module _ {S : Type 0} (os : MarkOs S) (laws : Creates os) (scanner : String) where
  after_write-IsMarked :
      (r : S × Option Error)
      → IsMarked os r.0 scanner
      → IsMarked os (after_write os (mark_path os scanner) scanner r).0 scanner
  after_write-IsMarked (s, none) h = h
  after_write-IsMarked (s, some e) h = h

  after_create-IsMarked :
      (code : ℤ) (r : S × Option Error)
      → r.1 ≡ none
      → IsMarked os r.0 scanner
      → IsMarked os (after_create os (mark_path os scanner) scanner code r).0 scanner
  after_create-IsMarked code (s, none) e h =
      after_write-IsMarked _ (laws.written scanner (os.itoa code) s h)
  after_create-IsMarked code (s, some x) e h = cc

  scan_complete_hook-IsMarked :
      (cmd : Cmd) (s : S)
      → (os.create (mark_path os scanner) s).1 ≡ none
      → IsMarked os (scan_complete_hook os scanner cmd s).0 scanner
  unfolding scan_complete_hook
  scan_complete_hook-IsMarked cmd s created =
      after_create-IsMarked (exit_code cmd) _ created (laws.created scanner s created)

module _ {S : Type 0} (host : Host S) where
  exit_with_world : (r : S × (ℤ × Option Error)) → (exit_with host r).0 ≡ r.0
  exit_with_world (s, (code, none)) = refl
  exit_with_world (s, (code, some e)) = refl

  exit_with_zero :
      (r : S × (ℤ × Option Error)) → ((exit_with host r).1 ≡ pos 0) ↔ (r.1 ≡ (pos 0, none))
  exit_with_zero (s, (code, none)) = (λ h. ap (λ c. (c, none)) h, λ h. ap (λ p. p.0) h)
  exit_with_zero (s, (code, some e)) = (λ h. cc h, λ h. cc h)

  -- the name under which a scanner's sidecar writes its file
  abbrev pub own_name : String
  own_name = host.marks.getenv env_var_container_name

  abbrev hook : Option (Hook S)
  hook = some (scan_complete_hook host.marks own_name)

  -- the run of a scanner's command between the hooks
  abbrev scan : Cmd → S → S × (ℤ × Option Error)
  scan cmd s = hook_command host.runner none hook cmd s

  scan-IsMarked :
      Creates host.marks
      → (cmd : Cmd) (s : S)
      → ((w : S) → (host.marks.create (mark_path host.marks own_name) w).1 ≡ none)
      → IsMarked host.marks (exit_with host (scan cmd s)).0 own_name
  unfolding run_hook
  scan-IsMarked laws cmd s creatable =
      let (state, world, result) = hook_command-post_stop_once host.runner none hook cmd s in
      rw (exit_with_world (scan cmd s), world)
        (scan_complete_hook-IsMarked host.marks laws own_name _ _ (creatable _))

  scan-success :
      NonZero host.runner
      → (cmd : Cmd) (s : S)
      → ((exit_with host (scan cmd s)).1 ≡ pos 0) ↔ (
          ((host.runner.start cmd s).1 ≡ none)
          × ((host.runner.wait cmd (host.runner.start cmd s).0).1 ≡ success))
  unfolding run_hook
  scan-success nonzero cmd s =
      let (only, if_so) = hook_command-success host.runner none hook cmd s nonzero in
      let (zero, back) = exit_with_zero (scan cmd s) in (λ h. only (zero h), λ h. back (if_so h))

  module _ (program entrypoint : String) (args : List String) (cmd : Cmd)
      (built : build_user_command host.environ (entrypoint ∷ args) ≡ ok cmd) where
    -- However the command of a wrapped scanner ends, and also if it cannot be started, the
    -- scanner's file is there when the sidecar exits, and the sidecar exits with 0 exactly if the
    -- command was started and succeeded; provided that os.Create succeeds on the file, which stays
    -- when it is written to, and that an ExitError never has the exit code 0.
    pub main-scanner :
        Creates host.marks
        → NonZero host.runner
        → ((w : S) → (host.marks.create (mark_path host.marks own_name) w).1 ≡ none)
        → (s : S)
        → let (t, status) = main host (program ∷ "scanner" ∷ entrypoint ∷ args) s in
          IsMarked host.marks t own_name
          × ((status ≡ pos 0) ↔ (
              ((host.runner.start cmd s).1 ≡ none)
              × ((host.runner.wait cmd (host.runner.start cmd s).0).1 ≡ success)))
    unfolding main run_command
    main-scanner laws nonzero creatable s =
        rw (built) (scan-IsMarked laws cmd s creatable, scan-success nonzero cmd s)

    -- If AwaitScans returns without an error, the file of every scanner that the uploader awaits is
    -- there when the uploader's command is started, and the sidecar goes on with that command; the
    -- other containers remove no file.
    pub main-await_scanners :
        (others : S → S → Type 0)
        → Stays host.marks others
        → (s t : S) → host.await (awaited host.marks) cmd s ≡ (t, none)
        → Ends host.marks others (awaited host.marks) s t none
        → All (IsMarked host.marks t) (awaited host.marks)
          × (main host (program ∷ "await-scanners" ∷ entrypoint ∷ args) s
              ≡ exit_with host (after_start host.runner none cmd (host.runner.start cmd t)))
    unfolding main run_command hook_command run_hook
    main-await_scanners others stays s t run ends = (
      await_scans-marked host.marks others stays (awaited host.marks) s t ends,
      rw (built, run) refl,
    )
