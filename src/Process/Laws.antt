-- ===== src/Process/Laws.antt =====
-- What HookCommand reports, and when its hooks run.
use ocular.Prelude.{Option, none, some, ◌≡◌, ◌≢◌, ◌↔◌, refl, ap, arith}
use ocular.Prelude.Int.{ℤ, pos}
use ocular.Kube.Errors.{Error}
use ocular.Process.{
  Cmd, WaitReply, success, exit_error, exit_result, Runner, Hook, run_hook, after_start, after_wait,
  hook_command,
}

-- os/exec: the exit code of an ExitError is not 0
abbrev pub NonZero : {S : Type 0} → Runner S → Type 0
NonZero {S} runner =
    (cmd : Cmd) (s : S) (code : ℤ) → (runner.wait cmd s).1 ≡ exit_error none code → code ≢ pos 0

exit_result_zero :
    (reply : WaitReply)
    → ((code : ℤ) → reply ≡ exit_error none code → code ≢ pos 0)
    → (exit_result reply ≡ (pos 0, none)) ↔ (reply ≡ success)
unfolding exit_result
exit_result_zero success h = (λ e. refl, λ e. refl)
exit_result_zero (exit_error (some sig) code) h = (λ e. ground arith, λ e. cc e)
exit_result_zero (exit_error none code) h = (λ e. absurd (h code refl (ap (λ r. r.0) e)), λ e. cc e)
exit_result_zero (WaitReply.failed state e) h = (λ e. cc e, λ e. cc e)

module _ {S : Type 0} (runner : Runner S) where
  -- after_start by the error of the start
  after_start_result :
      (post_stop : Option (Hook S)) (cmd : Cmd) (s : S) (e : Option Error)
      → NonZero runner
      → ((after_start runner post_stop cmd (s, e)).1 ≡ (pos 0, none))
        ↔ ((e ≡ none) × ((runner.wait cmd s).1 ≡ success))
  unfolding after_start after_wait
  after_start_result post_stop cmd s none nonzero =
      let (only, if_success) = exit_result_zero (runner.wait cmd s).1 (nonzero cmd s) in
      (λ h. (refl, only h), λ h. if_success h.1)
  after_start_result post_stop cmd s (some e) nonzero = (λ h. cc h, λ h. cc h.0)

  module _ (pre_start post_stop : Option (Hook S)) (cmd : Cmd) (s : S) where
    -- the world when the command is started
    abbrev pub prepared : S
    prepared = run_hook pre_start cmd s

    pub hook_command-success :
        NonZero runner
        → ((hook_command runner pre_start post_stop cmd s).1 ≡ (pos 0, none)) ↔ (
            ((runner.start cmd (run_hook pre_start cmd s)).1 ≡ none)
            × ((runner.wait cmd (runner.start cmd (run_hook pre_start cmd s)).0).1 ≡ success))
    unfolding hook_command
    hook_command-success nonzero =
        after_start_result post_stop cmd (runner.start cmd prepared).0 (runner.start cmd prepared).1
          nonzero

    after_start_once :
        (t : S) (e : Option Error)
        → (state : Option ℤ) × ((after_start runner post_stop cmd (t, e)).0
            ≡ run_hook post_stop
                (record cmd { process_state = state })
                (after_start runner none cmd (t, e)).0)
          × ((after_start runner post_stop cmd (t, e)).1 ≡ (after_start runner none cmd (t, e)).1)
    unfolding after_start after_wait run_hook
    after_start_once t none = (_, refl, refl)
    after_start_once t (some e) = (cmd.process_state, refl, refl)

    pub hook_command-post_stop_once :
        (state : Option ℤ) × ((hook_command runner pre_start post_stop cmd s).0
          ≡ run_hook post_stop
              (record cmd { process_state = state })
              (hook_command runner pre_start none cmd s).0)
        × ((hook_command runner pre_start post_stop cmd s).1
            ≡ (hook_command runner pre_start none cmd s).1)
    unfolding hook_command
    hook_command-post_stop_once =
        after_start_once (runner.start cmd prepared).0 (runner.start cmd prepared).1
