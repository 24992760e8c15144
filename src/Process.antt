-- ===== src/Process.antt =====
-- internal/process: the command of a wrapped container, the hooks around it, and the copy of a
-- file. What os and os/exec do to the world, whose states are `S`, is a parameter.
pub mod Laws
pub mod Copy
use ocular.Prelude.{ℕ, ◌+◌, String, Bool, Option, none, some, List, [], ◌∷◌, ◌==◌, not, filter}
use ocular.Prelude.Int.{ℤ, pos, negsuc}
use ocular.Kube.Errors.{Error, Result, ok, err, wrap}

-- exec.Cmd; `process_state` is the exit code of ProcessState, none while that is nil
pub record Cmd : Type 0 where
  pub entrypoint : String
  pub args : List String
  pub env : List String
  pub wait_delay_seconds : ℕ
  pub process_state : Option ℤ

-- `environ` is os.Environ()
unfoldable pub build_user_command : List String → List String → Result Cmd
build_user_command environ [] = err (Error.other "no user command provided")
build_user_command environ (entrypoint ∷ args) = ok (record {
  entrypoint = entrypoint;
  args = args;
  env = environ;
  wait_delay_seconds = 10;
  process_state = none;
})

-- What cmd.Wait returns: nil; an *exec.ExitError, with the signal if its status is that of a
-- process that was signaled, and the exit code; or another error, with the state of the process if
-- that is known.
pub data WaitReply : Type 0 where
  success : WaitReply
  exit_error : Option ℕ → ℤ → WaitReply
  failed : Option ℤ → Error → WaitReply

abbrev pub state_after : WaitReply → Option ℤ
state_after success = some (pos 0)
state_after (exit_error signal code) = some code
state_after (failed state e) = state

-- ProcessState.ExitCode(), which is -1 for nil
abbrev pub exit_code : Cmd → ℤ
exit_code cmd = code_of cmd.process_state
  where
    code_of : Option ℤ → ℤ
    code_of none = negsuc 0
    code_of (some code) = code

-- what HookCommand returns after cmd.Wait
unfoldable pub exit_result : WaitReply → ℤ × Option Error
exit_result success = (pos 0, none)
exit_result (exit_error (some signal) code) = (pos (128 + signal), none)
exit_result (exit_error none code) = (code, none)
exit_result (failed state e) = (negsuc 0, some (wrap "failed to run command" e))

-- syscall.SIGCHLD
abbrev sigchld : ℕ
sigchld = 17

-- the goroutine that passes signals on to the child: those that it sends, in order
unfoldable pub forward_signals : List ℕ → List ℕ
forward_signals = filter (λ sig. not (sig == sigchld))

module _ (S : Type 0) where
  abbrev pub Hook : Type 0
  Hook = Cmd → S → S × Option Error

  -- cmd.Start and cmd.Wait
  pub record Runner : Type 0 where
    pub start : Cmd → S → S × Option Error
    pub wait : Cmd → S → S × WaitReply

module _ {S : Type 0} where
  -- a hook may be nil, and its error is only logged
  unfoldable pub run_hook : Option (Hook S) → Cmd → S → S
  run_hook none cmd s = s
  run_hook (some hook) cmd s = (hook cmd s).0

  module _ (runner : Runner S) (post_stop : Option (Hook S)) (cmd : Cmd) where
    -- the returns after cmd.Wait, with the deferred hook
    unfoldable pub after_wait : S × WaitReply → S × (ℤ × Option Error)
    unfolding run_hook exit_result
    after_wait (s, reply) =
        (run_hook post_stop (record cmd { process_state = state_after reply }) s, exit_result reply)

    -- the returns after cmd.Start, with the deferred hook
    unfoldable pub after_start : S × Option Error → S × (ℤ × Option Error)
    unfolding run_hook after_wait
    after_start (s, some e) =
        (run_hook post_stop cmd s, (negsuc 0, some (wrap "unable to start command" e)))
    after_start (s, none) = after_wait (runner.wait cmd s)

  unfoldable pub hook_command :
      Runner S → Option (Hook S) → Option (Hook S) → Cmd → S → S × (ℤ × Option Error)
  unfolding run_hook after_start
  hook_command runner pre_start post_stop cmd s =
      after_start runner post_stop cmd (runner.start cmd (run_hook pre_start cmd s))
