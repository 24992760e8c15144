-- ===== src/Scheduler/Main.antt =====
-- main of cmd/scheduler/main.go: its commands, each with the status that the program exits with.
use ocular.Prelude.{String, Option, none, some, List, [], ◌∷◌, ◌=ˢ◌, if◌then◌else◌}
use ocular.Prelude.Int.{ℤ, pos}
use ocular.Kube.Errors.{Error, Result, ok, err}
use ocular.Api.Environment.{env_var_scheduler_path}
use ocular.Process.{Cmd, Hook, Runner, build_user_command, hook_command}
use ocular.Process.Copy.{FileOs, copy_file}
use ocular.Scheduler.Requests.{Settings}
use ocular.Scheduler.Setup.{SetupOs, schedule, remove_fifos}

-- What the program gets from the world `S`; `workers` is what the world is when the workers that
-- were started with the settings have been told to stop and have returned.
pub record Host (S : Type 0) : Type 0 where
  pub setup : SetupOs S
  pub files : FileOs S
  pub runner : Runner S
  pub workers : Settings → S → S
  pub executable : Result String
  pub environ : List String
  pub chmod : String → S → S

module _ {S : Type 0} (host : Host S) where
  abbrev pub exit_with : S × (ℤ × Option Error) → S × ℤ
  exit_with (s, (code, none)) = (s, code)
  exit_with (s, (code, some e)) = (s, pos 1)

  abbrev copied : String → S × Option Error → S × ℤ
  copied path (s, some e) = (s, pos 1)
  copied path (s, none) = (host.chmod path s, pos 0)

  abbrev init_from : Result String → S → S × ℤ
  init_from (err e) s = (s, pos 1)
  init_from (ok exec_path) s =
      let runtime_path = host.setup.getenv env_var_scheduler_path in
      copied runtime_path (copy_file host.files exec_path runtime_path s)

  -- the function that Schedule returns
  unfoldable pub await_scheduler_hook : Settings → Hook S
  await_scheduler_hook settings cmd s = (remove_fifos host.setup (host.workers settings s), none)

  abbrev pub crawl : Cmd → S × Result Settings → S × ℤ
  crawl cmd (s, err e) = (s, pos 1)
  crawl cmd (s, ok settings) =
      exit_with (hook_command host.runner none (some (await_scheduler_hook settings)) cmd s)

  abbrev pub crawl_with : Result Cmd → S → S × ℤ
  crawl_with (err e) s = (s, pos 1)
  crawl_with (ok cmd) s = crawl cmd (schedule host.setup s)

  unfoldable pub run_command : String → List String → S → S × ℤ
  unfolding await_scheduler_hook
  run_command command user_cmd s =
      if command =ˢ "init"
      then init_from host.executable s
      else if command =ˢ "crawler"
      then crawl_with (build_user_command host.environ user_cmd) s
      else (s, pos 1)

  -- the argument is os.Args
  unfoldable pub main : List String → S → S × ℤ
  unfolding run_command
  main [] s = (s, pos 1)
  main (program ∷ []) s = (s, pos 1)
  main (program ∷ command ∷ user_cmd) s = run_command command user_cmd s
