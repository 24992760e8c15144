-- ===== src/Sidecar/Main.antt =====
-- main of cmd/sidecar/main.go: its commands, each with the status that the program exits with.
pub mod Laws
use Prim.Native.Char.{code}
use ocular.Prelude.{String, Option, none, some, List, [], ◌∷◌, ◌=ˢ◌, if◌then◌else◌}
use ocular.Prelude.Int.{ℤ, pos}
use ocular.Prelude.Split.{split_on}
use ocular.Kube.Errors.{Error, Result, ok, err}
use ocular.Api.Environment.{
  env_var_sidecar_path, env_var_process_dir, env_var_scan_container_names, env_var_container_name,
}
use ocular.Process.{Cmd, Hook, Runner, build_user_command, hook_command}
use ocular.Process.Copy.{FileOs, copy_file}
use ocular.Sidecar.Marks.{MarkOs, scan_complete_hook}

-- What the program gets from the world `S`. A run of AwaitScans depends on the order in which
-- its goroutines and the other containers act; `await` is one such run.
pub record Host (S : Type 0) : Type 0 where
  pub marks : MarkOs S
  pub files : FileOs S
  pub runner : Runner S
  pub await : List String → Hook S
  -- os.Executable, os.Environ, os.Chmod and os.MkdirAll
  pub executable : Result String
  pub environ : List String
  pub chmod : String → S → S
  pub mkdir_all : String → S → S

-- the scanners that an uploader awaits
abbrev pub awaited : {S : Type 0} → MarkOs S → List String
awaited os = split_on b',' (os.getenv env_var_scan_container_names)

module _ {S : Type 0} (host : Host S) where
  -- os.Exit(exitCode), or os.Exit(1) for an error
  abbrev pub exit_with : S × (ℤ × Option Error) → S × ℤ
  exit_with (s, (code, none)) = (s, code)
  exit_with (s, (code, some e)) = (s, pos 1)

  abbrev copied : String → S × Option Error → S × ℤ
  copied path (s, some e) = (s, pos 1)
  copied path (s, none) =
      (host.mkdir_all (host.marks.getenv env_var_process_dir) (host.chmod path s), pos 0)

  abbrev init_from : Result String → S → S × ℤ
  init_from (err e) s = (s, pos 1)
  init_from (ok exec_path) s =
      let runtime_path = host.marks.getenv env_var_sidecar_path in
      copied runtime_path (copy_file host.files exec_path runtime_path s)

  -- the cases of the switch, for a command that could be built
  abbrev pub await_with : Result Cmd → S → S × ℤ
  await_with (err e) s = (s, pos 1)
  await_with (ok cmd) s =
      exit_with (hook_command host.runner (some (host.await (awaited host.marks))) none cmd s)

  abbrev pub scan_with : Result Cmd → S → S × ℤ
  scan_with (err e) s = (s, pos 1)
  scan_with (ok cmd) s = exit_with (
      hook_command host.runner none
        (some (scan_complete_hook host.marks (host.marks.getenv env_var_container_name))) cmd s)

  unfoldable pub run_command : String → List String → S → S × ℤ
  run_command command user_cmd s =
      if command =ˢ "init"
      then init_from host.executable s
      else if command =ˢ "await-scanners"
      then await_with (build_user_command host.environ user_cmd) s
      else if command =ˢ "scanner"
      then scan_with (build_user_command host.environ user_cmd) s
      else (s, pos 1)

  -- the argument is os.Args
  unfoldable pub main : List String → S → S × ℤ
  unfolding run_command
  main [] s = (s, pos 1)
  main (program ∷ []) s = (s, pos 1)
  main (program ∷ command ∷ user_cmd) s = run_command command user_cmd s
