-- ===== src/Sidecar/Marks.antt =====
-- IsScannerComplete and ScanCompleteHook of cmd/sidecar/main.go: the file by which a scanner tells
-- that it has ended. What os does to the world `S` is a parameter.
use ocular.Prelude.{String, Bool, true, false, Option, none, some}
use ocular.Prelude.Int.{ℤ}
use ocular.Prelude.FilePath.{join}
use ocular.Kube.Errors.{Error, Result, ok, err, wrap}
use ocular.Api.Environment.{env_var_process_dir}
use ocular.Process.{Hook, exit_code}

-- os.Stat: the file is there, os.IsNotExist holds of the error, or it is another error
pub data StatReply : Type 0 where
  found : StatReply
  missing : StatReply
  failed : Error → StatReply

-- os.Getenv, os.Stat, os.Create, the method WriteString of the file that was created, and
-- strconv.Itoa
pub record MarkOs (S : Type 0) : Type 0 where
  pub getenv : String → String
  pub stat : String → S → StatReply
  pub create : String → S → S × Option Error
  pub write_string : String → String → S → S × Option Error
  pub itoa : ℤ → String

module _ {S : Type 0} (os : MarkOs S) where
  -- markPath
  abbrev pub mark_path : String → String
  mark_path scanner = join (os.getenv env_var_process_dir) scanner

  abbrev pub stat_result : StatReply → Result Bool
  stat_result StatReply.found = ok true
  stat_result StatReply.missing = ok false
  stat_result (StatReply.failed e) = err e

  unfoldable pub is_scanner_complete : String → S → Result Bool
  is_scanner_complete scanner s = stat_result (os.stat (mark_path scanner) s)

  module _ (path scanner : String) where
    abbrev pub after_write : S × Option Error → S × Option Error
    after_write (s, none) = (s, none)
    after_write (s, some e) = (s, some (wrap "unable to write exit code" e))

    abbrev pub after_create : ℤ → S × Option Error → S × Option Error
    after_create code (s, none) = after_write (os.write_string path (os.itoa code) s)
    after_create code (s, some e) = (s, some (wrap "unable to create mark path" e))

  unfoldable pub scan_complete_hook : String → Hook S
  scan_complete_hook scanner cmd s =
      let path = mark_path scanner in after_create path scanner (exit_code cmd) (os.create path s)
