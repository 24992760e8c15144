-- ===== src/Process/Copy.antt =====
-- CopyFile of internal/process/files.go and CloseAndLog of internal/process/logging.go.
use ocular.Prelude.{ℕ, suc, ◌+◌, String, Option, none, some, ◌≡◌, refl, arith}
use ocular.Kube.Errors.{Error, wrap}

-- What os does to the world `S` for CopyFile: each call may fail.
pub record FileOs (S : Type 0) : Type 0 where
  pub open_file : String → S → S × Option Error
  pub create : String → S → S × Option Error
  -- io.Copy(destination, source), by the paths of the two files
  pub copy : String → String → S → S × Option Error
  pub sync : String → S → S × Option Error
  pub close : String → S → S × Option Error

module _ {S : Type 0} (os : FileOs S) where
  -- the error of a close is only logged
  unfoldable pub close_and_log : String → S → S
  close_and_log path s = (os.close path s).0

  module _ (src dst : String) where
    -- the deferred calls, the last one first
    abbrev close_both : S → S
    close_both s = close_and_log src (close_and_log dst s)

    abbrev after_sync : S × Option Error → S × Option Error
    after_sync (s, none) = (close_both s, none)
    after_sync (s, some e) = (close_both s, some (wrap "failed to sync destination file" e))

    abbrev after_copy : S × Option Error → S × Option Error
    after_copy (s, none) = after_sync (os.sync dst s)
    after_copy (s, some e) = (close_both s, some (wrap "failed to copy data" e))

    abbrev after_create : S × Option Error → S × Option Error
    after_create (s, none) = after_copy (os.copy dst src s)
    after_create (s, some e) =
        (close_and_log src s, some (wrap "failed to create destination file" e))

    abbrev after_open : S × Option Error → S × Option Error
    after_open (s, none) = after_create (os.create dst s)
    after_open (s, some e) = (s, some (wrap "failed to open source file" e))

    unfoldable pub copy_file : S → S × Option Error
    unfolding close_and_log
    copy_file s = after_open (os.open_file src s)

-- How many files are open, `handles`, as os counts them: a call that fails opens none, and a close
-- ends the use of a file whether or not it reports an error.
pub record Handles {S : Type 0} (os : FileOs S) (handles : S → ℕ) : Type 0 where
  pub open_one :
      (p : String) (s : S)
      → (os.open_file p s).1 ≡ none
      → handles (os.open_file p s).0 ≡ suc (handles s)
  pub open_none :
      (p : String) (s : S) (e : Error)
      → (os.open_file p s).1 ≡ some e
      → handles (os.open_file p s).0 ≡ handles s
  pub create_one :
      (p : String) (s : S) → (os.create p s).1 ≡ none → handles (os.create p s).0 ≡ suc (handles s)
  pub create_none :
      (p : String) (s : S) (e : Error)
      → (os.create p s).1 ≡ some e
      → handles (os.create p s).0 ≡ handles s
  pub copy_keeps : (p q : String) (s : S) → handles (os.copy p q s).0 ≡ handles s
  pub sync_keeps : (p : String) (s : S) → handles (os.sync p s).0 ≡ handles s
  pub close_one : (p : String) (s : S) → suc (handles (os.close p s).0) ≡ handles s

module _ {S : Type 0} (os : FileOs S) (handles : S → ℕ) (laws : Handles os handles)
    (src dst : String) where
  close_both-handles : (s : S) → handles (close_both os src dst s) + 2 ≡ handles s
  unfolding close_and_log
  close_both-handles s = omega (arith, laws.close_one dst s, laws.close_one src (os.close dst s).0)

  after_sync-handles :
      (r : S × Option Error) → handles (after_sync os src dst r).0 + 2 ≡ handles r.0
  after_sync-handles (s, none) = close_both-handles s
  after_sync-handles (s, some e) = close_both-handles s

  after_copy-handles :
      (r : S × Option Error) → handles (after_copy os src dst r).0 + 2 ≡ handles r.0
  after_copy-handles (s, none) =
      omega (arith, after_sync-handles (os.sync dst s), laws.sync_keeps dst s)
  after_copy-handles (s, some e) = close_both-handles s

  after_create-handles :
      (r : S × Option Error) (n : ℕ)
      → (r.1 ≡ none → handles r.0 ≡ suc (suc n))
      → ((e : Error) → r.1 ≡ some e → handles r.0 ≡ suc n)
      → handles (after_create os src dst r).0 ≡ n
  unfolding close_and_log
  after_create-handles (s, none) n created failed =
      omega (arith, after_copy-handles (os.copy dst src s), laws.copy_keeps dst src s, created refl)
  after_create-handles (s, some e) n created failed =
      omega (arith, laws.close_one src s, failed e refl)

  after_open-handles :
      (r : S × Option Error) (n : ℕ)
      → (r.1 ≡ none → handles r.0 ≡ suc n)
      → ((e : Error) → r.1 ≡ some e → handles r.0 ≡ n)
      → handles (after_open os src dst r).0 ≡ n
  after_open-handles (s, none) n opened failed =
      after_create-handles (os.create dst s) n
        (λ h. omega (arith, laws.create_one dst s h, opened refl))
        (λ e h. omega (arith, laws.create_none dst s e h, opened refl))
  after_open-handles (s, some e) n opened failed = failed e refl

  -- CopyFile leaves as many files open as there were, however it returns.
  pub copy_file-handles : (s : S) → handles (copy_file os src dst s).0 ≡ handles s
  unfolding copy_file
  copy_file-handles s =
      after_open-handles (os.open_file src s) (handles s) (laws.open_one src s)
        (laws.open_none src s)
