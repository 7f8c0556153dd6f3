-- ===== src/Client/Publish.antt =====
-- src/client.rs: what an error of a publication, a removal or a sweep means to the caller. Paths are
-- their bytes.
use text.Mathlib.Text.{◌==◌ as str_eq}
use nfs_crust.Prelude.{
  ℕ, ◌+◌, ◌≡◌, ◌≢◌, refl, ap, Bool, true, false, not, ◌&&◌, ◌||◌, Option, none, some, List, String,
  if◌then◌else◌, arith,
}
use nfs_crust.Result.{Result, ok, err, panic}
use nfs_crust.Error.{Error}
use nfs_crust.Error.Classify.{
  is_nfs_operation, is_nfs_error, is_request_not_sent, is_retryable, nfs_status_code,
}
use nfs_crust.Nfs4.OpCode.{OpCode, name}
use nfs_crust.Nfs4.Status.{exist}
use nfs_crust.Nfs4.Replies.Directories.{RemoveOutcome}

pub data PutMode : Type 0 where
  overwrite if_not_exists : PutMode

pub data PublishError : Type 0 where
  published already_exists no_publish outcome_unknown : PublishError

abbrev has_status : Option ℕ → Bool
has_status none = false
has_status (some status) = true

unfoldable pub error_proves_operation_not_run : Error → Bool
error_proves_operation_not_run e =
    is_request_not_sent e
    || (has_status (nfs_status_code e) && not (is_nfs_operation e OpCode.illegal))

abbrev creates_new : PutMode → Bool
creates_new PutMode.overwrite = false
creates_new PutMode.if_not_exists = true

unfoldable pub classify_publish_error : PutMode → Error → PublishError
classify_publish_error mode e =
    if creates_new mode && is_nfs_operation e OpCode.remove
    then PublishError.published
    else if creates_new mode && is_nfs_error e exist OpCode.link
    then PublishError.already_exists
    else if error_proves_operation_not_run e
    then PublishError.no_publish
    else PublishError.outcome_unknown

unfoldable pub put_operation_name : PutMode → String
put_operation_name PutMode.overwrite = "overwrite put"
put_operation_name PutMode.if_not_exists = "create-new put"

abbrev pub result_of : PublishError → PutMode → Error → List ℕ → Result Error (Unit {0})
result_of PublishError.published mode e path = ok tt
result_of PublishError.already_exists mode e path = err (Error.already_exists path)
result_of PublishError.no_publish mode e path = err e
result_of PublishError.outcome_unknown mode e path =
    err (Error.outcome_unknown (put_operation_name mode) path)

unfoldable pub publish_result : PutMode → Error → List ℕ → Result Error (Unit {0})
publish_result mode e path = result_of (classify_publish_error mode e) mode e path

unfoldable pub delete_result : Result Error RemoveOutcome → List ℕ → Result Error (Unit {0})
delete_result (ok outcome) path = ok tt
delete_result (err e) path =
    if error_proves_operation_not_run e then err e else err (Error.outcome_unknown "delete" path)
delete_result panic path = panic

-- The number of removed files and the first error, after one more result.
unfoldable pub tally_remove_result :
    Result Error RemoveOutcome → ℕ × Option Error → ℕ × Option Error
tally_remove_result (ok RemoveOutcome.removed) (removed, first_error) = (removed + 1, first_error)
tally_remove_result (ok RemoveOutcome.missing) (removed, first_error) = (removed, first_error)
tally_remove_result (err e) (removed, none) = (removed, some e)
tally_remove_result (err e) (removed, some first) = (removed, some first)
tally_remove_result panic tally = tally

unfoldable pub sweep_result : ℕ → Option Error → List ℕ → Result Error ℕ
sweep_result removed none path = ok removed
sweep_result removed (some error) path = err (Error.outcome_unknown "sweep temporary files" path)

-- An error that is not retryable is not the one that is.
not-retried :
    (e e' : Error)
    → is_retryable e ≡ false
    → is_retryable e' ≡ true
    → (let r : Result Error Unit = err e in r) ≡ err e'
    → ⊥
not-retried e e' h k same = let eq : e ≡ e' = ground arith in ground (arith, ap is_retryable eq)

-- The request of an error was not sent, or the server answered it with a status of an operation other
-- than ILLEGAL, which stands for one that the server does not know.
abbrev pub NotRun : Error → Type 0
NotRun (Error.request_not_sent source) = Unit
NotRun (Error.nfs status operation) = operation ≢ "ILLEGAL"
NotRun _ = ⊥

other_name : (operation : String) → str_eq operation "ILLEGAL" ≡ false → operation ≢ "ILLEGAL"
other_name operation h same = ground (arith, ap (λ o. str_eq o "ILLEGAL") same)

error_proves_operation_not_run-NotRun :
    (e : Error) → error_proves_operation_not_run e ≡ true → NotRun e
unfolding error_proves_operation_not_run is_request_not_sent nfs_status_code is_nfs_operation name
error_proves_operation_not_run-NotRun (Error.request_not_sent source) h = tt
error_proves_operation_not_run-NotRun (Error.nfs status operation) h =
    other_name operation (ground arith)
error_proves_operation_not_run-NotRun _ h = absurd (ground arith)

same_error : (e e' : Error) → (let r : Result Error (Unit {0}) = err e in r) ≡ err e' → e' ≡ e
same_error e e' h = ground arith

-- A failed publication asks the caller to try again only with the error that it was given, of a request
-- that was not sent or that the server answered with the status of an operation other than ILLEGAL: so
-- it is where what `publish_result` returns is retryable.
pub publish_result-retryable :
    (mode : PutMode) (e e' : Error) (path : List ℕ)
    → publish_result mode e path ≡ err e'
    → is_retryable e' ≡ true
    → NotRun e × (e' ≡ e)
unfolding publish_result classify_publish_error is_retryable
publish_result-retryable mode e e' path h k =
    onward (creates_new mode && is_nfs_operation e OpCode.remove)
      (creates_new mode && is_nfs_error e exist OpCode.link) (error_proves_operation_not_run e) refl
      h
  where
    onward :
        (a b c : Bool)
        → error_proves_operation_not_run e ≡ c
        → result_of
            (if a
              then PublishError.published
              else if b
              then PublishError.already_exists
              else if c
              then PublishError.no_publish
              else PublishError.outcome_unknown)
            mode
            e
            path
          ≡ err e'
        → NotRun e × (e' ≡ e)
    onward true b c p h = absurd (ground arith)
    onward false true c p h = absurd (not-retried (Error.already_exists path) e' refl k h)
    onward false false true p h = (error_proves_operation_not_run-NotRun e p, same_error e e' h)
    onward false false false p h =
        absurd (not-retried (Error.outcome_unknown (put_operation_name mode) path) e' refl k h)

-- A failed removal asks the caller to try again only with the error that it was given, of a request that
-- was not sent or that the server answered with the status of an operation other than ILLEGAL: so it is
-- where what `delete_result` returns is retryable.
pub delete_result-retryable :
    (e e' : Error) (path : List ℕ)
    → delete_result (err e) path ≡ err e'
    → is_retryable e' ≡ true
    → NotRun e × (e' ≡ e)
unfolding delete_result is_retryable
delete_result-retryable e e' path h k = onward (error_proves_operation_not_run e) refl h
  where
    onward :
        (c : Bool)
        → error_proves_operation_not_run e ≡ c
        → (let r : Result Error (Unit {0}) =
              if c then err e else err (Error.outcome_unknown "delete" path) in
            r)
          ≡ err e'
        → NotRun e × (e' ≡ e)
    onward true p h = (error_proves_operation_not_run-NotRun e p, same_error e e' h)
    onward false p h = absurd (not-retried (Error.outcome_unknown "delete" path) e' refl k h)
