-- ===== src/Error/Classify.antt =====
-- src/error.rs: how errors are built, combined and classified.
pub mod Laws
use text.Mathlib.Text.{◌==◌ as str_eq}
use nfs_crust.Prelude.{
  ℕ, String, Bool, true, false, ◌&&◌, ◌||◌, Option, none, some, ◌==◌, if◌then◌else◌,
}
use nfs_crust.Error.{Error}
use nfs_crust.Nfs4.OpCode.{OpCode, name}
use nfs_crust.Nfs4.Status.{
  NfsStatus, perm, noent, access, delay, grace, wrongsec, stale_clientid, badsession, badslot,
  seq_misordered, bad_high_slot, deadsession,
}

-- `Error::request_not_sent` wraps once.
pub wrap_not_sent : Error → Error
wrap_not_sent (Error.request_not_sent source) = Error.request_not_sent source
wrap_not_sent source = Error.request_not_sent source

-- `Error::nfs`
unfoldable pub nfs_error : NfsStatus → OpCode → Error
nfs_error status op = Error.nfs status (name op)

unfoldable pub is_nfs_status : Error → NfsStatus → Bool
is_nfs_status (Error.nfs status_code operation) status = status_code == status
is_nfs_status _ status = false

unfoldable pub is_nfs_error : Error → NfsStatus → OpCode → Bool
is_nfs_error (Error.nfs status_code operation) status op =
    status_code == status && str_eq operation (name op)
is_nfs_error _ status op = false

unfoldable pub is_nfs_operation : Error → OpCode → Bool
is_nfs_operation (Error.nfs status_code operation) op = str_eq operation (name op)
is_nfs_operation _ op = false

-- The session-level statuses that both classifications list.
session_status : NfsStatus → Bool
session_status s =
    s == stale_clientid
    || s == badsession
    || s == badslot
    || s == seq_misordered
    || s == bad_high_slot
    || s == deadsession

unfoldable pub is_retryable : Error → Bool
unfolding session_status
is_retryable Error.io = true
is_retryable Error.connection_lost = true
is_retryable (Error.timeout t) = true
is_retryable (Error.request_not_sent source) = is_retryable source
is_retryable (Error.nfs s operation) = s == delay || s == grace || session_status s
is_retryable _ = false

pub requires_session_rebuild : Error → Bool
unfolding session_status
requires_session_rebuild Error.io = true
requires_session_rebuild Error.connection_lost = true
requires_session_rebuild (Error.timeout t) = true
requires_session_rebuild (Error.request_not_sent source) = requires_session_rebuild source
requires_session_rebuild (Error.nfs s operation) = session_status s
requires_session_rebuild _ = false

pub with_close_failure : Error → Error → Error
with_close_failure self close_err =
    if requires_session_rebuild self || requires_session_rebuild close_err
    then Error.connection_lost
    else if is_retryable self
    then self
    else if is_retryable close_err
    then close_err
    else Error.protocol

unfoldable pub is_not_found : Error → Bool
is_not_found e =
    is_nfs_error e noent OpCode.lookup
    || is_nfs_error e noent OpCode.open_op
    || is_nfs_error e noent OpCode.remove

pub is_permission_denied : Error → Bool
is_permission_denied (Error.nfs s operation) = s == perm || s == access || s == wrongsec
is_permission_denied _ = false

pub is_outcome_unknown : Error → Bool
is_outcome_unknown (Error.outcome_unknown operation path) = true
is_outcome_unknown _ = false

unfoldable pub is_request_not_sent : Error → Bool
is_request_not_sent (Error.request_not_sent source) = true
is_request_not_sent _ = false

pub is_buffered_read_too_large : Error → Bool
is_buffered_read_too_large (Error.buffered_read_too_large size limit) = true
is_buffered_read_too_large _ = false

unfoldable pub nfs_status_code : Error → Option ℕ
nfs_status_code (Error.nfs status_code operation) = some status_code
nfs_status_code _ = none

pub nfs_operation : Error → Option String
nfs_operation (Error.nfs status_code operation) = some operation
nfs_operation _ = none
