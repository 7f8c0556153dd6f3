-- ===== src/Tests/Errors.antt =====
-- src/error.rs and src/nfs4.rs on concrete errors and operations.
use nfs_crust.Prelude.{◌≡◌, ◌↔◌, refl, true, false, ◌&&◌, ◌||◌}
use nfs_crust.Result.{ok, err}
use nfs_crust.Error.{Error}
use nfs_crust.Error.Classify.{
  nfs_error, is_nfs_error, is_retryable, requires_session_rebuild, with_close_failure, is_not_found,
  is_permission_denied, is_outcome_unknown, is_request_not_sent, wrap_not_sent,
}
use nfs_crust.Error.Classify.Laws.{
  asks_to_wait, is_retryable-split, wait-or-rebuild, with_close_failure-classes,
  wrap_not_sent-classes, is_nfs_error-nfs_error, is_not_found-final,
}
use nfs_crust.Nfs4.OpCode.{OpCode, name, from_u32, to_u32}
use nfs_crust.Nfs4.OpCode.Laws.{from_u32_iff, name-injective}
use nfs_crust.Nfs4.Status.{noent, delay, badsession}

-- LOOKUP answered with NOENT, WRITE with DELAY, SEQUENCE with BADSESSION.
abbrev missing : Error
missing = nfs_error noent OpCode.lookup

abbrev delayed : Error
delayed = nfs_error delay OpCode.write

abbrev lost : Error
lost = nfs_error badsession OpCode.sequence

from_u32_59 : from_u32 59 ≡ err Error.protocol
unfolding from_u32
from_u32_59 = refl

is_retryable-split_example :
    is_retryable delayed ≡ (requires_session_rebuild delayed || asks_to_wait delayed)
is_retryable-split_example = is_retryable-split delayed

wait-or-rebuild_example : (requires_session_rebuild lost && asks_to_wait lost) ≡ false
wait-or-rebuild_example = wait-or-rebuild lost

with_close_failure-classes_example :
    (is_retryable (with_close_failure missing lost) ≡ (is_retryable missing || is_retryable lost))
    × (requires_session_rebuild (with_close_failure missing lost)
        ≡ (requires_session_rebuild missing || requires_session_rebuild lost))
with_close_failure-classes_example = with_close_failure-classes missing lost

wrap_not_sent-classes_example :
    (is_request_not_sent (wrap_not_sent lost) ≡ true)
    × (wrap_not_sent (wrap_not_sent lost) ≡ wrap_not_sent lost)
    × (is_retryable (wrap_not_sent lost) ≡ is_retryable lost)
    × (requires_session_rebuild (wrap_not_sent lost) ≡ requires_session_rebuild lost)
wrap_not_sent-classes_example = wrap_not_sent-classes lost

is_nfs_error-nfs_error_example :
    (is_nfs_error (nfs_error noent OpCode.lookup) noent OpCode.open_op ≡ true)
    ↔ ((noent ≡ noent) × (OpCode.lookup ≡ OpCode.open_op))
is_nfs_error-nfs_error_example = is_nfs_error-nfs_error noent noent OpCode.lookup OpCode.open_op

is_not_found-missing : is_not_found missing ≡ true
unfolding is_not_found is_nfs_error nfs_error name
is_not_found-missing = refl

is_not_found-final_example :
    (is_retryable missing ≡ false)
    × (is_permission_denied missing ≡ false)
    × (is_outcome_unknown missing ≡ false)
is_not_found-final_example = is_not_found-final missing is_not_found-missing

from_u32_iff_example : (from_u32 53 ≡ ok OpCode.sequence) ↔ (to_u32 OpCode.sequence ≡ 53)
from_u32_iff_example = from_u32_iff 53 OpCode.sequence

name-injective_example : OpCode.read ≡ OpCode.read
name-injective_example = name-injective OpCode.read OpCode.read refl
