-- ===== src/Nfs4/Session.antt =====
-- src/nfs4/session.rs: whether a compound whose reply was an error is sent again. The number of attempts
-- that the source counts in place is returned; the wait before the next attempt is left out.
use nfs_crust.Prelude.{ℕ, ◌+◌, Bool, ◌&&◌, Option, none, some, List, leb, if◌then◌else◌}
use nfs_crust.Nfs4.Status.{NfsStatus}
use nfs_crust.Nfs4.Ops.{NfsOp}
use nfs_crust.Nfs4.Replies.{CompoundDecodeError, transient_status, transient_compound_retry_is_safe}

unfoldable pub claim_transient_retry : ℕ → ℕ → Option ℕ
claim_transient_retry attempts retry_limit =
    if leb retry_limit attempts then none else some (attempts + 1)

abbrev pub claim_if : Option NfsStatus → ℕ → ℕ → Option ℕ
claim_if none transient_retries attempts = none
claim_if (some status) transient_retries attempts = claim_transient_retry attempts transient_retries

unfoldable pub retry_transient_compound_error : ℕ → CompoundDecodeError → ℕ → Option ℕ
retry_transient_compound_error transient_retries e attempts =
    claim_if (transient_status e) transient_retries attempts

-- What the loop of `compound_decode_detailed` does with an error of `decode`: the new
-- number of attempts where it goes on, and nothing where it returns the error.
unfoldable pub continues_after : Bool → ℕ → List NfsOp → CompoundDecodeError → ℕ → Option ℕ
continues_after retry_transients transient_retries ops e attempts =
    if retry_transients && transient_compound_retry_is_safe ops e
    then retry_transient_compound_error transient_retries e attempts
    else none
