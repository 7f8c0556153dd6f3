-- ===== src/Nfs4/Compound/Limits.antt =====
-- src/nfs4/codec.rs: the limits that a session puts on a request.
use nfs_crust.Prelude.{◌+◌, ◌≤◌, ◌<◌, ◌≡◌, ◌↔◌, ℕ, List, arith, length}
use nfs_crust.Prelude.Words.{u64_limit}
use nfs_crust.Result.{ok}
use nfs_crust.Nfs4.Ops.{NfsOp}
use nfs_crust.Nfs4.Compound.{validate_compound_request_limits}

-- As long as the number of operations does not saturate, a compound passes exactly when its operations, the SEQUENCE before them included, are within the
-- negotiated number, and the encoded call is within the negotiated size.
pub validate_compound_request_limits_iff :
    (ops : List NfsOp) (max_compound_ops max_request_size encoded_call_len : ℕ)
    → length ops + 1 < u64_limit
    → (validate_compound_request_limits ops max_compound_ops max_request_size encoded_call_len
        ≡ ok tt)
      ↔ ((length ops + 1 ≤ max_compound_ops) × (encoded_call_len ≤ max_request_size))
unfolding validate_compound_request_limits
validate_compound_request_limits_iff ops m r n h = (λ e. ground arith, λ e. ground arith)
