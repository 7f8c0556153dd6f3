-- ===== src/Nfs4/Replies/Retry.antt =====
-- src/nfs4/codec.rs and src/nfs4/session.rs: when a compound whose reply was an error is sent again.
use nfs_crust.Prelude.{
  true, false, ◌+◌, ◌∙◌, ◌++◌, length, take-append, ltb, if◌then◌else◌, ℕ, ◌-◌, ◌≡◌, refl, ap, Bool,
  ◌||◌, ◌&&◌, not, Option, none, some, List, [], ◌∷◌, take, arith, ◌==◌,
}
use nfs_crust.Nfs4.OpCode.{OpCode, to_u32}
use nfs_crust.Nfs4.Ops.{NfsOp, opcode}
use nfs_crust.Error.{Error}
use nfs_crust.Nfs4.Session.{
  claim_transient_retry, claim_if, retry_transient_compound_error, continues_after,
}
use nfs_crust.Nfs4.Replies.{
  transient_status, if_transient, CompoundDecodeError, any_op, is_unrepeatable, retry_after,
  transient_compound_retry_is_safe,
}

-- The operations that create, close or publish a name.
abbrev is_one_of : NfsOp → Bool
is_one_of op =
    to_u32 (opcode op) == to_u32 OpCode.open_op
    || (to_u32 (opcode op) == to_u32 OpCode.close
        || (to_u32 (opcode op) == to_u32 OpCode.link || to_u32 (opcode op) == to_u32 OpCode.rename))

is_unrepeatable_lem : (op : NfsOp) → is_unrepeatable op ≡ is_one_of op
unfolding is_unrepeatable to_u32 opcode
is_unrepeatable_lem (NfsOp.open_op _ _ _ _ _) = refl
is_unrepeatable_lem (NfsOp.close _ _) = refl
is_unrepeatable_lem (NfsOp.link _) = refl
is_unrepeatable_lem (NfsOp.rename _ _) = refl
is_unrepeatable_lem _ = refl

abbrev any_code : OpCode → List NfsOp → Bool
any_code op ops = any_op (λ candidate. to_u32 (opcode candidate) == to_u32 op) ops

any_op_lem :
    (ops : List NfsOp)
    → any_op is_unrepeatable ops ≡ (
        any_code OpCode.open_op ops
        || (any_code OpCode.close ops || (any_code OpCode.link ops || any_code OpCode.rename ops)))
unfolding any_op
any_op_lem [] = refl
any_op_lem (op ∷ ops) = ground (arith, is_unrepeatable_lem op, any_op_lem ops)

-- OPEN, CLOSE, LINK or RENAME.
abbrev pub has_unrepeatable : List NfsOp → Bool
has_unrepeatable ops =
    any_code OpCode.open_op ops
    || (any_code OpCode.close ops || (any_code OpCode.link ops || any_code OpCode.rename ops))

-- NFS4ERR_DELAY and NFS4ERR_GRACE.
abbrev pub is_transient : Option ℕ → Bool
is_transient none = false
is_transient (some status) = status == 10008 || status == 10013

abbrev pub next_attempt : Bool → ℕ → Option ℕ
next_attempt again attempts = if again then some (attempts + 1) else none

-- The decision on a failure whose reply has an index.
abbrev Decides : Bool → Bool → ℕ → ℕ → Option ℕ → Option ℕ → Type 0
Decides safe retry_transients limit attempts status outcome =
    outcome
    ≡ next_attempt (retry_transients && (is_transient status && (ltb attempts limit && safe)))
        attempts

decides :
    (safe retry_transients : Bool) (limit attempts : ℕ) (e : CompoundDecodeError)
    → Decides safe retry_transients limit attempts e.status
        (if retry_transients && safe then retry_transient_compound_error limit e attempts else none)
unfolding retry_transient_compound_error transient_status claim_transient_retry
decides safe rt limit attempts e = go e.status
  where
    go :
        (status : Option ℕ)
        → Decides safe rt limit attempts status
            (if rt && safe then claim_if (if_transient status) limit attempts else none)
    go none = ground arith
    go (some s) = ground arith

safe_at :
    (before after : List NfsOp) (failed : NfsOp)
    → retry_after (before ++ failed ∷ after) (some (length before + 1))
      ≡ not (has_unrepeatable before)
safe_at before after failed =
    let e : length before + 1 - 1 ≡ length before = omega arith in
    ap (λ n. not (any_op is_unrepeatable (take n (before ++ failed ∷ after)))) e
    ∙ ap (λ ops. not (any_op is_unrepeatable ops)) (take-append before (failed ∷ after))
    ∙ ap not (any_op_lem before)

and-true : (b : Bool) → b && true ≡ b
and-true true = refl
and-true false = refl

never : (b : Bool) (outcome : Option ℕ) → (if b && false then outcome else none) ≡ none
never true outcome = refl
never false outcome = refl

-- A compound whose reply was an error is sent again, with one more attempt counted, exactly when its
-- caller retries transient errors, the status is DELAY or GRACE, attempts are left, and no OPEN, CLOSE,
-- LINK or RENAME stands before the operation that failed. The replies are counted from SEQUENCE on: the
-- failure of the operation behind `before` has the index `length before + 1`, that of SEQUENCE itself the
-- index 0, and a failure without an index is never sent again.
pub continues_after_lem :
    (retry_transients : Bool) (limit attempts : ℕ) (status : Option ℕ) (error : Error)
    (before after : List NfsOp) (failed : NfsOp)
    → (continues_after retry_transients limit
          (before ++ failed ∷ after)
          (record { status = status; reply_index = some (length before + 1); error = error })
          attempts
        ≡ next_attempt
            (retry_transients
              && (is_transient status && (ltb attempts limit && not (has_unrepeatable before))))
            attempts)
      × (continues_after retry_transients limit
            (before ++ failed ∷ after)
            (record { status = status; reply_index = some 0; error = error })
            attempts
          ≡ next_attempt (retry_transients && (is_transient status && ltb attempts limit)) attempts)
      × (continues_after retry_transients limit
            (before ++ failed ∷ after)
            (record { status = status; reply_index = none; error = error })
            attempts
          ≡ none)
unfolding continues_after transient_compound_retry_is_safe any_op
continues_after_lem rt limit attempts status error before after failed =
    let e : Option ℕ → CompoundDecodeError =
      λ i. record { status = status; reply_index = i; error = error } in
    (
      ap
            (λ safe.
              if rt && safe
              then retry_transient_compound_error limit (e (some (length before + 1))) attempts
              else none)
            (safe_at before after failed)
          ∙ decides (not (has_unrepeatable before)) rt limit attempts
              (e (some (length before + 1))),
      decides true rt limit attempts (e (some 0))
          ∙ ap (λ b. next_attempt (rt && (is_transient status && b)) attempts)
              (and-true (ltb attempts limit)),
      never rt (retry_transient_compound_error limit (e none) attempts),
    )
