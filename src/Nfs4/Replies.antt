-- ===== src/Nfs4/Replies.antt =====
-- src/nfs4/codec.rs: the walk over the replies of a compound. Names of compounds only go into
-- messages and are left out.
pub mod Compounds
pub mod Publish
pub mod Sequence
pub mod Directories
pub mod Moves
pub mod Retry
pub mod Complete
pub mod Closes
use nfs_crust.Prelude.{
  ℕ, zero, suc, ◌+◌, ◌-◌, ◌/◌, Bool, true, false, ◌||◌, ◌&&◌, not, Option, none, some, List, [],
  ◌∷◌, take, ltb, leb, ◌==◌, if◌then◌else◌,
}
use nfs_crust.Result.{Result, ok, err, panic, ok_or}
use nfs_crust.Result.Action.{Action, ◌>>=◌, ◌>>◌, pure, fail, lift}
use nfs_crust.Error.{Error}
use nfs_crust.Error.Classify.{nfs_error}
use nfs_crust.Xdr.ByteBuf.{ByteBuf}
use nfs_crust.Xdr.Decoder.{Decoder, remaining, read_u32_pair, read_u32_skip_opaque_and_read_u32}
use nfs_crust.Nfs4.OpCode.{OpCode, to_u32, from_u32}
use nfs_crust.Nfs4.Status.{NfsStatus, is_ok, exist, delay, grace, op_illegal}
use nfs_crust.Nfs4.Types.{FileHandle, StateId}
use nfs_crust.Nfs4.Ops.{NfsOp, opcode}
use nfs_crust.Nfs4.Body.{
  skip_sequence_data, decode_file_handle, decode_open_stateid, skip_change_info,
}

pub record CompoundDecodeError : Type 0 where
  pub status : Option NfsStatus
  pub reply_index : Option ℕ
  pub error : Error

-- `From<Error>`
abbrev pub from_error : Error → CompoundDecodeError
from_error e = record { status = none; reply_index = none; error = e }

-- `CompoundDecodeError::nfs`
abbrev pub nfs : NfsStatus → OpCode → CompoundDecodeError
nfs status op = record { status = some status; reply_index = none; error = nfs_error status op }

abbrev pub get_or : Option ℕ → ℕ → ℕ
get_or none i = i
get_or (some j) i = j

unfoldable pub at_reply : CompoundDecodeError → ℕ → CompoundDecodeError
at_reply e index = record e { reply_index = some (get_or e.reply_index index) }

abbrev pub if_transient : Option NfsStatus → Option NfsStatus
if_transient none = none
if_transient (some s) = if s == delay || s == grace then some s else none

unfoldable pub transient_status : CompoundDecodeError → Option NfsStatus
transient_status e = if_transient e.status

unfoldable pub any_op : (NfsOp → Bool) → List NfsOp → Bool
any_op p [] = false
any_op p (op ∷ ops) = p op || any_op p ops

-- The replies before the failed one, less the reply to SEQUENCE.
unfoldable pub completed_operation : CompoundDecodeError → List NfsOp → OpCode → Bool
completed_operation e ops op =
    any_op (λ candidate. to_u32 (opcode candidate) == to_u32 op)
      (take (get_or e.reply_index 0 - 1) ops)

-- OPEN, CLOSE, LINK and RENAME must not be sent twice.
unfoldable pub is_unrepeatable : NfsOp → Bool
is_unrepeatable (NfsOp.open_op _ _ _ _ _) = true
is_unrepeatable (NfsOp.close _ _) = true
is_unrepeatable (NfsOp.link _) = true
is_unrepeatable (NfsOp.rename _ _) = true
is_unrepeatable _ = false

abbrev pub retry_after : List NfsOp → Option ℕ → Bool
retry_after ops none = false
retry_after ops (some failed_reply) = not (any_op is_unrepeatable (take (failed_reply - 1) ops))

unfoldable pub transient_compound_retry_is_safe : List NfsOp → CompoundDecodeError → Bool
transient_compound_retry_is_safe ops e = retry_after ops e.reply_index

pub record CompoundReplies : Type 0 where
  pub dec : List ℕ
  pub status : NfsStatus
  pub reply_count : ℕ
  pub expected_replies : ℕ
  pub decoded : ℕ

abbrev pub HeaderDecoder : Type 0 → Type 0
HeaderDecoder = Action CompoundDecodeError (List ℕ)

abbrev pub Walk : Type 0 → Type 0
Walk = Action CompoundDecodeError CompoundReplies

-- `?` on a decoder's result
abbrev pub from_dec :
    {A : Type 0} → Result Error (A × List ℕ) → Result CompoundDecodeError (A × List ℕ)
from_dec (ok r) = ok r
from_dec (err e) = err (from_error e)
from_dec panic = panic

abbrev pub onto :
    {A : Type 0}
    → CompoundReplies
    → Result Error (A × List ℕ)
    → Result CompoundDecodeError (A × CompoundReplies)
onto r (ok (a, s)) = ok (a, record r { dec = s })
onto r (err e) = err (from_error e)
onto r panic = panic

unfoldable pub on_dec : {A : Type 0} → Decoder A → Walk A
on_dec d r = onto r (d r.dec)

abbrev pub protocol_failure : {A S : Type 0} → Action CompoundDecodeError S A
protocol_failure = fail (from_error Error.protocol)

-- Another operation than the expected one, and a number that is none.
abbrev pub unexpected : Result Error OpCode → Result CompoundDecodeError OpCode
unexpected (ok op) = err (from_error Error.protocol)
unexpected (err e) = err (from_error e)
unexpected panic = panic

unfoldable pub validate_expected_reply_op :
    ℕ → NfsStatus → OpCode → Result CompoundDecodeError OpCode
validate_expected_reply_op op_raw status expected =
    if op_raw == to_u32 expected
    then ok expected
    else if op_raw == to_u32 OpCode.illegal && status == op_illegal
    then ok OpCode.illegal
    else unexpected (from_u32 op_raw)

-- What a reply that is present, with that status, means to the walk.
abbrev pub require_ok : NfsStatus → OpCode → HeaderDecoder (Unit {0})
require_ok status op = if is_ok status then pure tt else fail (nfs status op)

-- One step further, and the error of a step carries the index of its reply.
abbrev pub step :
    {A : Type 0}
    → CompoundReplies
    → Result CompoundDecodeError (A × List ℕ)
    → Result CompoundDecodeError (Option A × CompoundReplies)
step r (ok (a, s)) = ok (some a, record r { dec = s; decoded = suc r.decoded })
step r (err e) = err (at_reply e r.decoded)
step r panic = panic

unfoldable pub advance_with : {A : Type 0} → HeaderDecoder A → Walk (Option A)
advance_with decode r = if leb r.reply_count r.decoded then ok (none, r) else step r (decode r.dec)

unfoldable pub finish : Walk (Unit {0})
finish r =
    if ltb r.decoded r.reply_count
    then err (from_error Error.protocol)
    else if is_ok r.status
    then ok (tt, r)
    else err (nfs r.status OpCode.illegal)

-- The replies are dropped when the walk is over.
abbrev pub drop_walk :
    {A : Type 0}
    → Result CompoundDecodeError (A × CompoundReplies)
    → Result CompoundDecodeError (A × List ℕ)
drop_walk (ok (a, r)) = ok (a, r.dec)
drop_walk (err e) = err e
drop_walk panic = panic

abbrev pub is_present : {A : Type 0} → Option A → Bool
is_present none = false
is_present (some a) = true

module _ ⦃b : ByteBuf⦄ where
  unfoldable pub read_header : HeaderDecoder (ℕ × ℕ)
  read_header s = from_dec (read_u32_pair s)

  unfoldable pub decode_expected_op : OpCode → HeaderDecoder (Unit {0})
  decode_expected_op expected = do
    (op_raw, status) ← read_header
    op ← lift (validate_expected_reply_op op_raw status expected)
    require_ok status op

  unfoldable pub decode_expected_op_or_exist : OpCode → HeaderDecoder Bool
  decode_expected_op_or_exist expected = do
    (op_raw, status) ← read_header
    op ← lift (validate_expected_reply_op op_raw status expected)
    if is_ok status
        then pure false
        else if to_u32 op == to_u32 expected && status == exist
        then pure true
        else fail (nfs status op)

  unfoldable pub advance : OpCode → Walk Bool
  advance op = do present ← advance_with (decode_expected_op op); pure (is_present present)

  unfoldable pub sequence : Walk (Unit {0})
  sequence = do
    present ← advance OpCode.sequence
    if present then on_dec skip_sequence_data else pure tt

  unfoldable pub result : {A : Type 0} → OpCode → Decoder A → Walk (Option A)
  result op decode = do
    present ← advance op
    if present then (do a ← on_dec decode; pure (some a)) else pure none

  unfoldable pub getfh : Walk (Option FileHandle)
  getfh = result OpCode.get_fh decode_file_handle

  unfoldable pub lookups : ℕ → Walk (Unit {0})
  lookups zero = pure tt
  lookups (suc count) =
      let rest = lookups count in
      (do present ← advance OpCode.lookup; if present then rest else pure tt)

  unfoldable pub rename_publish : Walk Bool
  rename_publish = do
    present ← advance OpCode.rename
    if present then (do on_dec skip_change_info; on_dec skip_change_info; pure true) else pure false

  unfoldable pub skip_change_if : Bool → Walk (Unit {0})
  skip_change_if present = if present then on_dec skip_change_info else pure tt

  unfoldable pub link_remove_publish : ℕ → Walk Bool
  link_remove_publish parent_lookup_count = do
    saved ← advance OpCode.save_fh
    put ← advance OpCode.put_fh
    lookups parent_lookup_count
    linked ← advance OpCode.link
    skip_change_if linked
    removed ← advance OpCode.remove
    if removed then (do on_dec skip_change_info; pure true) else pure false

  unfoldable pub decode_compound_header : HeaderDecoder (NfsStatus × ℕ)
  decode_compound_header s = from_dec (
      (do
        (status, reply_count) ← read_u32_skip_opaque_and_read_u32
        left ← remaining
        if ltb (left / 8) reply_count then fail Error.xdr else pure (status, reply_count))
        s)

  -- `CompoundReplies::new`, the walk, and the result of the walk.
  unfoldable pub with_replies : {A : Type 0} → ℕ → Walk A → HeaderDecoder A
  with_replies expected_replies walk = do
    (status, reply_count) ← decode_compound_header
    if ltb expected_replies reply_count then protocol_failure else λ s. drop_walk (
        walk (record {
          dec = s;
          status = status;
          reply_count = reply_count;
          expected_replies = expected_replies;
          decoded = 0;
        }))
