-- ===== src/Nfs4/Body/Setup/Moves.antt =====
-- src/nfs4/codec.rs: the results of EXCHANGE_ID and CREATE_SESSION. No decoder panics, and the limits
-- of a channel that it accepts are those the client can work with.
use nfs_crust.Prelude.{
  refl, sym, ◌∙◌, ==_iff, ℕ, zero, suc, ◌+◌, ◌*◌, ◌/◌, ◌≤◌, ◌<◌, ◌≡◌, List, arith, length, ltb,
  ◌==◌, if◌then◌else◌, inl, inr, Bool-cases,
}
use nfs_crust.Prelude.Words.{u32_limit}
use nfs_crust.Result.{Result, ok}
use nfs_crust.Result.Action.{
  Ensures, Ensures-known, Ensures-lift, Ensures-weaken, ◌▹◌, lift, pure, fail,
}
use nfs_crust.Error.{Error}
use nfs_crust.Xdr.ByteBuf.{ByteBuf}
use nfs_crust.Xdr.Decoder.{read_bytes, read_u32, skip_bytes_after_require}
use nfs_crust.Xdr.Decoder.Moves.{
  Moved, skip_moves, read_u32_moves, read_u64_moves, read_bytes_moves, skip_bytes_moves,
}
use nfs_crust.Nfs4.Body.Moves.{Shrinks, remaining_moves, skip_opaque_moves}
use nfs_crust.Nfs4.Body.Setup.{
  ChannelAttrs, CreateSessionResult, nonzero_channel_limit, min_sequence_compound_response_size,
  validate_fore_channel_minimums, decode_state_protect, skip_impl_ids, skip_impl_id_array,
  decode_exchange_id, decode_channel_attrs, decode_create_session,
}

-- No limit of the channel is zero, and each is a `u32`.
pub record IsOpen (attrs : ChannelAttrs) : Type 0 where
  pub request : (0 < attrs.max_request_size) × (attrs.max_request_size < u32_limit)
  pub response : (0 < attrs.max_response_size) × (attrs.max_response_size < u32_limit)
  pub operations : (0 < attrs.maxoperations) × (attrs.maxoperations < u32_limit)
  pub requests : (0 < attrs.maxrequests) × (attrs.maxrequests < u32_limit)

-- The fore channel carries a SEQUENCE and one more operation, a request of the least size, and the
-- reply to it; the session id has its sixteen bytes.
pub record IsSession (minimum : ℕ) (r : CreateSessionResult) : Type 0 where
  pub id : length r.sessionid ≡ 16
  pub opened : IsOpen r.fore_attrs
  pub operations : 2 ≤ r.fore_attrs.maxoperations
  pub request : minimum ≤ r.fore_attrs.max_request_size
  pub response : min_sequence_compound_response_size ≤ r.fore_attrs.max_response_size

nonzero_moves :
    (n : ℕ) (s : List ℕ)
    → Ensures (λ v s'. Moved s 0 s' × (v ≡ n) × (0 < v)) (lift (nonzero_channel_limit n) s)
unfolding nonzero_channel_limit
nonzero_moves n s =
    Ensures-lift _ (nonzero_channel_limit n) s (λ e. ground arith)
      λ v e. (omega arith, ground arith, ground arith)

minimums_moves :
    (attrs : ChannelAttrs) (minimum : ℕ) (s : List ℕ)
    → Ensures
        (λ _ s'.
          Moved s 0 s'
          × (2 ≤ attrs.maxoperations)
          × (minimum ≤ attrs.max_request_size)
          × (min_sequence_compound_response_size ≤ attrs.max_response_size))
        (lift (validate_fore_channel_minimums attrs minimum) s)
unfolding validate_fore_channel_minimums
minimums_moves attrs minimum s =
    Ensures-lift _ (validate_fore_channel_minimums attrs minimum) s (λ e. ground arith)
      λ v e. (omega arith, ground arith, ground arith, ground arith)

module _ ⦃b : ByteBuf⦄ where
  state_protect_moves : (s : List ℕ) → Ensures (Shrinks s) (decode_state_protect s)
  unfolding decode_state_protect
  state_protect_moves s = read_u32_moves s ▹ λ mode s1 h1. elim (Bool-cases (mode == 0)) [
    | inl t ↦ rw t (record { holds = omega arith })
    | inr t ↦ rw t (elim (Bool-cases (mode == 1)) [
      | inl u ↦ rw u (record { holds = tt })
      | inr u ↦ rw u (elim (Bool-cases (mode == 2)) [
        | inl w ↦ rw w (record { holds = tt })
        | inr w ↦ rw w (record { holds = tt })
      ])
    ])
  ]

  impl_ids_moves : (n : ℕ) (s : List ℕ) → Ensures (Shrinks s) (skip_impl_ids n s)
  unfolding skip_impl_ids
  impl_ids_moves zero s = record { holds = omega arith }
  impl_ids_moves (suc n) s = skip_opaque_moves s ▹ λ _ s1 h1. skip_opaque_moves s1 ▹ λ _ s2 h2.
      skip_bytes_moves 12 s2 ▹ λ _ s3 h3.
      Ensures-weaken _ (impl_ids_moves n s3) λ _ s4 h4. omega arith

  impl_id_array_moves : (s : List ℕ) → Ensures (Shrinks s) (skip_impl_id_array s)
  unfolding skip_impl_id_array
  impl_id_array_moves s = read_u32_moves s ▹ λ n s1 h1. remaining_moves s1 ▹ λ left s2 h2.
      elim (Bool-cases (ltb (left / (4 + 4 + (8 + 4))) n)) [
        | inl t ↦ rw t (record { holds = tt })
        | inr t ↦ rw t (Ensures-weaken _ (impl_ids_moves n s2) λ _ s3 h3. omega arith)
      ]

  pub exchange_id_moves : (s : List ℕ) → Ensures (Shrinks s) (decode_exchange_id s)
  unfolding decode_exchange_id
  exchange_id_moves s = read_u64_moves s ▹ λ clientid s1 h1. read_u32_moves s1 ▹ λ sequenceid s2 h2.
      read_u32_moves s2 ▹ λ flags s3 h3. state_protect_moves s3 ▹ λ _ s4 h4.
      read_u64_moves s4 ▹ λ minor s5 h5. skip_opaque_moves s5 ▹ λ _ s6 h6.
      skip_opaque_moves s6 ▹ λ _ s7 h7.
      impl_id_array_moves s7 ▹ λ _ s8 h8. record { holds = omega arith }

  rdma_moves :
      (n : ℕ) (left : ℕ) (s : List ℕ)
      → left ≡ length s
      → Ensures
          (Shrinks s)
          ((if ltb (left / 4) n then fail Error.xdr else skip_bytes_after_require (n * 4)) s)
  rdma_moves n left s h = elim (Bool-cases (ltb (left / 4) n)) [
    | inl t ↦ rw t (record { holds = tt })
    | inr t ↦ rw t (Ensures-weaken _ (skip_moves (n * 4) s (ground arith)) λ _ s1 h1. omega arith)
  ]

  pub channel_attrs_moves :
      (s : List ℕ) → Ensures (λ v s'. (length s' ≤ length s) × IsOpen v) (decode_channel_attrs s)
  unfolding decode_channel_attrs
  channel_attrs_moves s = read_u32_moves s ▹ λ pad s1 h1. read_u32_moves s1 ▹ λ request s2 h2.
      nonzero_moves request s2 ▹ λ a s3 h3. read_u32_moves s3 ▹ λ response s4 h4.
      nonzero_moves response s4 ▹ λ c s5 h5. read_u32_moves s5 ▹ λ cached s6 h6.
      read_u32_moves s6 ▹ λ operations s7 h7. nonzero_moves operations s7 ▹ λ d s8 h8.
      read_u32_moves s8 ▹ λ requests s9 h9. nonzero_moves requests s9 ▹ λ e s10 h10.
      read_u32_moves s10 ▹ λ rdma s11 h11. remaining_moves s11 ▹ λ left s12 h12.
      rdma_moves rdma left s12 h12.1 ▹ λ _ s13 h13. record {
        holds = (
          omega arith,
          record {
            request = omega arith;
            response = omega arith;
            operations = omega arith;
            requests = omega arith;
          },
        );
      }

  pair_ok :
      {n m : ℕ} {s t : List ℕ}
      → n ≡ m
      → s ≡ t
      → (let r : Result Error (ℕ × List ℕ) = ok (n, s) in r) ≡ ok (m, t)
  pair_ok e f i = ok (e i, f i)

  same_id_moves :
      (actual expected : ℕ) (s : List ℕ)
      → Ensures
          (λ _ s'. (s' ≡ s) × (actual ≡ expected))
          ((if actual == expected then pure tt else fail Error.protocol) s)
  same_id_moves actual expected s = elim (Bool-cases (actual == expected)) [
    | inl t ↦ rw t (record { holds = (refl, (==_iff _ _).0 t) })
    | inr t ↦ rw t (record { holds = tt })
  ]

  -- The bytes are the id, the sequence id of the request, the flags, and the fore channel's limits.
  abbrev pub IsReplyTo : ℕ → List ℕ → CreateSessionResult → Type 0
  IsReplyTo sequenceid s r =
      (s1 : List ℕ) × (s2 : List ℕ) × (flags : ℕ) × (s3 : List ℕ) × (s4 : List ℕ) × (read_bytes 16 s
        ≡ ok (r.sessionid, s1))
      × (read_u32 s1 ≡ ok (sequenceid, s2))
      × (read_u32 s2 ≡ ok (flags, s3))
      × (decode_channel_attrs s3 ≡ ok (r.fore_attrs, s4))

  -- Decoding a CREATE_SESSION result never panics. A session that it accepts is the one of the bytes:
  -- they begin with its id, of sixteen bytes, the sequence id that was asked for, some flags and the
  -- limits of its fore channel. No limit is zero, and the fore channel carries two operations, SEQUENCE
  -- and one more, a request of the least size and the least reply.
  pub decode_create_session-IsSession :
      (sequenceid minimum : ℕ) (s : List ℕ)
      → Ensures
          (λ r s'. IsSession minimum r × IsReplyTo sequenceid s r)
          (decode_create_session sequenceid minimum s)
  unfolding decode_create_session
  decode_create_session-IsSession sequenceid minimum s =
      Ensures-known _ (read_bytes_moves 16 s) ▹ λ id s1 h1.
      Ensures-known _ (read_u32_moves s1) ▹ λ actual s2 h2.
      same_id_moves actual sequenceid s2 ▹ λ _ s3 h3.
      Ensures-known _ (read_u32_moves s3) ▹ λ flags s4 h4.
      Ensures-known _ (channel_attrs_moves s4) ▹ λ fore s5 h5.
      minimums_moves fore minimum s5 ▹ λ _ s6 h6. channel_attrs_moves s6 ▹ λ back s7 h7. record {
        holds = (
          record {
            id = (h1.1).1;
            opened = (h5.1).1;
            operations = h6.1;
            request = h6.2;
            response = h6.3;
          },
          (s1, s3, flags, s4, s5, h1.0, h2.0 ∙ pair_ok (h3.1) (sym h3.0), h4.0, h5.0),
        );
      }
