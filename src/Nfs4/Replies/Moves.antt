-- ===== src/Nfs4/Replies/Moves.antt =====
-- src/nfs4/codec.rs: what a step of `CompoundReplies` does to the count of decoded replies. No step
-- panics, and once the replies are used up every further step finds none.
use nfs_crust.Prelude.{
  ℕ, zero, suc, ◌+◌, ◌≤◌, ◌<◌, ◌≡◌, ◌≢◌, refl, sym, ◌∙◌, min, Bool, true, false, ◌&&◌, List, arith,
  ltb, leb, ◌==◌, inl, inr, Bool-cases,
}
use nfs_crust.Result.{Result, ok, err, panic}
use nfs_crust.Result.Action.{Ensures, Ensures-lift, Ensures-weaken, Ensures-ne-panic, ◌▹◌}
use nfs_crust.Error.{Error}
use nfs_crust.Xdr.ByteBuf.{ByteBuf}
use nfs_crust.Xdr.Decoder.{Decoder, read_u32_pair}
use nfs_crust.Xdr.Decoder.Moves.{read_u32_pair_moves}
use nfs_crust.Nfs4.OpCode.{OpCode, to_u32, from_u32}
use nfs_crust.Nfs4.OpCode.Laws.{from_u32-ne-panic}
use nfs_crust.Nfs4.Status.{NfsStatus, is_ok, op_illegal}
use nfs_crust.Nfs4.Body.{skip_sequence_data, decode_file_handle, skip_change_info}
use nfs_crust.Nfs4.Body.Moves.{sequence_data_moves, file_handle_moves, change_info_moves}
use nfs_crust.Nfs4.Replies.{
  CompoundDecodeError, CompoundReplies, HeaderDecoder, from_dec, onto, on_dec,
  validate_expected_reply_op, unexpected, step, advance_with, finish, is_present, read_header,
  decode_expected_op, advance, sequence, result, getfh, lookups, rename_publish, skip_change_if,
  link_remove_publish,
}

-- `k` replies further, or at the end.
abbrev pub Further : ℕ → CompoundReplies → CompoundReplies → Type 0
Further k r r' =
    (r'.status ≡ r.status)
    × (r'.reply_count ≡ r.reply_count)
    × (r'.decoded ≡ min r.reply_count (r.decoded + k))

abbrev pub IsOn : CompoundReplies → Type 0
IsOn r = r.decoded ≤ r.reply_count

-- No panic, whatever the state.
abbrev pub IsSafe : {A : Type 0} → (List ℕ → Result Error (A × List ℕ)) → Type 0
IsSafe d = (s : List ℕ) → d s ≢ panic

abbrev pub Anything : {A S : Type 0} → A → S → Type 0
Anything a s = Unit

pub header_safe :
    {A : Type 0} (r : Result Error (A × List ℕ)) → r ≢ panic → Ensures Anything (from_dec r)
header_safe (ok a) h = record { holds = tt }
header_safe (err e) h = record { holds = tt }
header_safe panic h = absurd (h refl)

unexpected_safe : (r : Result Error OpCode) → r ≢ panic → unexpected r ≢ panic
unexpected_safe (ok op) h = ground arith
unexpected_safe (err e) h = ground arith
unexpected_safe panic h = absurd (h refl)

pub on_dec_moves :
    {A : Type 0} (d : Decoder A) (r : CompoundReplies)
    → IsOn r
    → IsSafe d
    → Ensures (λ _ r'. Further 0 r r') (on_dec d r)
unfolding on_dec
on_dec_moves {A = A} d r h safe = onward (d r.dec) (safe r.dec)
  where
    onward :
        (x : Result Error (A × List ℕ)) → x ≢ panic → Ensures (λ _ r'. Further 0 r r') (onto r x)
    onward (ok (a, s)) n = record { holds = (refl, refl, omega arith) }
    onward (err e) n = record { holds = tt }
    onward panic n = absurd (n refl)

pub advance_with_moves :
    {A : Type 0} (d : HeaderDecoder A) (r : CompoundReplies)
    → IsOn r
    → ((s : List ℕ) → Ensures Anything (d s))
    → Ensures
        (λ o r'. Further 1 r r' × (is_present o ≡ ltb r.decoded r.reply_count))
        (advance_with d r)
unfolding advance_with
advance_with_moves {A = A} d r h safe = elim (Bool-cases (leb r.reply_count r.decoded)) [
  | inl t ↦ rw t (record { holds = ((refl, refl, ground arith), ground arith) })
  | inr t ↦ rw t (onward (d r.dec) (safe r.dec) t)
]
  where
    onward :
        (x : Result CompoundDecodeError (A × List ℕ))
        → Ensures Anything x
        → leb r.reply_count r.decoded ≡ false
        → Ensures (λ o r'. Further 1 r r' × (is_present o ≡ ltb r.decoded r.reply_count)) (step r x)
    onward (ok (a, s)) n t = record { holds = ((refl, refl, ground arith), ground arith) }
    onward (err e) n t = record { holds = tt }
    onward panic n t = absurd n.holds

pub finish_moves :
    (r : CompoundReplies)
    → IsOn r
    → Ensures (λ _ r'. Further 0 r r' × (r.decoded ≡ r.reply_count) × (r.status ≡ 0)) (finish r)
unfolding finish
finish_moves r h = elim (Bool-cases (ltb r.decoded r.reply_count)) [
  | inl t ↦ rw t (record { holds = tt })
  | inr t ↦ rw t (elim (Bool-cases (is_ok r.status)) [
    | inl u ↦ rw u (record { holds = ((refl, refl, omega arith), ground arith, ground arith) })
    | inr u ↦ rw u (record { holds = tt })
  ])
]

expected_reply_safe :
    (raw : ℕ) (status : NfsStatus) (op : OpCode) → validate_expected_reply_op raw status op ≢ panic
unfolding validate_expected_reply_op
expected_reply_safe raw status op = elim (Bool-cases (raw == to_u32 op)) [
  | inl t ↦ rw t (λ e. ground arith)
  | inr t ↦ rw t (elim (Bool-cases (raw == to_u32 OpCode.illegal && status == op_illegal)) [
    | inl u ↦ rw u (λ e. ground arith)
    | inr u ↦ rw u (unexpected_safe (from_u32 raw) (from_u32-ne-panic raw))
  ])
]

module _ ⦃b : ByteBuf⦄ where
  header_moves : (s : List ℕ) → Ensures Anything (read_header s)
  unfolding read_header
  header_moves s = header_safe (read_u32_pair s) (Ensures-ne-panic _ (read_u32_pair_moves s))

  expected_op_moves : (op : OpCode) (s : List ℕ) → Ensures Anything (decode_expected_op op s)
  unfolding decode_expected_op
  expected_op_moves op s = header_moves s ▹ λ w s1 h1.
      Ensures-lift Anything (validate_expected_reply_op w.0 w.1 op) s1
        (expected_reply_safe w.0 w.1 op) (λ _ _. tt)
      ▹ λ found s2 h2. elim (Bool-cases (is_ok w.1)) [
        | inl t ↦ rw t (record { holds = tt })
        | inr t ↦ rw t (record { holds = tt })
      ]

  pub advance_moves :
      (op : OpCode) (r : CompoundReplies)
      → IsOn r
      → Ensures (λ p r'. Further 1 r r' × (p ≡ ltb r.decoded r.reply_count)) (advance op r)
  unfolding advance
  advance_moves op r h =
      advance_with_moves (decode_expected_op op) r h (expected_op_moves op) ▹ λ o r1 h1. record {
        holds = h1;
      }

  pub sequence_moves :
      (r : CompoundReplies) → IsOn r → Ensures (λ _ r'. Further 1 r r') (sequence r)
  unfolding sequence
  sequence_moves r h = advance_moves OpCode.sequence r h ▹ λ p r1 h1. elim (Bool-cases p) [
    | inl t ↦ rw t (
        Ensures-weaken _
          (on_dec_moves skip_sequence_data r1 (omega arith)
            (λ s. Ensures-ne-panic _ (sequence_data_moves s)))
          λ _ r2 h2. omega arith)
    | inr t ↦ rw t (record { holds = omega arith })
  ]

  pub result_moves :
      {A : Type 0} (op : OpCode) (d : Decoder A) (r : CompoundReplies)
      → IsOn r
      → IsSafe d
      → Ensures
          (λ o r'. Further 1 r r' × (is_present o ≡ ltb r.decoded r.reply_count))
          (result op d r)
  unfolding result
  result_moves op d r h safe = advance_moves op r h ▹ λ p r1 h1. elim (Bool-cases p) [
    | inl t ↦ rw t (
        on_dec_moves d r1 (omega arith) safe ▹ λ a r2 h2. record {
          holds = ((omega arith), sym t ∙ h1.1);
        })
    | inr t ↦ rw t (record { holds = (h1.0, sym t ∙ h1.1) })
  ]

  pub lookups_moves :
      (n : ℕ) (r : CompoundReplies) → IsOn r → Ensures (λ _ r'. Further n r r') (lookups n r)
  unfolding lookups
  lookups_moves zero r h = record { holds = (refl, refl, omega arith) }
  lookups_moves (suc n) r h = advance_moves OpCode.lookup r h ▹ λ p r1 h1. elim (Bool-cases p) [
    | inl t ↦ rw t (Ensures-weaken _ (lookups_moves n r1 (omega arith)) λ _ r2 h2. omega arith)
    | inr t ↦
        rw t (let used : r.reply_count ≤ r.decoded = ground arith in record { holds = omega arith })
  ]

  skip_change_moves :
      (p : Bool) (r : CompoundReplies)
      → IsOn r
      → Ensures (λ _ r'. Further 0 r r') (skip_change_if p r)
  unfolding skip_change_if
  skip_change_moves true r h =
      on_dec_moves skip_change_info r h (λ s. Ensures-ne-panic _ (change_info_moves s))
  skip_change_moves false r h = record { holds = (refl, refl, omega arith) }

  pub getfh_moves :
      (r : CompoundReplies)
      → IsOn r
      → Ensures (λ o r'. Further 1 r r' × (is_present o ≡ ltb r.decoded r.reply_count)) (getfh r)
  unfolding getfh
  getfh_moves r h =
      result_moves OpCode.get_fh decode_file_handle r h
        (λ s. Ensures-ne-panic _ (file_handle_moves s))

  change_info-IsSafe : IsSafe skip_change_info
  change_info-IsSafe s = Ensures-ne-panic _ (change_info_moves s)

  pub rename_publish_moves :
      (r : CompoundReplies)
      → IsOn r
      → Ensures (λ p r'. Further 1 r r' × (p ≡ ltb r.decoded r.reply_count)) (rename_publish r)
  unfolding rename_publish
  rename_publish_moves r h = advance_moves OpCode.rename r h ▹ λ p r1 h1. elim (Bool-cases p) [
    | inl t ↦ rw t (
        on_dec_moves skip_change_info r1 (omega arith) change_info-IsSafe ▹ λ _ r2 h2.
        on_dec_moves skip_change_info r2 (omega arith) change_info-IsSafe ▹ λ _ r3 h3. record {
          holds = (omega arith, sym t ∙ h1.1);
        })
    | inr t ↦ rw t (record { holds = (h1.0, sym t ∙ h1.1) })
  ]

  -- SAVEFH, PUTFH, the lookups, LINK and REMOVE
  pub link_remove_publish_moves :
      (n : ℕ) (r : CompoundReplies)
      → IsOn r
      → Ensures
          (λ p r'. Further (n + 4) r r' × (p ≡ true → r.decoded + (n + 4) ≤ r.reply_count))
          (link_remove_publish n r)
  unfolding link_remove_publish
  link_remove_publish_moves n r h = advance_moves OpCode.save_fh r h ▹ λ _ r1 h1.
      advance_moves OpCode.put_fh r1 (omega arith) ▹ λ _ r2 h2.
      lookups_moves n r2 (omega arith) ▹ λ _ r3 h3.
      advance_moves OpCode.link r3 (omega arith) ▹ λ linked r4 h4.
      skip_change_moves linked r4 (omega arith) ▹ λ _ r5 h5.
      advance_moves OpCode.remove r5 (omega arith) ▹ λ p r6 h6. elim (Bool-cases p) [
        | inl t ↦ rw t (
            on_dec_moves skip_change_info r6 (omega arith) change_info-IsSafe ▹ λ _ r7 h7.
            let there : r5.decoded < r5.reply_count = ground arith in
            record { holds = (omega arith, λ _. omega arith) })
        | inr t ↦ rw t (record { holds = (omega arith, λ e. ground arith) })
      ]
