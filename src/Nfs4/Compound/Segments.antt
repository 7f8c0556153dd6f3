-- ===== src/Nfs4/Compound/Segments.antt =====
-- The segmented encoding of src/nfs4/codec.rs has the bytes of the whole one, and the length that the
-- client computed for them.
use mathlib.Core.Path.{subst}
use nfs_crust.Prelude.{
  ℕ, ◌+◌, ◌-◌, ◌%◌, ◌<◌, ◌≡◌, refl, sym, ap, ◌∙◌, Option, none, some, List, [], ◌∷◌, ◌++◌,
  append-nil, append_assoc, All, arith, length, length-append, replicate, min,
}
use nfs_crust.Prelude.Words.{be, u32_limit, u64_limit, saturating_add}
use nfs_crust.Result.{Result, ok, err, panic}
use nfs_crust.Result.Try.{◌>>=◌}
use nfs_crust.Error.{Error}
use nfs_crust.Xdr.ByteBuf.{ByteBuf}
use nfs_crust.Xdr.Length.{xdr_padding, xdr_fixed_opaque_len}
use nfs_crust.Xdr.Length.Laws.{xdr_opaque_len_lem, xdr_padding_aligns}
use nfs_crust.Xdr.Encoder.{XdrEncoder, put_opaque, put_string}
use nfs_crust.Xdr.Encoder.Format.{
  opaque_format, put_bytes-format, put_opaque-format, put_u32-format,
}
use nfs_crust.Rpc.Payload.{RpcPayload, from_segments, concat, concat-append, from_segments_lem}
use nfs_crust.Nfs4.OpCode.{OpCode, to_u32}
use nfs_crust.Nfs4.OpCode.Laws.{to_u32-lt}
use nfs_crust.Nfs4.Types.{StateId}
use nfs_crust.Nfs4.Writer.{
  Writer, writes, u32, u64, encode_stateid, saturating_encoded_len, stateid_len,
}
use nfs_crust.Nfs4.Writer.Emits.{
  Emits, EmitsAll, Emits-all, Emits-nil, ◌▸◌, Emits-u32, Emits-u64, Emits-raw, Emits-flag,
  Emits-string, Emits-stateid,
}
use nfs_crust.Nfs4.Ops.{NfsOp, encode, encoded_len, xdr_string_len, unstable4}
use nfs_crust.Nfs4.Ops.Length.{InRange, IsText, encode-encoded_len}
use nfs_crust.Nfs4.Compound.{
  SequenceArgs, add_op_lens, compound_encoded_len, sequence_op_encoded_len,
  compound_with_sequence_encoded_len, as_write, encode_sequence_op, encode_each,
  encode_compound_inner, encode_write_head, encode_segments, encode_compound_with_sequence,
}

resume :
    (r : Result Error XdrEncoder) (f g h : Writer)
    → ((enc : XdrEncoder) → h enc ≡ (f enc >>= g))
    → (r >>= h) ≡ ((r >>= f) >>= g)
resume (ok enc) f g h e = e enc
resume (err x) f g h e = refl
resume panic f g h e = refl

writes-append :
    (xs ys : List Writer) (enc : XdrEncoder) → writes (xs ++ ys) enc ≡ (writes xs enc >>= writes ys)
unfolding writes
writes-append [] ys enc = refl
writes-append (x ∷ xs) ys enc = resume (x enc) (writes xs) (writes ys) _ (writes-append xs ys)

-- One more write behind a list of known bytes.
one_more :
    {n : ℕ} {ws : List Writer} (p : EmitsAll n ws) (w : Writer) (x : List ℕ)
    → ((enc : XdrEncoder) → w enc ≡ ok (enc ++ x))
    → (enc : XdrEncoder) → writes (ws ++ (w ∷ [])) enc ≡ ok (enc ++ (p.emits.bytes ++ x))
unfolding writes
one_more {n} {ws} p w x h enc =
    writes-append ws (w ∷ []) enc
    ∙ rw (p.emits.appends enc, h (enc ++ p.emits.bytes)) (ap ok (append_assoc enc p.emits.bytes x))

module _ ⦃b : ByteBuf⦄ where
  -- What one operation adds to the segments: `head` to the encoder at hand, then the data if it is a
  -- WRITE, and `tail` for the next encoder.
  record WritePieces (s : StateId) (offset : ℕ) (v : List ℕ) : Type 0 where
    head : List ℕ
    head_appends : (enc : XdrEncoder) → encode_write_head s offset v enc ≡ ok (enc ++ head)
    whole_appends :
        (enc : XdrEncoder)
        → encode (NfsOp.write s offset v) enc
          ≡ ok (enc ++ (head ++ (v ++ replicate (xdr_padding (length v)) 0)))

  write_pieces :
      (s : StateId) (offset : ℕ) (v : List ℕ)
      → InRange (NfsOp.write s offset v)
      → WritePieces s offset v
  unfolding encode_write_head encode
  write_pieces s offset v h = record {
    head = before.emits.bytes ++ be 4 (length v);
    head_appends = one_more before (u32 (length v % u32_limit)) (be 4 (length v)) word_appends;
    whole_appends = λ enc.
        one_more before (put_opaque v) (opaque_format v) (λ e. put_opaque-format v e h.2) enc
        ∙ ap (λ t. ok (enc ++ t)) (sym (append_assoc before.emits.bytes (be 4 (length v)) _));
  }
    where
      before :
          EmitsAll
            (4 + (stateid_len + (8 + (4 + 0))))
            (u32 (to_u32 OpCode.write) ∷ encode_stateid s ∷ u64 offset ∷ u32 unstable4 ∷ [])
      before =
          Emits-u32 (to_u32 OpCode.write) (to_u32-lt OpCode.write)
          ▸ Emits-stateid s h.0.0 h.0.1
          ▸ Emits-u64 offset h.1
          ▸ Emits-u32 unstable4 (omega arith)
          ▸ Emits-nil

      word_appends : (e : XdrEncoder) → u32 (length v % u32_limit) e ≡ ok (e ++ be 4 (length v))
      word_appends e =
          let whole : length v % u32_limit ≡ length v = omega (arith, h.2) in
          rw whole (ap ok (put_u32-format (length v) e h.2))

  abbrev op_lens : List NfsOp → ℕ
  op_lens [] = 0
  op_lens (op ∷ ops) = encoded_len op + op_lens ops

  -- Both encodings of a list of operations add the same bytes.
  record BothWays (ops : List NfsOp) : Type 0 where
    bytes : List ℕ
    size : length bytes ≡ op_lens ops
    whole : (enc : XdrEncoder) → writes (encode_each ops) enc ≡ ok (enc ++ bytes)
    split :
        (enc : XdrEncoder) (segments : List (List ℕ))
        → (out : List (List ℕ)) × (encode_segments ops enc segments ≡ ok out)
          × (concat out ≡ concat segments ++ (enc ++ bytes))

  as_write-some :
      (op : NfsOp) (s : StateId) (offset : ℕ) (v : List ℕ)
      → as_write op ≡ some (s, offset, v)
      → op ≡ NfsOp.write s offset v
  unfolding as_write
  as_write-some (NfsOp.write t k u) s offset v e = cc
  as_write-some _ s offset v e = cc

  both_write :
      (s : StateId) (offset : ℕ) (v : List ℕ) (ops : List NfsOp)
      → InRange (NfsOp.write s offset v)
      → BothWays ops
      → BothWays (NfsOp.write s offset v ∷ ops)
  unfolding writes encode_segments as_write
  both_write s offset v ops h r = record {
    bytes = piece ++ r.bytes;
    size = omega (arith, length-append piece r.bytes, r.size, same_size);
    whole = λ enc.
        rw (p.whole_appends enc, r.whole (enc ++ piece)) (ap ok (append_assoc enc piece r.bytes));
    split = λ enc segments.
        let (out, runs, joined) = r.split ([] ++ pad) (segments ++ ((enc ++ p.head) ∷ v ∷ [])) in
        (
          out,
          rw (p.head_appends enc, put_bytes-format pad []) runs,
          joined ∙ simp (concat-append, append_assoc, append-nil),
        );
  }
    where
      p : WritePieces s offset v
      p = write_pieces s offset v h

      pad : List ℕ
      pad = replicate (xdr_padding (length v)) 0

      piece : List ℕ
      piece = p.head ++ (v ++ pad)

      same_size : length piece ≡ encoded_len (NfsOp.write s offset v)
      same_size =
          let e = encode-encoded_len (NfsOp.write s offset v) h in
          let same : piece ≡ e.bytes = cc (p.whole_appends [], e.appends []) in
          ap length same ∙ e.size

  both_other :
      (op : NfsOp) (ops : List NfsOp)
      → as_write op ≡ none
      → InRange op
      → BothWays ops
      → BothWays (op ∷ ops)
  unfolding writes encode_segments
  both_other op ops other h r =
      let e = encode-encoded_len op h in
      record {
        bytes = e.bytes ++ r.bytes;
        size = omega (arith, length-append e.bytes r.bytes, r.size, e.size);
        whole = λ enc.
            rw (e.appends enc, r.whole (enc ++ e.bytes)) (ap ok (append_assoc enc e.bytes r.bytes));
        split = λ enc segments.
            let (out, runs, joined) = r.split (enc ++ e.bytes) segments in
            (
              out,
              rw (other, encode_segments, e.appends enc) runs,
              joined ∙ ap (λ t. concat segments ++ t) (append_assoc enc e.bytes r.bytes),
            );
      }

  both_cons :
      (op : NfsOp) (ops : List NfsOp) (w : Option (StateId × ℕ × List ℕ))
      → as_write op ≡ w
      → InRange op
      → BothWays ops
      → BothWays (op ∷ ops)
  both_cons op ops none e h rest = both_other op ops e h rest
  both_cons op ops (some (s, offset, v)) e h rest =
      let same = as_write-some op s offset v e in
      subst (λ o. BothWays (o ∷ ops)) (sym same)
        (both_write s offset v ops (subst InRange same h) rest)

  both : (ops : List NfsOp) → All InRange ops → BothWays ops
  unfolding writes encode_segments
  both [] h = record {
    bytes = [];
    size = refl;
    whole = λ enc. ap ok (sym (append-nil enc));
    split = λ enc segments. (segments ++ (enc ∷ []), refl, simp (concat-append, append-nil));
  }
  both (op ∷ ops) h = both_cons op ops (as_write op) refl h.0 (both ops h.1)

  abbrev pub IsSequence : SequenceArgs → Type 0
  IsSequence q =
      (length q.sessionid ≡ 16)
      × (q.sequenceid < u32_limit)
      × (q.slotid < u32_limit)
      × (q.highest_slotid < u32_limit)

  add_op_lens_lem :
      (ops : List NfsOp) (total : ℕ)
      → total < u64_limit
      → add_op_lens total ops ≡ min (total + op_lens ops) (u64_limit - 1)
  add_op_lens_lem [] total h = omega arith
  add_op_lens_lem (op ∷ ops) total h =
      omega (arith, add_op_lens_lem ops (saturating_add total (encoded_len op)))

  Emits-sequence :
      (q : SequenceArgs) → IsSequence q → Emits sequence_op_encoded_len (encode_sequence_op q)
  unfolding sequence_op_encoded_len encode_sequence_op
  Emits-sequence q h =
      Emits-all
        (Emits-u32 (to_u32 OpCode.sequence) (to_u32-lt OpCode.sequence)
          ▸ Emits-raw q.sessionid
          ▸ Emits-u32 q.sequenceid h.1
          ▸ Emits-u32 q.slotid h.2
          ▸ Emits-u32 q.highest_slotid h.3
          ▸ Emits-flag q.cachethis
          ▸ Emits-nil)
        (unfold saturating_encoded_len xdr_fixed_opaque_len xdr_padding in omega (arith, h.0))

  unsaturated :
      (tag : List ℕ) (ops : List NfsOp)
      → IsText tag
      → compound_with_sequence_encoded_len tag ops < u64_limit - 1
      → compound_with_sequence_encoded_len tag ops
        ≡ xdr_string_len tag + (4 + (4 + (sequence_op_encoded_len + 0))) + op_lens ops
  unfolding compound_with_sequence_encoded_len compound_encoded_len saturating_encoded_len
  unsaturated tag ops ht fits = omega (
    arith,
    fits,
    xdr_opaque_len_lem (length tag) ht,
    xdr_padding_aligns (length tag),
    add_op_lens_lem ops (saturating_encoded_len (xdr_string_len tag ∷ 4 ∷ 4 ∷ [])),
  )

  -- With a tag, a SEQUENCE and operations whose fields are in the ranges of their types, and a length
  -- below the largest `usize`, the segmented encoding of a compound and the whole one both succeed
  -- with the same bytes, and both lengths that the client relies on are right: the one computed
  -- beforehand and the payload's.
  pub encode_compound_with_sequence-eq :
      (tag : List ℕ) (q : SequenceArgs) (ops : List NfsOp)
      → IsText tag
      → IsSequence q
      → All InRange ops
      → compound_with_sequence_encoded_len tag ops < u64_limit - 1
      → (bytes : List ℕ) × (payload : RpcPayload) × (encode_compound_inner tag (some q) ops
          ≡ ok bytes)
        × (encode_compound_with_sequence tag q ops ≡ ok payload)
        × (concat payload.segments ≡ bytes)
        × (payload.len ≡ length bytes)
        × (length bytes ≡ compound_with_sequence_encoded_len tag ops)
  unfolding encode_compound_inner encode_compound_with_sequence
  encode_compound_with_sequence-eq tag q ops ht hq ho fits =
      let (out, runs, joined) = r.split front.emits.bytes [] in
      let count : length (concat out) < u64_limit = omega (arith, ap length joined, total, fits) in
      let (same, len) = from_segments_lem out count in
      (
        front.emits.bytes ++ r.bytes,
        from_segments out,
        writes-append (put_string tag ∷ u32 1 ∷ word ∷ encode_sequence_op q ∷ []) (encode_each ops)
              []
            ∙ rw (front.emits.appends []) (r.whole front.emits.bytes),
        rw (front.emits.appends [], runs) refl,
        same ∙ joined,
        len ∙ ap length joined,
        total,
      )
    where
      word : Writer
      word = u32 (saturating_add (length ops) 1 % u32_limit)

      front :
          EmitsAll
            (xdr_string_len tag + (4 + (4 + (sequence_op_encoded_len + 0))))
            (put_string tag ∷ u32 1 ∷ word ∷ encode_sequence_op q ∷ [])
      front =
          Emits-string tag ht
          ▸ Emits-u32 1 (omega arith)
          ▸ Emits-u32 _ (omega arith)
          ▸ Emits-sequence q hq
          ▸ Emits-nil

      r : BothWays ops
      r = both ops ho

      total : length (front.emits.bytes ++ r.bytes) ≡ compound_with_sequence_encoded_len tag ops
      total = omega (
        arith,
        length-append front.emits.bytes r.bytes,
        front.emits.size,
        r.size,
        unsaturated tag ops ht fits,
      )
