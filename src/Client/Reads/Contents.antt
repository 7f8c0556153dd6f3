-- ===== src/Client/Reads/Contents.antt =====
-- src/client.rs: a sequential read returns the contents of the file.
use nfs_crust.Prelude.{
  ℕ, zero, suc, ◌≤◌, ◌<◌, ◌+◌, ◌-◌, ◌%◌, min, ◌≡◌, ◌≢◌, refl, ap, sym, ◌∙◌, Bool, true, false, ◌==◌,
  ==_iff, Option, none, some, List, ◌++◌, append_assoc, append-nil, length, length-drop, take, drop,
  take-add, take-all, drop-drop, arith,
}
use nfs_crust.Prelude.Words.{u32_limit}
use nfs_crust.Result.{Result, ok, err, panic}
use nfs_crust.Result.Try.{◌>>=◌, ◌>>◌}
use nfs_crust.Error.{Error}
use nfs_crust.Nfs4.Body.{ReadData}
use nfs_crust.Client.Reads.{
  ExpectedEof, validate_optional_observed_eof, validate_read_reply,
  ensure_buffered_read_within_limit,
}
use nfs_crust.Client.Reads.Cover.{limit-ne-panic}
use nfs_crust.Client.Reads.Complete.{IsChecked, validate_read_reply-IsChecked}
use nfs_crust.Client.Reads.Pipeline.{IsHonest, ReadRequirements}
use nfs_crust.Client.Reads.Sequential.{
  Replies, Progress, eof_after, extended_by, after_reply, read_loop, read_sequential_into,
}

-- The output has grown by the bytes of the file in a range.
abbrev pub IsRead : List ℕ → List ℕ → ℕ → ℕ → Result Error (List ℕ) → Type 0
IsRead file out offset len (ok out') = out' ≡ out ++ take len (drop offset file)
IsRead file out offset len (err e) = Unit
IsRead file out offset len panic = ⊥

pub eof-ne-panic :
    (expected : Option ExpectedEof) (observed : Option ℕ)
    → validate_optional_observed_eof expected observed ≢ panic
unfolding validate_optional_observed_eof
eof-ne-panic none observed h = ground arith
eof-ne-panic (some e) none h = ground arith
eof-ne-panic (some e) (some n) h = ground arith

abbrev LoopRead : List ℕ → Progress → Result Error Progress → Type 0
LoopRead file p (ok p') = p'.out ≡ p.out ++ take p.remaining (drop p.offset file)
LoopRead file p (err e) = Unit
LoopRead file p panic = ⊥

done-LoopRead : (file : List ℕ) (p : Progress) → p.remaining ≡ 0 → LoopRead file p (ok p)
done-LoopRead file p h =
    sym (append-nil p.out) ∙ ap (λ n. p.out ++ take n (drop p.offset file)) (sym h)

-- The bytes of a reply and then the rest.
pub grown :
    (file : List ℕ) (p : Progress) (read : ReadData)
    → read.bytes ≡ take (length read.bytes) (drop p.offset file)
    → length read.bytes ≤ p.remaining
    → p.out
        ++ (read.bytes
            ++ take (p.remaining - length read.bytes) (drop (p.offset + length read.bytes) file))
      ≡ p.out ++ take p.remaining (drop p.offset file)
grown file p read served fits =
    let n = length read.bytes in
    let rest = take (p.remaining - n) (drop (p.offset + n) file) in
    ap (λ t. p.out ++ t)
      (ap (λ t. t ++ rest) served
        ∙ ap (λ d. take n (drop p.offset file) ++ take (p.remaining - n) d)
            (sym (drop-drop p.offset n file))
        ∙ sym (take-add n (p.remaining - n) (drop p.offset file))
        ∙ ap (λ k. take k (drop p.offset file)) (omega arith))

-- The last bytes of the file are all that the range has.
pub ended :
    (file : List ℕ) (p : Progress) (read : ReadData)
    → read.bytes ≡ take (length read.bytes) (drop p.offset file)
    → length read.bytes ≤ p.remaining
    → length file ≤ p.offset + length read.bytes
    → p.out ++ read.bytes ≡ p.out ++ take p.remaining (drop p.offset file)
ended file p read served fits h =
    ap (λ t. p.out ++ t)
      (served
        ∙ take-all (length read.bytes) (drop p.offset file)
            (omega (arith, length-drop p.offset file))
        ∙ sym
            (take-all p.remaining (drop p.offset file) (omega (arith, length-drop p.offset file))))

more-LoopRead :
    (file : List ℕ) (p : Progress) (read : ReadData) (r : Result Error Progress)
    → read.bytes ≡ take (length read.bytes) (drop p.offset file)
    → length read.bytes ≤ p.remaining
    → LoopRead file (extended_by read p) r
    → LoopRead file p r
more-LoopRead file p read (ok p') served fits h =
    h ∙ append_assoc p.out read.bytes _ ∙ grown file p read served fits
more-LoopRead file p read (err e) served fits h = tt
more-LoopRead file p read panic served fits h = h

module _ (file : List ℕ) (requirements : ReadRequirements) (read : ReadData) (p : Progress)
    (more : Progress → Result Error Progress) where
  after_reply-LoopRead :
      (read.bytes ≡ take (length read.bytes) (drop p.offset file))
      → (read.eof ≡ true → length file ≤ p.offset + length read.bytes)
      → ((length read.bytes == 0) ≡ true → read.eof ≡ true)
      → length read.bytes ≤ p.remaining
      → (0 < length read.bytes → LoopRead file (extended_by read p) (more (extended_by read p)))
      → LoopRead file p (after_reply requirements read p more)
  after_reply-LoopRead served ends empty fits rest = at_empty (length read.bytes == 0) refl
    where
      at_eof :
          (eof : Bool)
          → read.eof ≡ eof
          → 0 < length read.bytes
          → LoopRead file p
              (elim eof [ true ↦ ok (extended_by read p) | false ↦ more (extended_by read p) ])
      at_eof true e h = ended file p read served fits (ends e)
      at_eof false e h = more-LoopRead file p read _ served fits (rest h)

      within_limit :
          (r : Result Error Unit)
          → r ≢ panic
          → 0 < length read.bytes
          → LoopRead file p (
              r >> elim read.eof [
                | true ↦ ok (extended_by read p)
                | false ↦ more (extended_by read p)
              ])
      within_limit (ok a) h k = at_eof read.eof refl k
      within_limit (err e) h k = tt
      within_limit panic h k = absurd (h refl)

      at_empty :
          (b : Bool)
          → (length read.bytes == 0) ≡ b
          → LoopRead file p (elim b [
            | true ↦ ok (record p { observed_eof = eof_after read p.offset p.observed_eof })
            | false ↦ do
              ensure_buffered_read_within_limit
                  (length p.out)
                  (length read.bytes)
                  requirements.expected_len
                  requirements.limit
              elim read.eof [ true ↦ ok (extended_by read p) | false ↦ more (extended_by read p) ]
          ])
      at_empty true e =
          let none_left : length read.bytes ≡ 0 = (==_iff _ _).0 e in
          sym (append-nil p.out)
          ∙ ap (λ t. p.out ++ t) (sym (served ∙ ap (λ n. take n (drop p.offset file)) none_left))
          ∙ ended file p read served fits (ends (empty e))
      at_empty false e =
          within_limit _ (limit-ne-panic _ _ requirements.expected_len requirements.limit)
            (ground arith)

module _ (file : List ℕ) (session : Replies) (chunk_size : ℕ) (requirements : ReadRequirements)
    (honest : (i offset count : ℕ) → IsHonest file offset (session i offset count))
    (fits : chunk_size < u32_limit) (positive : 0 < chunk_size) where
  read_loop-LoopRead :
      (fuel : ℕ) (p : Progress)
      → p.remaining ≤ fuel
      → LoopRead file p (read_loop session chunk_size requirements fuel p)
  unfolding read_loop
  read_loop-LoopRead zero p h =
      let e : p.remaining ≡ 0 = omega arith in rw e (sym (append-nil p.out))
  read_loop-LoopRead (suc fuel) p h = pass (p.remaining == 0) refl (read_loop-LoopRead fuel)
    where
      checked :
          (read : ReadData)
          → IsHonest file p.offset (ok read)
          → 0 < p.remaining
          → (r : Result Error Unit) → IsChecked read (min p.remaining chunk_size % u32_limit) r
          → ((p' : Progress)
              → p'.remaining ≤ fuel
              → LoopRead file p' (read_loop session chunk_size requirements fuel p'))
          → LoopRead file p (
              r >> after_reply requirements read p (read_loop session chunk_size requirements fuel))
      checked read true_to_file some_left (ok a) c rest =
          after_reply-LoopRead file requirements read p
            (read_loop session chunk_size requirements fuel) true_to_file.0 true_to_file.1 c.1
            (omega (arith, c.0)) (λ k. rest _ (omega arith))
      checked read true_to_file some_left (err e) c rest = tt
      checked read true_to_file some_left panic c rest = absurd c

      replied :
          (r : Result Error ReadData)
          → IsHonest file p.offset r
          → 0 < p.remaining
          → ((p' : Progress)
              → p'.remaining ≤ fuel
              → LoopRead file p' (read_loop session chunk_size requirements fuel p'))
          → LoopRead file p (do
            read ← r
            validate_read_reply read (min p.remaining chunk_size % u32_limit)
            after_reply requirements read p (read_loop session chunk_size requirements fuel))
      replied (ok read) h some_left rest =
          checked read h some_left _ (validate_read_reply-IsChecked read _ (omega arith)) rest
      replied (err e) h some_left rest = tt
      replied panic h some_left rest = absurd h

      pass :
          (b : Bool)
          → (p.remaining == 0) ≡ b
          → ((p' : Progress)
              → p'.remaining ≤ fuel
              → LoopRead file p' (read_loop session chunk_size requirements fuel p'))
          → LoopRead file p (elim b [
            | true ↦ ok p
            | false ↦ do
              read ← session p.requests p.offset (min p.remaining chunk_size % u32_limit)
              validate_read_reply read (min p.remaining chunk_size % u32_limit)
              after_reply requirements read p (read_loop session chunk_size requirements fuel)
          ])
      pass true e rest = done-LoopRead file p ((==_iff _ _).0 e)
      pass false e rest = replied _ (honest p.requests p.offset _) (ground arith) rest

  -- A sequential read of `remaining` bytes from `offset` from a server that holds `file` neither
  -- panics nor runs forever, and if it succeeds, the output has grown by exactly the bytes of the file
  -- in the range, as many as the file has there. Requests are at least one byte and below 2 ^ 32.
  pub read_sequential_into-IsRead :
      (out : List ℕ) (offset remaining requests : ℕ)
      → IsRead file out offset remaining
          (read_sequential_into session chunk_size requirements out offset remaining requests)
  unfolding read_sequential_into
  read_sequential_into-IsRead out offset remaining requests =
      onward _ (read_loop-LoopRead remaining begin (omega arith))
    where
      begin : Progress
      begin = record {
        out = out;
        offset = offset;
        remaining = remaining;
        observed_eof = none;
        requests = requests;
      }

      validated :
          (p : Progress) (v : Result Error Unit)
          → v ≢ panic
          → p.out ≡ out ++ take remaining (drop offset file)
          → IsRead file out offset remaining (v >> ok p.out)
      validated p (ok a) h k = k
      validated p (err e) h k = tt
      validated p panic h k = absurd (h refl)

      onward :
          (r : Result Error Progress)
          → LoopRead file begin r
          → IsRead file out offset remaining (do
            p ← r
            validate_optional_observed_eof requirements.expected_eof p.observed_eof
            ok p.out)
      onward (ok p) h = validated p _ (eof-ne-panic requirements.expected_eof p.observed_eof) h
      onward (err e) h = tt
      onward panic h = h
