-- ===== src/Client/Reads/First.antt =====
-- src/client.rs: what the first reply of a read is worth, as the whole answer or as its beginning.
use nfs_crust.Prelude.{
  ℕ, ◌≤◌, ◌+◌, ◌-◌, ◌≡◌, ◌≢◌, refl, ap, ◌∙◌, Bool, true, false, not, ◌&&◌, Option, none, some, List,
  [], length, take, drop, arith, ltb,
}
use nfs_crust.Result.{Result, ok, err, panic}
use nfs_crust.Result.Try.{◌>>◌}
use nfs_crust.Error.{Error}
use nfs_crust.Nfs4.Body.{ReadData}
use nfs_crust.Client.Reads.{ExpectedEof, validate_read_reply}
use nfs_crust.Client.Reads.Pipeline.{IsHonest, ReadRequirements}
use nfs_crust.Client.Reads.Contents.{IsRead, grown, ended}
use nfs_crust.Client.Reads.Range.{
  validate_eof_expectation, validate_optional_expected_eof, whole_reply,
}

abbrev pub IsFirst : List ℕ → ℕ → ℕ → Result Error ReadData → Type 0
IsFirst file offset count (ok read) = IsHonest file offset (ok read) × (length read.bytes ≤ count)
IsFirst file offset count (err e) = Unit
IsFirst file offset count panic = ⊥

-- A checked reply is no longer than its request.
abbrev pub IsLimited : ReadData → ℕ → Result Error (Unit {0}) → Type 0
IsLimited read count (ok a) = length read.bytes ≤ count
IsLimited read count (err e) = Unit
IsLimited read count panic = ⊥

pub validate_read_reply-IsLimited :
    (read : ReadData) (count : ℕ) → IsLimited read count (validate_read_reply read count)
unfolding validate_read_reply
validate_read_reply-IsLimited read count = ground arith

expectation-ne-panic :
    (e : ExpectedEof) (end : ℕ) (eof : Bool) → validate_eof_expectation e end eof ≢ panic
unfolding validate_eof_expectation
expectation-ne-panic e end true h = ground arith
expectation-ne-panic e end false h = ground arith

optional-ne-panic :
    (e : Option ExpectedEof) (end : ℕ) (eof : Bool)
    → validate_optional_expected_eof e end eof ≢ panic
unfolding validate_optional_expected_eof
optional-ne-panic none end eof h = ground arith
optional-ne-panic (some e) end eof h = expectation-ne-panic e end eof h

-- Where the reply is not the whole answer, the rest is read first_then it.
pub continued :
    (file : List ℕ) (offset count : ℕ) (read : ReadData) (r : Result Error (List ℕ))
    → IsHonest file offset (ok read)
    → length read.bytes ≤ count
    → IsRead file read.bytes (offset + length read.bytes) (count - length read.bytes) r
    → IsRead file [] offset count r
continued file offset count read (ok out) honest fits h =
    h
    ∙ grown file
        (record { out = []; offset = offset; remaining = count; observed_eof = none; requests = 0 })
        read honest.0 fits
continued file offset count read (err e) honest fits h = tt
continued file offset count read panic honest fits h = h

pub whole_bytes :
    (file : List ℕ) (offset count : ℕ) (read : ReadData)
    → IsHonest file offset (ok read)
    → length read.bytes ≤ count
    → (ltb (length read.bytes) count && not read.eof) ≡ false
    → read.bytes ≡ take count (drop offset file)
whole_bytes file offset count read honest fits h = onward read.eof refl h
  where
    onward :
        (eof : Bool)
        → read.eof ≡ eof
        → (ltb (length read.bytes) count && not eof) ≡ false
        → read.bytes ≡ take count (drop offset file)
    onward true e h =
        ended file
          (record {
            out = [];
            offset = offset;
            remaining = count;
            observed_eof = none;
            requests = 0;
          })
          read honest.0 fits (honest.1 e)
    onward false e h =
        let full : length read.bytes ≡ count = ground arith in
        honest.0 ∙ ap (λ n. take n (drop offset file)) full

pub whole-IsRead :
    (file : List ℕ) (requirements : ReadRequirements) (offset count : ℕ) (read : ReadData)
    → read.bytes ≡ take count (drop offset file)
    → IsRead file [] offset count (whole_reply requirements offset read)
whole-IsRead file requirements offset count read h =
    onward _ (optional-ne-panic requirements.expected_eof (offset + length read.bytes) read.eof)
  where
    onward : (r : Result Error Unit) → r ≢ panic → IsRead file [] offset count (r >> ok read.bytes)
    onward (ok a) k = h
    onward (err e) k = tt
    onward panic k = absurd (k refl)
