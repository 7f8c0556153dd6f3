-- ===== src/Client/Reads/Emit.antt =====
-- src/client.rs: `PipelinedEmit`, which puts chunks that arrive in any order into one output.
use nfs_crust.Prelude.{
  ℕ, zero, suc, ◌+◌, min, Bool, true, false, ◌&&◌, ◌||◌, not, Option, none, some, List, [], ◌∷◌,
  ◌++◌, length, ltb, leb, ◌==◌, if◌then◌else◌,
}
use nfs_crust.Prelude.Words.{saturating_add}
use nfs_crust.Result.{Result, ok, err, panic}
use nfs_crust.Error.{Error}
use nfs_crust.Client.Reads.{
  ExpectedEof, ReadTaskOutput, ensure_buffered_read_within_limit, validate_optional_observed_eof,
}

pub record PipelinedEmit : Type 0 where
  pub out : List ℕ
  pub completed : List ReadTaskOutput
  pub next_offset : ℕ
  pub eof_at : Option ℕ
  pub eof_upper_bound : Option ℕ
  pub first_error : Option Error
  pub expected_len : Option ℕ
  pub expected_eof : Option ExpectedEof
  pub limit : Option ℕ

-- `PipelinedEmit::new`
unfoldable pub new_emit : List ℕ → ℕ → Option ℕ → Option ExpectedEof → Option ℕ → PipelinedEmit
new_emit out start expected_len expected_eof limit = record {
  out = out;
  completed = [];
  next_offset = start;
  eof_at = none;
  eof_upper_bound = none;
  first_error = none;
  expected_len = expected_len;
  expected_eof = expected_eof;
  limit = limit;
}

abbrev pub is_some {ℓ} : {A : Type ℓ} → Option A → Bool
is_some none = false
is_some (some a) = true

unfoldable pub eof_observed : PipelinedEmit → Bool
eof_observed e = is_some e.eof_upper_bound

unfoldable pub can_schedule_more : PipelinedEmit → Bool
can_schedule_more e = not (is_some e.first_error)

abbrev pub keep_first : Option Error → Error → Option Error
keep_first none e = some e
keep_first (some first) e = some first

unfoldable pub record_error : PipelinedEmit → Error → PipelinedEmit
record_error e error = record e { first_error = keep_first e.first_error error }

-- `is_some_and` and `is_none_or` of a comparison.
abbrev pub some_above : Option ℕ → ℕ → Bool
some_above none n = false
some_above (some m) n = ltb n m

abbrev pub some_below : Option ℕ → ℕ → Bool
some_below none n = false
some_below (some m) n = ltb m n

abbrev pub min_with : Option ℕ → ℕ → ℕ
min_with none n = n
min_with (some m) n = min m n

abbrev pub error_if : Bool → PipelinedEmit → PipelinedEmit
error_if failed e = if failed then record_error e Error.protocol else e

unfoldable pub observe_eof_upper_bound : PipelinedEmit → ℕ → PipelinedEmit
observe_eof_upper_bound e bound = record (error_if (some_above e.eof_at bound) e) {
  eof_upper_bound = some (min_with e.eof_upper_bound bound);
}

abbrev pub set_eof_at : Option ℕ → PipelinedEmit → ℕ → PipelinedEmit
set_eof_at none e eof_at = record e { eof_at = some eof_at }
set_eof_at (some current) e eof_at = error_if (not (current == eof_at)) e

unfoldable pub observe_exact_eof : PipelinedEmit → ℕ → PipelinedEmit
observe_exact_eof e eof_at =
    observe_eof_upper_bound
      (set_eof_at e.eof_at (error_if (some_below e.eof_upper_bound eof_at) e) eof_at) eof_at

unfoldable pub observe_read_eof : PipelinedEmit → ReadTaskOutput → PipelinedEmit
observe_read_eof e read =
    if length read.bytes == 0 && not (read.offset == e.next_offset)
    then observe_eof_upper_bound e (read.offset + length read.bytes)
    else observe_exact_eof e (read.offset + length read.bytes)

abbrev pub append_read : PipelinedEmit → ReadTaskOutput → PipelinedEmit
append_read e read = record e {
  next_offset = e.next_offset + length read.bytes;
  out = e.out ++ read.bytes;
}

abbrev pub note_eof : Bool → PipelinedEmit → PipelinedEmit
note_eof true e = observe_exact_eof e e.next_offset
note_eof false e = e

abbrev pub emit_within : Result Error (Unit {0}) → PipelinedEmit → ReadTaskOutput → PipelinedEmit
emit_within (ok a) e read = note_eof read.eof (append_read e read)
emit_within (err error) e read = record_error e error
emit_within panic e read = e

unfoldable pub emit : PipelinedEmit → ReadTaskOutput → PipelinedEmit
emit e read =
    if length read.bytes == 0
    then observe_exact_eof e read.offset
    else emit_within
        (ensure_buffered_read_within_limit (length e.out) (length read.bytes) e.expected_len
          e.limit)
        e read

-- The index of the first chunk at an offset, `Iterator::position`.
unfoldable pub position : ℕ → List ReadTaskOutput → Option ℕ
position offset [] = none
position offset (read ∷ reads) =
    let rest = position offset reads in
    if read.offset == offset then some 0 else elim rest [ none ↦ none | some i ↦ some (suc i) ]

-- The list without its last element, and that element.
abbrev pub pop_last {ℓ} : {A : Type ℓ} → A → List A → List A × A
pop_last x [] = ([], x)
pop_last x (y ∷ ys) = let (front, last) = pop_last y ys in (x ∷ front, last)

abbrev pub keep_front {ℓ} : {A : Type ℓ} → A → Option (A × List A) → Option (A × List A)
keep_front x none = none
keep_front x (some (a, rest)) = some (a, x ∷ rest)

-- `swap_remove` of a vector: the last element takes the place of the removed one. Out of range, where
-- Rust panics, it is `none`.
abbrev pub swap_remove {ℓ} : {A : Type ℓ} → ℕ → List A → Option (A × List A)
swap_remove i [] = none
swap_remove zero (x ∷ []) = some (x, [])
swap_remove zero (x ∷ y ∷ ys) = let (front, last) = pop_last y ys in some (x, last ∷ front)
swap_remove (suc i) (x ∷ xs) = keep_front x (swap_remove i xs)

abbrev pub remove_at :
    Option ℕ → List ReadTaskOutput → Option (ReadTaskOutput × List ReadTaskOutput)
remove_at none reads = none
remove_at (some i) reads = swap_remove i reads

-- The removed chunk and the chunks that are left.
unfoldable pub take_completed : PipelinedEmit → Option (ReadTaskOutput × List ReadTaskOutput)
take_completed e = remove_at (position e.next_offset e.completed) e.completed

-- `eof_at.is_some_and(|eof_at| next_offset >= eof_at)`
abbrev pub reached : Option ℕ → ℕ → Bool
reached none n = false
reached (some m) n = leb m n

abbrev pub stops : PipelinedEmit → Bool
stops e = is_some e.first_error || reached e.eof_at e.next_offset

abbrev pub emit_next :
    PipelinedEmit → Option (ReadTaskOutput × List ReadTaskOutput) → Option PipelinedEmit
emit_next e none = none
emit_next e (some (read, rest)) = some (emit (record e { completed = rest }) read)

-- Each pass takes a chunk from `completed`, so that its length is enough fuel.
unfoldable pub drain_queued : ℕ → PipelinedEmit → PipelinedEmit
drain_queued zero e = e
drain_queued (suc n) e = elim (reached e.eof_at e.next_offset) [
  | true ↦ e
  | false ↦ elim (emit_next e (take_completed e)) [
    | none ↦ e
    | some e' ↦ elim (stops e') [ true ↦ e' | false ↦ drain_queued n e' ]
  ]
]

-- Data of a chunk lies beyond a reported end of the file.
abbrev pub beyond : Option ℕ → ReadTaskOutput → Bool
beyond none read = false
beyond (some eof_at) read =
    not (length read.bytes == 0) && ltb eof_at (saturating_add read.offset (length read.bytes))

abbrev pub record_within : PipelinedEmit → ReadTaskOutput → PipelinedEmit
record_within e read =
    if beyond e.eof_at read
    then record_error e Error.protocol
    else if read.offset == e.next_offset
    then (let e' = emit e read in drain_queued (length e'.completed) e')
    else record e { completed = e.completed ++ read ∷ [] }

-- `PipelinedEmit::record`
unfoldable pub record_read : PipelinedEmit → ReadTaskOutput → PipelinedEmit
record_read e read = record_within (if read.eof then observe_read_eof e read else e) read

abbrev pub any_beyond : Option ℕ → List ReadTaskOutput → Bool
any_beyond eof_at [] = false
any_beyond eof_at (read ∷ reads) = beyond eof_at read || any_beyond eof_at reads

-- The end of the file is known, and not reached.
abbrev pub is_short : Option ℕ → Option ℕ → ℕ → Bool
is_short (some eof_at) bound next = ltb next eof_at
is_short none (some bound) next = ltb next bound
is_short none none next = false

abbrev pub finish_without : Option Error → PipelinedEmit → Result Error (Unit {0})
finish_without (some error) e = err error
finish_without none e =
    if any_beyond e.eof_at e.completed
    then err Error.protocol
    else if is_short e.eof_at e.eof_upper_bound e.next_offset
    then err Error.protocol
    else validate_optional_observed_eof e.expected_eof e.eof_at

-- `PipelinedEmit::finish`
unfoldable pub finish_read : PipelinedEmit → Result Error (Unit {0})
finish_read e = finish_without e.first_error e
