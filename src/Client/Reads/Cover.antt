-- ===== src/Client/Reads/Cover.antt =====
-- src/client.rs: `PipelinedEmit::record` neither loses nor repeats a byte of a chunk while there is no
-- error, and leaves no chunk queued that could be written.
use nfs_crust.Prelude.{
  ℕ, ◌+◌, ◌-◌, ◌≡◌, ◌≢◌, refl, ap, sym, ◌∙◌, Bool, true, false, not, ◌&&◌, ◌==◌, ==_iff, Option,
  none, some, if◌then◌else◌, length, arith, Bool-cases, inl, inr, ltb,
}
use nfs_crust.Result.{Result, ok, err, panic}
use nfs_crust.Error.{Error}
use nfs_crust.Client.Reads.{ReadTaskOutput, ensure_buffered_read_within_limit}
use nfs_crust.Client.Reads.Removal.{total}
use nfs_crust.Client.Reads.Emit.{
  PipelinedEmit, keep_first, record_error, error_if, some_above, set_eof_at,
  observe_eof_upper_bound, observe_exact_eof, observe_read_eof, append_read, note_eof, emit_within,
  emit,
}

-- 1 for an offset below another.
abbrev pub below : ℕ → ℕ → ℕ
below x n = if ltb x n then 1 else 0

-- 1 for an offset in the range of `n` from `o`.
abbrev pub covers : ℕ → ℕ × ℕ → ℕ
covers x (o, n) = below x (o + n) - below x o

abbrev pub within : ℕ → ReadTaskOutput → ℕ
within x read = covers x (read.offset, length read.bytes)

-- How often an offset is written or queued.
abbrev pub held : ℕ → PipelinedEmit → ℕ
held x e = below x e.next_offset + total (within x) e.completed

pub covers_lem : (x o n : ℕ) → covers x (o, n) + below x o ≡ below x (o + n)
covers_lem x o n = ground arith

-- Only the end of the file and the error may change.
pub record Quiet (e e' : PipelinedEmit) : Type 0 where
  pub same_completed : e'.completed ≡ e.completed
  pub same_next : e'.next_offset ≡ e.next_offset
  pub errors : e'.first_error ≡ none → e.first_error ≡ none
  pub exact : e'.eof_at ≡ none → e.eof_at ≡ none

Quiet-trans : {e e' e'' : PipelinedEmit} → Quiet e e' → Quiet e' e'' → Quiet e e''
Quiet-trans q r = record {
  same_completed = r.same_completed ∙ q.same_completed;
  same_next = r.same_next ∙ q.same_next;
  errors = λ h. q.errors (r.errors h);
  exact = λ h. q.exact (r.exact h);
}

pub keep_first-ne-none : (first : Option Error) (error : Error) → keep_first first error ≢ none
keep_first-ne-none none error h = ground arith
keep_first-ne-none (some e) error h = ground arith

pub record_error-ne-none :
    (e : PipelinedEmit) (error : Error) → (record_error e error).first_error ≢ none
unfolding record_error
record_error-ne-none e error = keep_first-ne-none e.first_error error

error_if-Quiet : (failed : Bool) (e : PipelinedEmit) → Quiet e (error_if failed e)
unfolding record_error
error_if-Quiet true e = record {
  same_completed = refl;
  same_next = refl;
  errors = λ h. absurd (keep_first-ne-none e.first_error Error.protocol h);
  exact = λ h. h;
}
error_if-Quiet false e = record {
  same_completed = refl;
  same_next = refl;
  errors = λ h. h;
  exact = λ h. h;
}

observe_eof_upper_bound-Quiet :
    (e : PipelinedEmit) (bound : ℕ) → Quiet e (observe_eof_upper_bound e bound)
unfolding observe_eof_upper_bound
observe_eof_upper_bound-Quiet e bound =
    let q = error_if-Quiet (some_above e.eof_at bound) e in
    record {
      same_completed = q.same_completed;
      same_next = q.same_next;
      errors = q.errors;
      exact = q.exact;
    }

set_eof_at-Quiet :
    (known : Option ℕ) (e : PipelinedEmit) (eof_at : ℕ)
    → known ≡ e.eof_at
    → Quiet e (set_eof_at known e eof_at)
set_eof_at-Quiet none e eof_at h = record {
  same_completed = refl;
  same_next = refl;
  errors = λ h. h;
  exact = λ k. sym h;
}
set_eof_at-Quiet (some current) e eof_at h = error_if-Quiet _ e

same_eof_at : (failed : Bool) (e : PipelinedEmit) → e.eof_at ≡ (error_if failed e).eof_at
unfolding record_error
same_eof_at true e = refl
same_eof_at false e = refl

observe_exact_eof-Quiet : (e : PipelinedEmit) (eof_at : ℕ) → Quiet e (observe_exact_eof e eof_at)
unfolding observe_exact_eof
observe_exact_eof-Quiet e eof_at = Quiet-trans (error_if-Quiet _ e) (
    Quiet-trans (set_eof_at-Quiet e.eof_at _ eof_at (same_eof_at _ e))
      (observe_eof_upper_bound-Quiet _ eof_at))

pub observe_read_eof-Quiet :
    (e : PipelinedEmit) (read : ReadTaskOutput) → Quiet e (observe_read_eof e read)
unfolding observe_read_eof
observe_read_eof-Quiet e read =
    elim (Bool-cases (length read.bytes == 0 && not (read.offset == e.next_offset))) [
      | inl t ↦ rw t (observe_eof_upper_bound-Quiet e _)
      | inr t ↦ rw t (observe_exact_eof-Quiet e _)
    ]

-- A chunk at the next offset is written, or an error is kept.
pub record Emitted (e : PipelinedEmit) (read : ReadTaskOutput) (e' : PipelinedEmit) : Type 0 where
  pub same_completed : e'.completed ≡ e.completed
  pub errors : e'.first_error ≡ none → e.first_error ≡ none
  pub written :
      e'.first_error ≡ none
      → (x : ℕ) → below x e'.next_offset ≡ below x e.next_offset + within x read

Emitted-Quiet :
    {e e' e'' : PipelinedEmit} {read : ReadTaskOutput}
    → Emitted e read e'
    → Quiet e' e''
    → Emitted e read e''
Emitted-Quiet {e} {e'} {e''} {read} m q = record {
  same_completed = q.same_completed ∙ m.same_completed;
  errors = λ h. m.errors (q.errors h);
  written = λ h x. ap (below x) q.same_next ∙ m.written (q.errors h) x;
}

append_read-Emitted :
    (e : PipelinedEmit) (read : ReadTaskOutput)
    → read.offset ≡ e.next_offset
    → Emitted e read (append_read e read)
append_read-Emitted e read at = record {
  same_completed = refl;
  errors = λ h. h;
  written = λ h x. rw at (omega (arith, covers_lem x e.next_offset (length read.bytes)));
}

note_eof-Quiet : (eof : Bool) (e : PipelinedEmit) → Quiet e (note_eof eof e)
note_eof-Quiet true e = observe_exact_eof-Quiet e _
note_eof-Quiet false e = error_if-Quiet false e

record_error-Emitted :
    (e : PipelinedEmit) (read : ReadTaskOutput) (error : Error)
    → Emitted e read (record_error e error)
unfolding record_error
record_error-Emitted e read error = record {
  same_completed = refl;
  errors = λ h. absurd (keep_first-ne-none e.first_error error h);
  written = λ h. absurd (keep_first-ne-none e.first_error error h);
}

emit_within-Emitted :
    (allowed : Result Error Unit) (e : PipelinedEmit) (read : ReadTaskOutput)
    → allowed ≢ panic
    → read.offset ≡ e.next_offset
    → Emitted e read (emit_within allowed e read)
emit_within-Emitted (ok a) e read h at =
    Emitted-Quiet (append_read-Emitted e read at) (note_eof-Quiet read.eof _)
emit_within-Emitted (err error) e read h at = record_error-Emitted e read error
emit_within-Emitted panic e read h at = absurd (h refl)

pub limit-ne-panic :
    (m n : ℕ) (expected limit : Option ℕ)
    → ensure_buffered_read_within_limit m n expected limit ≢ panic
unfolding ensure_buffered_read_within_limit
limit-ne-panic m n expected none h = ground arith
limit-ne-panic m n expected (some limit) h = ground arith

empty-Emitted :
    (e : PipelinedEmit) (read : ReadTaskOutput) → length read.bytes ≡ 0 → Emitted e read e
empty-Emitted e read h = record {
  same_completed = refl;
  errors = λ k. k;
  written = λ k x. rw h (ground arith);
}

pub emit-Emitted :
    (e : PipelinedEmit) (read : ReadTaskOutput)
    → read.offset ≡ e.next_offset
    → Emitted e read (emit e read)
unfolding emit
emit-Emitted e read at = elim (Bool-cases (length read.bytes == 0)) [
  | inl t ↦ rw t (
      Emitted-Quiet (empty-Emitted e read ((==_iff _ _).0 t))
        (observe_exact_eof-Quiet e read.offset))
  | inr t ↦
      rw t
        (emit_within-Emitted _ e read (limit-ne-panic (length e.out) _ e.expected_len e.limit) at)
]
