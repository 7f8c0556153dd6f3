-- ===== src/Client/Reads/Sound.antt =====
-- src/client.rs: `PipelinedEmit` writes only bytes of the file that the server holds, and takes for
-- the end of the file no offset before it.
use nfs_crust.Prelude.{
  ℕ, zero, suc, ◌≤◌, ◌+◌, ◌-◌, ◌≡◌, refl, ap, sym, ◌∙◌, Bool, true, false, not, ◌&&◌, ◌==◌, ==_iff,
  Option, none, some, List, [], ◌∷◌, ◌++◌, if◌then◌else◌, length, take, drop, All, append_assoc,
  take-add, drop-drop, arith, Bool-cases, inl, inr,
}
use nfs_crust.Result.{Result, ok, err, panic}
use nfs_crust.Error.{Error}
use nfs_crust.Client.Reads.{ReadTaskOutput}
use nfs_crust.Client.Reads.Removal.{
  All-append, AllLeft, IsAt, take_completed-All, take_completed-IsAt,
}
use nfs_crust.Client.Reads.Emit.{
  PipelinedEmit, record_error, error_if, some_above, min_with, set_eof_at, observe_eof_upper_bound,
  observe_exact_eof, observe_read_eof, append_read, note_eof, emit_within, emit, reached, stops,
  emit_next, drain_queued, beyond, record_within, record_read,
}

-- The file ends at or before an offset, where one is known.
abbrev pub IsBounded : List ℕ → Option ℕ → Type 0
IsBounded file none = Unit
IsBounded file (some bound) = length file ≤ bound

-- A chunk that the file explains.
abbrev pub IsServed : List ℕ → ReadTaskOutput → Type 0
IsServed file read =
    (read.bytes ≡ take (length read.bytes) (drop read.offset file))
    × (read.eof ≡ true → length file ≤ read.offset + length read.bytes)
    × ((length read.bytes == 0) ≡ true → length file ≤ read.offset)

module _ (file out : List ℕ) (start : ℕ) where
  pub record Sound (e : PipelinedEmit) : Type 0 where
    pub started : start ≤ e.next_offset
    pub written : e.out ≡ out ++ take (e.next_offset - start) (drop start file)
    pub exact : IsBounded file e.eof_at
    pub upper : IsBounded file e.eof_upper_bound
    pub queued : All (IsServed file) e.completed

  pub record_error-Sound :
      (e : PipelinedEmit) (error : Error) → Sound e → Sound (record_error e error)
  unfolding record_error
  record_error-Sound e error v = record {
    started = v.started;
    written = v.written;
    exact = v.exact;
    upper = v.upper;
    queued = v.queued;
  }

  error_if-Sound : (failed : Bool) (e : PipelinedEmit) → Sound e → Sound (error_if failed e)
  error_if-Sound true e v = record_error-Sound e Error.protocol v
  error_if-Sound false e v = v

  min_with-IsBounded :
      (b : Option ℕ) (bound : ℕ)
      → IsBounded file b
      → length file ≤ bound
      → length file ≤ min_with b bound
  min_with-IsBounded none bound h k = k
  min_with-IsBounded (some m) bound h k = omega arith

  upper-Sound :
      (e : PipelinedEmit) (bound : ℕ)
      → length file ≤ bound
      → Sound e
      → Sound (record e { eof_upper_bound = some bound })
  upper-Sound e bound h v = record {
    started = v.started;
    written = v.written;
    exact = v.exact;
    upper = h;
    queued = v.queued;
  }

  observe_eof_upper_bound-Sound :
      (e : PipelinedEmit) (bound : ℕ)
      → length file ≤ bound
      → Sound e
      → Sound (observe_eof_upper_bound e bound)
  unfolding observe_eof_upper_bound
  observe_eof_upper_bound-Sound e bound h v =
      upper-Sound _ _ (min_with-IsBounded e.eof_upper_bound bound v.upper h)
        (error_if-Sound (some_above e.eof_at bound) e v)

  set_eof_at-Sound :
      (known : Option ℕ) (e : PipelinedEmit) (eof_at : ℕ)
      → length file ≤ eof_at
      → Sound e
      → Sound (set_eof_at known e eof_at)
  set_eof_at-Sound none e eof_at h v = record {
    started = v.started;
    written = v.written;
    exact = h;
    upper = v.upper;
    queued = v.queued;
  }
  set_eof_at-Sound (some current) e eof_at h v = error_if-Sound _ e v

  observe_exact_eof-Sound :
      (e : PipelinedEmit) (eof_at : ℕ)
      → length file ≤ eof_at
      → Sound e
      → Sound (observe_exact_eof e eof_at)
  unfolding observe_exact_eof
  observe_exact_eof-Sound e eof_at h v =
      observe_eof_upper_bound-Sound _ _ h
        (set_eof_at-Sound e.eof_at _ eof_at h (error_if-Sound _ e v))

  observe_read_eof-Sound :
      (e : PipelinedEmit) (read : ReadTaskOutput)
      → length file ≤ read.offset + length read.bytes
      → Sound e
      → Sound (observe_read_eof e read)
  unfolding observe_read_eof
  observe_read_eof-Sound e read h v =
      elim (Bool-cases (length read.bytes == 0 && not (read.offset == e.next_offset))) [
        | inl t ↦ rw t (observe_eof_upper_bound-Sound e _ h v)
        | inr t ↦ rw t (observe_exact_eof-Sound e _ h v)
      ]

  extended :
      (a n : ℕ)
      → start ≤ a
      → take (a + n - start) (drop start file)
        ≡ take (a - start) (drop start file) ++ take n (drop a file)
  extended a n h =
      ap (λ k. take k (drop start file)) (omega arith)
      ∙ take-add (a - start) n (drop start file)
      ∙ ap (λ d. take (a - start) (drop start file) ++ take n d)
          (drop-drop start (a - start) file ∙ ap (λ k. drop k file) (omega arith))

  append_read-Sound :
      (e : PipelinedEmit) (read : ReadTaskOutput)
      → read.offset ≡ e.next_offset
      → IsServed file read
      → Sound e
      → Sound (append_read e read)
  append_read-Sound e read at served v = record {
    started = omega arith;
    written =
        ap (λ t. t ++ read.bytes) v.written
        ∙ append_assoc out _ read.bytes
        ∙ ap (λ t. out ++ t)
            (ap (λ t. take (e.next_offset - start) (drop start file) ++ t)
                (served.0 ∙ ap (λ o. take (length read.bytes) (drop o file)) at)
              ∙ sym (extended e.next_offset (length read.bytes) v.started));
    exact = v.exact;
    upper = v.upper;
    queued = v.queued;
  }

  note_eof-Sound :
      (eof : Bool) (e : PipelinedEmit)
      → (eof ≡ true → length file ≤ e.next_offset)
      → Sound e
      → Sound (note_eof eof e)
  note_eof-Sound true e h v = observe_exact_eof-Sound e e.next_offset (h refl) v
  note_eof-Sound false e h v = v

  emit_within-Sound :
      (allowed : Result Error Unit) (e : PipelinedEmit) (read : ReadTaskOutput)
      → read.offset ≡ e.next_offset
      → IsServed file read
      → Sound e
      → Sound (emit_within allowed e read)
  emit_within-Sound (ok a) e read at served v =
      note_eof-Sound read.eof (append_read e read) (λ t. omega (arith, served.1 t))
        (append_read-Sound e read at served v)
  emit_within-Sound (err error) e read at served v = record_error-Sound e error v
  emit_within-Sound panic e read at served v = v

  emit-Sound :
      (e : PipelinedEmit) (read : ReadTaskOutput)
      → read.offset ≡ e.next_offset
      → IsServed file read
      → Sound e
      → Sound (emit e read)
  unfolding emit
  emit-Sound e read at served v = elim (Bool-cases (length read.bytes == 0)) [
    | inl t ↦ rw t (observe_exact_eof-Sound e read.offset (served.2 t) v)
    | inr t ↦ rw t (emit_within-Sound _ e read at served v)
  ]

  taken-Sound :
      (e : PipelinedEmit) (rest : List ReadTaskOutput)
      → All (IsServed file) rest
      → Sound e
      → Sound (record e { completed = rest })
  taken-Sound e rest h v = record {
    started = v.started;
    written = v.written;
    exact = v.exact;
    upper = v.upper;
    queued = h;
  }

  either-Sound :
      (b : Bool) {e e' : PipelinedEmit}
      → Sound e
      → Sound e'
      → Sound (elim b [ true ↦ e | false ↦ e' ])
  either-Sound true v w = v
  either-Sound false v w = w

  drained :
      (n : ℕ) (e : PipelinedEmit) (r : Option (ReadTaskOutput × List ReadTaskOutput))
      → Sound e
      → ((e' : PipelinedEmit) → Sound e' → Sound (drain_queued n e'))
      → AllLeft (IsServed file) r
      → IsAt e.next_offset e.completed r
      → Sound (elim (emit_next e r) [
        | none ↦ e
        | some e' ↦ elim (stops e') [ true ↦ e' | false ↦ drain_queued n e' ]
      ])
  drained n e none v rest h at = v
  drained n e (some (read, reads)) v rest h at =
      let e' = emit (record e { completed = reads }) read in
      let w : Sound e' =
        emit-Sound (record e { completed = reads }) read ((==_iff _ _).0 at) h.0
          (taken-Sound e reads h.1 v) in
      either-Sound (stops e') w (rest e' w)

  drain_queued-Sound : (n : ℕ) (e : PipelinedEmit) → Sound e → Sound (drain_queued n e)
  unfolding drain_queued
  drain_queued-Sound zero e v = v
  drain_queued-Sound (suc n) e v = either-Sound (reached e.eof_at e.next_offset) v (
      drained n e _ v (drain_queued-Sound n) (take_completed-All (IsServed file) e v.queued)
        (take_completed-IsAt e))

  record_within-Sound :
      (e : PipelinedEmit) (read : ReadTaskOutput)
      → IsServed file read
      → Sound e
      → Sound (record_within e read)
  record_within-Sound e read served v = elim (Bool-cases (beyond e.eof_at read)) [
    | inl t ↦ rw t (record_error-Sound e Error.protocol v)
    | inr t ↦ rw t (elim (Bool-cases (read.offset == e.next_offset)) [
      | inl at ↦ rw at (drain_queued-Sound _ _ (emit-Sound e read ((==_iff _ _).0 at) served v))
      | inr at ↦ rw at (
          taken-Sound e _ (All-append (IsServed file) e.completed (read ∷ []) v.queued (served, tt))
            v)
    ])
  ]

  -- A chunk of the file keeps what was read.
  pub record_read-Sound :
      (e : PipelinedEmit) (read : ReadTaskOutput)
      → IsServed file read
      → Sound e
      → Sound (record_read e read)
  unfolding record_read
  record_read-Sound e read served v = record_within-Sound _ read served (observed read.eof served.1)
    where
      observed :
          (eof : Bool)
          → (eof ≡ true → length file ≤ read.offset + length read.bytes)
          → Sound (if eof then observe_read_eof e read else e)
      observed true h = observe_read_eof-Sound e read (h refl) v
      observed false h = v
