-- ===== src/Client/Reads/Drain.antt =====
-- src/client.rs: `drain_queued` and `record` of `PipelinedEmit` keep the account of the chunks.
use mathlib.Core.Path.{subst}
use nfs_crust.Prelude.{
  ℕ, zero, suc, ◌≤◌, ◌+◌, ◌≡◌, ◌≢◌, refl, ap, sym, ◌∙◌, Bool, true, false, ◌||◌, ◌==◌, ==_iff,
  Option, none, some, List, [], ◌∷◌, ◌++◌, if◌then◌else◌, length, All, arith, Bool-cases, inl, inr,
}
use nfs_crust.Error.{Error}
use nfs_crust.Client.Reads.{ReadTaskOutput}
use nfs_crust.Client.Reads.Removal.{
  All-append, IsAt, TotalLeft, total, total-append, take_completed-total, take_completed-IsAt,
}
use nfs_crust.Client.Reads.Emit.{
  PipelinedEmit, is_some, observe_read_eof, emit, reached, stops, emit_next, drain_queued, beyond,
  record_within, record_read,
}
use nfs_crust.Client.Reads.Cover.{
  below, within, held, Quiet, Emitted, emit-Emitted, observe_read_eof-Quiet, record_error-ne-none,
}

-- Without an error and before the end of the file is known, no queued chunk can be written.
abbrev pub IsDrained : PipelinedEmit → Type 0
IsDrained e =
    e.first_error ≡ none
    → e.eof_at ≡ none
    → All (λ read. (read.offset == e.next_offset) ≡ false) e.completed

pub record Drained (e e' : PipelinedEmit) : Type 0 where
  pub errors : e'.first_error ≡ none → e.first_error ≡ none
  pub same : e'.first_error ≡ none → (x : ℕ) → held x e' ≡ held x e
  pub drained : IsDrained e'

Drained-after :
    {e e' e'' : PipelinedEmit}
    → (e'.first_error ≡ none → (e.first_error ≡ none) × ((x : ℕ) → held x e' ≡ held x e))
    → Drained e' e''
    → Drained e e''
Drained-after f d = record {
  errors = λ h. (f (d.errors h)).0;
  same = λ h x. d.same h x ∙ (f (d.errors h)).1 x;
  drained = d.drained;
}

Drained-here : (e : PipelinedEmit) → IsDrained e → Drained e e
Drained-here e h = record { errors = λ k. k; same = λ k x. refl; drained = h }

reached-ne-none : (eof_at : Option ℕ) (n : ℕ) → reached eof_at n ≡ true → eof_at ≢ none
reached-ne-none none n h k = ground arith
reached-ne-none (some m) n h k = ground arith

stops-IsDrained : (e : PipelinedEmit) → stops e ≡ true → IsDrained e
stops-IsDrained e h k l = absurd (onward e.first_error e.eof_at h k l)
  where
    onward :
        (error : Option Error) (eof_at : Option ℕ)
        → (is_some error || reached eof_at e.next_offset) ≡ true
        → error ≡ none
        → eof_at ≢ none
    onward none eof_at h k l = reached-ne-none eof_at e.next_offset h l
    onward (some error) eof_at h k l = ground arith

held-Emitted :
    {e e' : PipelinedEmit} {read : ReadTaskOutput}
    → Emitted e read e'
    → e'.first_error ≡ none
    → (x : ℕ) → held x e' ≡ held x e + within x read
held-Emitted {e} {e'} {read} m k x =
    ap (λ n. n + total (within x) e'.completed) (m.written k x)
    ∙ ap (λ c. below x e.next_offset + within x read + total (within x) c) m.same_completed
    ∙ omega arith

All-none : {A : Type 0} (P : A → Type 0) (xs : List A) → length xs ≤ 0 → All P xs
All-none P [] h = tt
All-none P (x ∷ xs) h = absurd (omega arith)

-- A chunk taken from the queue and written.
taken-Drained :
    (e : PipelinedEmit) (read : ReadTaskOutput) (rest : List ReadTaskOutput)
    → ((x : ℕ) → total (within x) e.completed ≡ within x read + total (within x) rest)
    → read.offset ≡ e.next_offset
    → (let e' = emit (record e { completed = rest }) read in
        e'.first_error ≡ none → (e.first_error ≡ none) × ((x : ℕ) → held x e' ≡ held x e))
taken-Drained e read rest h at k =
    let m = emit-Emitted (record e { completed = rest }) read at in
    (m.errors k, λ x. held-Emitted m k x ∙ omega (arith, h x))

either-Drained :
    (b : Bool) {e e' e'' : PipelinedEmit}
    → (b ≡ true → Drained e e')
    → (b ≡ false → Drained e e'')
    → Drained e (elim b [ true ↦ e' | false ↦ e'' ])
either-Drained true f g = f refl
either-Drained false f g = g refl

length-total : {A : Type 0} (xs : List A) → total (λ _. 1) xs ≡ length xs
length-total [] = refl
length-total (x ∷ xs) = omega (arith, length-total xs)

drained :
    (n : ℕ) (e : PipelinedEmit) (r : Option (ReadTaskOutput × List ReadTaskOutput))
    → length e.completed ≤ suc n
    → ((e' : PipelinedEmit) → length e'.completed ≤ n → Drained e' (drain_queued n e'))
    → ((x : ℕ) → TotalLeft (within x) (total (within x) e.completed) r)
    → TotalLeft (λ _. 1) (total (λ _. 1) e.completed) r
    → IsAt e.next_offset e.completed r
    → Drained e (elim (emit_next e r) [
      | none ↦ e
      | some e' ↦ elim (stops e') [ true ↦ e' | false ↦ drain_queued n e' ]
    ])
drained n e none fuel rest h one at = Drained-here e (λ _ _. at)
drained n e (some (read, reads)) fuel rest h one at =
    let e' = emit (record e { completed = reads }) read in
    let m = emit-Emitted (record e { completed = reads }) read ((==_iff _ _).0 at) in
    let t = taken-Drained e read reads h ((==_iff _ _).0 at) in
    either-Drained (stops e') (λ b. Drained-after t (Drained-here e' (stops-IsDrained e' b)))
      (λ b. Drained-after t (
        rest e' (
          omega (
            arith,
            one,
            ap length m.same_completed,
            length-total e.completed,
            length-total reads,
          ))))

drain_queued-Drained :
    (n : ℕ) (e : PipelinedEmit) → length e.completed ≤ n → Drained e (drain_queued n e)
unfolding drain_queued
drain_queued-Drained zero e fuel = Drained-here e (λ _ _. All-none _ e.completed fuel)
drain_queued-Drained (suc n) e fuel =
    either-Drained (reached e.eof_at e.next_offset)
      (λ b. Drained-here e (λ _ k. absurd (reached-ne-none e.eof_at e.next_offset b k)))
      (λ b.
        drained n e _ fuel (drain_queued-Drained n) (λ x. take_completed-total (within x) e)
          (take_completed-total (λ _. 1) e) (take_completed-IsAt e))

same_held : {e e' : PipelinedEmit} → Quiet e e' → (x : ℕ) → held x e' ≡ held x e
same_held {e} {e'} q x =
    ap (λ n. below x n + total (within x) e'.completed) q.same_next
    ∙ ap (λ c. below x e.next_offset + total (within x) c) q.same_completed

still-IsDrained : {e e' : PipelinedEmit} → Quiet e e' → IsDrained e → IsDrained e'
still-IsDrained {e} {e'} q d k l =
    subst (λ n. All (λ read. (read.offset == n) ≡ false) e'.completed) (sym q.same_next)
      (subst (λ c. All (λ read. (read.offset == e.next_offset) ≡ false) c) (sym q.same_completed)
        (d (q.errors k) (q.exact l)))

-- The account of a chunk that arrived.
pub record Recorded (e : PipelinedEmit) (read : ReadTaskOutput) (e' : PipelinedEmit) : Type 0 where
  pub errors : e'.first_error ≡ none → e.first_error ≡ none
  pub counted : e'.first_error ≡ none → (x : ℕ) → held x e' ≡ held x e + within x read
  pub drained : IsDrained e → IsDrained e'

error-Recorded :
    (e e' : PipelinedEmit) (read : ReadTaskOutput) → e'.first_error ≢ none → Recorded e read e'
error-Recorded e e' read h = record {
  errors = λ k. absurd (h k);
  counted = λ k. absurd (h k);
  drained = λ _ k. absurd (h k);
}

emit-Recorded :
    (e e' : PipelinedEmit) (read : ReadTaskOutput)
    → Emitted e read e'
    → Recorded e read (drain_queued (length e'.completed) e')
emit-Recorded e e' read m =
    let d = drain_queued-Drained (length e'.completed) e' (omega arith) in
    record {
      errors = λ k. m.errors (d.errors k);
      counted = λ k x. d.same k x ∙ held-Emitted m (d.errors k) x;
      drained = λ _. d.drained;
    }

push-Recorded :
    (e : PipelinedEmit) (read : ReadTaskOutput)
    → (read.offset == e.next_offset) ≡ false
    → Recorded e read (record e { completed = e.completed ++ read ∷ [] })
push-Recorded e read h = record {
  errors = λ k. k;
  counted = λ k x. omega (arith, total-append (within x) e.completed (read ∷ []));
  drained = λ d k l.
      All-append (λ r. (r.offset == e.next_offset) ≡ false) e.completed (read ∷ []) (d k l) (h, tt);
}

record_within-Recorded :
    (e : PipelinedEmit) (read : ReadTaskOutput) → Recorded e read (record_within e read)
record_within-Recorded e read = elim (Bool-cases (beyond e.eof_at read)) [
  | inl t ↦ rw t (error-Recorded e _ read (record_error-ne-none e Error.protocol))
  | inr t ↦ rw t (elim (Bool-cases (read.offset == e.next_offset)) [
    | inl at ↦ rw at (emit-Recorded e _ read (emit-Emitted e read ((==_iff _ _).0 at)))
    | inr at ↦ rw at (push-Recorded e read at)
  ])
]

pub record_read-Recorded :
    (e : PipelinedEmit) (read : ReadTaskOutput) → Recorded e read (record_read e read)
unfolding record_read
record_read-Recorded e read = observed read.eof
  where
    before :
        {e' : PipelinedEmit}
        → Quiet e e'
        → Recorded e' read (record_within e' read)
        → Recorded e read (record_within e' read)
    before {e'} q r = record {
      errors = λ k. q.errors (r.errors k);
      counted = λ k x. r.counted k x ∙ ap (λ n. n + within x read) (same_held q x);
      drained = λ d. r.drained (still-IsDrained q d);
    }

    observed :
        (eof : Bool)
        → Recorded e read (record_within (if eof then observe_read_eof e read else e) read)
    observed true = before (observe_read_eof-Quiet e read) (record_within-Recorded _ read)
    observed false = record_within-Recorded e read
