-- ===== src/Client/Reads/Loop.antt =====
-- src/client.rs: `read_handle_to_bytes_pipelined_into` run to its end. `choose` is the order in which
-- `FuturesUnordered` hands out the replies: the n-th one is that of the request at this index, or of
-- the last. A read of n bytes takes at most 2 * n steps, so that this is enough fuel; without it the
-- loop panics.
use nfs_crust.Prelude.{
  ℕ, zero, suc, ◌<◌, ◌+◌, ◌*◌, ◌≡◌, ◌≢◌, refl, ap, ◌∙◌, Bool, true, false, if◌then◌else◌, Option,
  none, some, List, [], ◌∷◌, ◌++◌, take, drop, arith,
}
use nfs_crust.Prelude.Words.{u32_limit, u64_limit}
use nfs_crust.Result.{Result, ok, err, panic}
use nfs_crust.Result.Try.{◌>>=◌, ◌>>◌}
use nfs_crust.Error.{Error}
use nfs_crust.Client.Reads.{ChunkScheduler, read_chunk, validate_optional_observed_eof}
use nfs_crust.Client.Reads.Emit.{PipelinedEmit, any_beyond, is_short, finish_without, finish_read}
use nfs_crust.Client.Reads.Pipeline.{
  IsHonest, Pipeline, ReadRequirements, init, next_request, complete, Step, schedule, answer, Reach,
  here, next,
}
use nfs_crust.Client.Reads.Sequential.{Replies}
use nfs_crust.Client.Reads.Contents.{IsRead, eof-ne-panic}
use nfs_crust.Client.Reads.Whole.{pipelined_read-Reach}
use nfs_crust.Client.Reads.Steps.{steps, pipelined_read-steps}

-- The element at an index, or the last, and what stands around it.
abbrev pub pick {ℓ} : {A : Type ℓ} → ℕ → A → List A → List A × A × List A
pick i x [] = ([], x, [])
pick zero x (y ∷ ys) = ([], x, y ∷ ys)
pick (suc i) x (y ∷ ys) = let (before, a, after) = pick i y ys in (x ∷ before, a, after)

pick_lem :
    {A : Type 0} (i : ℕ) (x : A) (xs : List A)
    → x ∷ xs ≡ (pick i x xs).0 ++ (pick i x xs).1 ∷ (pick i x xs).2
pick_lem i x [] = refl
pick_lem zero x (y ∷ ys) = refl
pick_lem (suc i) x (y ∷ ys) = ap (λ t. x ∷ t) (pick_lem i y ys)

-- The state after the request was answered.
abbrev pub answered_by : Replies → ℕ → List (ℕ × ℕ) × (ℕ × ℕ) × List (ℕ × ℕ) → Pipeline → Pipeline
answered_by session n (before, (offset, count), after) p =
    complete (record p { reads = before ++ after })
      (read_chunk offset count (session n offset count))

abbrev pub step_of :
    Replies
    → (ℕ → ℕ)
    → ℕ
    → Pipeline
    → Option ((ℕ × ℕ) × ChunkScheduler)
    → List (ℕ × ℕ)
    → Option Pipeline
step_of session choose n p (some (range, scheduler)) reads =
    some (record p { scheduler = scheduler; reads = p.reads ++ range ∷ [] })
step_of session choose n p none [] = none
step_of session choose n p none (read ∷ reads) =
    some (answered_by session n (pick (choose n) read reads) p)

module _ (session : Replies) (choose : ℕ → ℕ) (depth : ℕ) where
  -- One step of the loop, the n-th; none when it is over.
  unfoldable pub step_pipelined : ℕ → Pipeline → Option Pipeline
  step_pipelined n p = step_of session choose n p (next_request depth p) p.reads

  unfoldable pub run_pipelined : ℕ → ℕ → Pipeline → Result Error Pipeline
  run_pipelined zero n p = elim (step_pipelined n p) [ none ↦ ok p | some q ↦ panic ]
  run_pipelined (suc fuel) n p = elim (step_pipelined n p) [
    | none ↦ ok p
    | some q ↦ run_pipelined fuel (suc n) q
  ]

  -- `read_handle_to_bytes_pipelined_into`
  unfoldable pub read_pipelined_into :
      ℕ → ReadRequirements → List ℕ → ℕ → ℕ → ℕ → Result Error (List ℕ)
  read_pipelined_into chunk_size requirements out start total_len requests = do
    p ← run_pipelined (2 * total_len) requests (init out start total_len chunk_size requirements)
    finish_read p.emit
    ok p.emit.out

verdict-ne-panic :
    {A : Type 0} (beyond short : Bool) (e : Error) (r : Result Error A)
    → r ≢ panic
    → (if beyond then err e else if short then err e else r) ≢ panic
verdict-ne-panic true short e r h k = ground arith
verdict-ne-panic false true e r h k = ground arith
verdict-ne-panic false false e r h k = h k

finish_read-ne-panic : (e : PipelinedEmit) → finish_read e ≢ panic
unfolding finish_read
finish_read-ne-panic e = onward e.first_error
  where
    onward : (error : Option Error) → finish_without error e ≢ panic
    onward (some error) k = ground arith
    onward none k =
        verdict-ne-panic (any_beyond e.eof_at e.completed)
          (is_short e.eof_at e.eof_upper_bound e.next_offset) Error.protocol
          (validate_optional_observed_eof e.expected_eof e.eof_at)
          (eof-ne-panic e.expected_eof e.eof_at) k

module _ (file : List ℕ) (session : Replies) (choose : ℕ → ℕ) (depth : ℕ)
    (honest : (i offset count : ℕ) → IsHonest file offset (session i offset count)) where
  -- A step of the function is a step of the relation; no step is left when nothing is under way.
  abbrev Stepped : Pipeline → Option Pipeline → Type 0
  Stepped p (some q) = Step file depth p q
  Stepped p none = (p.reads ≡ []) × (next_request depth p ≡ none)

  step-Stepped : (n : ℕ) (p : Pipeline) → Stepped p (step_pipelined session choose depth n p)
  unfolding step_pipelined
  step-Stepped n p = onward (next_request depth p) p.reads refl refl
    where
      onward :
          (r : Option ((ℕ × ℕ) × ChunkScheduler)) (reads : List (ℕ × ℕ))
          → next_request depth p ≡ r
          → p.reads ≡ reads
          → Stepped p (step_of session choose n p r reads)
      onward (some (range, scheduler)) reads h k = schedule range scheduler h
      onward none [] h k = (k, h)
      onward none (read ∷ reads) h k =
          answer _ _ _ _ _ h (k ∙ pick_lem (choose n) read reads) (honest _ _ _)

module _ (file : List ℕ) (session : Replies) (choose : ℕ → ℕ) (depth : ℕ)
    (honest : (i offset count : ℕ) → IsHonest file offset (session i offset count)) (chunk_size : ℕ)
    (requirements : ReadRequirements) (out : List ℕ) (start total_len : ℕ)
    (range : start + total_len < u64_limit) (fits : chunk_size < u32_limit)
    (positive : 0 < chunk_size) where
  abbrev Run : Pipeline → Type 0
  Run = Reach file depth (init out start total_len chunk_size requirements)

  -- The loop ended: nothing is under way, and nothing can be sent.
  abbrev Ended : Result Error Pipeline → Type 0
  Ended (ok p) = Run p × (p.reads ≡ []) × (next_request depth p ≡ none)
  Ended (err e) = Unit
  Ended panic = ⊥

  run_pipelined-Ended :
      (fuel n : ℕ) (p : Pipeline) (r : Run p)
      → steps r + fuel ≡ 2 * total_len
      → Ended (run_pipelined session choose depth fuel n p)
  unfolding run_pipelined
  run_pipelined-Ended zero n p r h =
      onward (step_pipelined session choose depth n p)
        (step-Stepped file session choose depth honest n p)
    where
      onward :
          (s : Option Pipeline)
          → Stepped file session choose depth honest p s
          → Ended (elim s [ none ↦ ok p | some q ↦ panic ])
      onward none s = (r, s.0, s.1)
      onward (some q) s = absurd (
          omega (
            arith,
            pipelined_read-steps file out start total_len chunk_size depth requirements range fits
                positive (next r s),
          ))
  run_pipelined-Ended (suc fuel) n p r h =
      onward (step_pipelined session choose depth n p)
        (step-Stepped file session choose depth honest n p)
        (λ q r' e. run_pipelined-Ended fuel (suc n) q r' e)
    where
      onward :
          (s : Option Pipeline)
          → Stepped file session choose depth honest p s
          → ((q : Pipeline) (r' : Run q)
              → steps r' + fuel ≡ 2 * total_len
              → Ended (run_pipelined session choose depth fuel (suc n) q))
          → Ended
              (elim s [ none ↦ ok p | some q ↦ run_pipelined session choose depth fuel (suc n) q ])
      onward none s rest = (r, s.0, s.1)
      onward (some q) s rest = rest q (next r s) (omega arith)

  -- A pipelined read, whatever the order of the replies, neither panics nor runs out of its fuel, and
  -- if it succeeds, its output has grown by exactly the bytes of the file in the range, as many as the
  -- file has there. The server holds `file`, the range ends below 2 ^ 64, requests are at least one
  -- byte and below 2 ^ 32, and at least one request may be under way.
  pub read_pipelined_into-IsRead :
      (requests : ℕ)
      → 0 < depth
      → IsRead file out start total_len (
          read_pipelined_into session choose depth chunk_size requirements out start total_len
            requests)
  unfolding read_pipelined_into
  read_pipelined_into-IsRead requests deep =
      onward _ (run_pipelined-Ended (2 * total_len) requests _ here (omega arith))
    where
      finished_with :
          (p : Pipeline) (f : Result Error Unit)
          → f ≢ panic
          → (f ≡ ok tt → p.emit.out ≡ out ++ take total_len (drop start file))
          → IsRead file out start total_len (f >> ok p.emit.out)
      finished_with p (ok a) h k = k refl
      finished_with p (err e) h k = tt
      finished_with p panic h k = absurd (h refl)

      onward :
          (r : Result Error Pipeline)
          → Ended r
          → IsRead file out start total_len (do p ← r; finish_read p.emit; ok p.emit.out)
      onward (ok p) h = finished_with p _ (finish_read-ne-panic p.emit) λ done.
          pipelined_read-Reach file out start total_len chunk_size depth requirements p range fits
            positive deep h.0 h.1 h.2 done
      onward (err e) h = tt
      onward panic h = h
