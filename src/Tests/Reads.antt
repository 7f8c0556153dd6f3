-- ===== src/Tests/Reads.antt =====
-- A pipelined read of five bytes, of which the server has four, in requests of two bytes.
use nfs_crust.Prelude.{
  ℕ, zero, suc, min, ◌+◌, ap, length, leb, Bool, ◌≤◌, ◌*◌, ◌≡◌, refl, true, false, none, List, [],
  ◌∷◌, take, drop, arith,
}
use nfs_crust.Result.{Result, ok}
use nfs_crust.Error.{Error}
use nfs_crust.Nfs4.Body.{ReadData}
use nfs_crust.Client.Reads.{
  next_range, push_gap, short_read_gap, read_chunk, validate_read_reply,
  validate_optional_observed_eof, ensure_buffered_read_within_limit, new_scheduler,
}
use nfs_crust.Client.Reads.Emit.{
  new_emit, eof_observed, can_schedule_more, observe_eof_upper_bound, observe_exact_eof,
  observe_read_eof, emit, position, take_completed, drain_queued, record_read, record_error,
  finish_read,
}
use nfs_crust.Client.Reads.Pipeline.{
  IsHonest, Pipeline, ReadRequirements, init, next_request, complete, schedule, answer, Reach, here,
  next,
}
use nfs_crust.Client.Reads.Whole.{pipelined_read-Reach}
use nfs_crust.Client.Reads.Sequential.{Replies}
use nfs_crust.Client.Reads.Contents.{IsRead}
use nfs_crust.Client.Reads.Range.{read_range_anonymous}
use nfs_crust.Client.Reads.Answers.{read_range_anonymous-IsRead}
use nfs_crust.Client.Reads.Steps.{pipelined_read-steps, steps}

abbrev file : List ℕ
file = 10 ∷ 11 ∷ 12 ∷ 13 ∷ []

abbrev no_requirements : ReadRequirements
no_requirements = record { expected_len = none; expected_eof = none; limit = none }

abbrev begin : Pipeline
begin = init [] 0 5 2 no_requirements

abbrev queue : List (ℕ × ℕ) → ℕ → Pipeline → Pipeline
queue gaps next_offset p = record p {
  scheduler = record { gaps = gaps; next_offset = next_offset; end = 5; chunk_size = 2 };
}

abbrev reply : Bool → List ℕ → Result Error ReadData
reply eof bytes = ok (record { eof = eof; bytes = bytes })

-- Two requests are sent, and the second is answered first.
abbrev first : Pipeline
first = record begin {
  scheduler = record { gaps = []; next_offset = 4; end = 5; chunk_size = 2 };
  reads = (0, 2) ∷ (2, 2) ∷ [];
}

abbrev second : Pipeline
second =
    complete (record first { reads = (0, 2) ∷ [] }) (read_chunk 2 2 (reply false (12 ∷ 13 ∷ [])))

-- The first is answered by one byte, so that its other byte is asked for again.
abbrev third : Pipeline
third =
    complete (record (queue [] 5 second) { reads = (4, 1) ∷ [] })
      (read_chunk 0 2 (reply false (10 ∷ [])))

abbrev fourth : Pipeline
fourth =
    complete (record (queue [] 5 third) { reads = (4, 1) ∷ [] })
      (read_chunk 1 1 (reply false (11 ∷ [])))

-- The last request finds the end of the file.
abbrev last : Pipeline
last = complete (record fourth { reads = [] }) (read_chunk 4 1 (reply true []))

run : Reach file 2 begin last
unfolding next_request can_schedule_more eof_observed next_range complete read_chunk
    validate_read_reply push_gap short_read_gap record_read record_error observe_read_eof
    observe_exact_eof observe_eof_upper_bound emit ensure_buffered_read_within_limit drain_queued
    take_completed position new_scheduler new_emit
run =
    next
      (next
        (next
          (next
            (next
              (next (next (next here (schedule (0, 2) _ refl)) (schedule (2, 2) _ refl)) (
                answer ((0, 2) ∷ []) [] 2 2 (reply false (12 ∷ 13 ∷ [])) refl refl
                  (refl, λ e. ground arith)))
              (schedule (4, 1) _ refl))
            (answer [] ((4, 1) ∷ []) 0 2 (reply false (10 ∷ [])) refl refl
              (refl, λ e. ground arith)))
          (schedule (1, 1) _ refl))
        (answer ((4, 1) ∷ []) [] 1 1 (reply false (11 ∷ [])) refl refl (refl, λ e. ground arith)))
      (answer [] [] 4 1 (reply true []) refl refl (refl, λ e. ground arith))

pipelined_read-Reach_example : last.emit.out ≡ file
unfolding next_request can_schedule_more eof_observed next_range complete read_chunk
    validate_read_reply push_gap short_read_gap record_read observe_read_eof observe_exact_eof
    observe_eof_upper_bound emit ensure_buffered_read_within_limit drain_queued take_completed
    position finish_read validate_optional_observed_eof new_scheduler new_emit
pipelined_read-Reach_example =
    pipelined_read-Reach file [] 0 5 2 2 no_requirements last (omega arith) (omega arith)
      (omega arith) (omega arith) run refl refl refl

pipelined_read-steps_example : steps run ≤ 2 * 5
pipelined_read-steps_example =
    pipelined_read-steps file [] 0 5 2 2 no_requirements (omega arith) (omega arith) (omega arith)
      run

-- A server whose replies have at most two bytes.
abbrev served : ℕ → ℕ → ReadData
served offset count =
    let bytes = take (min count 2) (drop offset file) in
    record { eof = leb 4 (offset + length bytes); bytes = bytes }

abbrev session : Replies
session i offset count = ok (served offset count)

take-length : (n : ℕ) (xs : List ℕ) → take n xs ≡ take (length (take n xs)) xs
take-length zero xs = refl
take-length (suc n) [] = refl
take-length (suc n) (x ∷ xs) = ap (λ t. x ∷ t) (take-length n xs)

session-IsHonest : (i offset count : ℕ) → IsHonest file offset (session i offset count)
session-IsHonest i offset count = (take-length (min count 2) (drop offset file), λ e. leb→le 4 _ e)
  where
    leb→le : (m n : ℕ) → leb m n ≡ true → m ≤ n
    leb→le m n h = ground arith

read_range_anonymous-IsRead_example :
    IsRead file [] 1 10 (read_range_anonymous session 3 4 2 no_requirements (λ n. n) (ok tt) 1 10)
read_range_anonymous-IsRead_example =
    read_range_anonymous-IsRead file session 3 4 2 no_requirements (λ n. n) session-IsHonest
      (omega arith) (omega arith) (omega arith) (omega arith) (ok tt) 1 10 (λ e. ground arith)
      (omega arith)
