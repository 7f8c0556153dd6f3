-- ===== src/Rpc/Payload.antt =====
-- src/rpc.rs: `RpcPayload`, the body of a call in segments.
use nfs_crust.Prelude.{
  ℕ, ◌+◌, ◌≡◌, refl, sym, ap, ◌∙◌, false, append-nil, List, [], ◌∷◌, ◌++◌, arith, length,
  length-append, append_assoc, ◌<◌, ◌==◌, if◌then◌else◌,
}
use nfs_crust.Prelude.Words.{saturating_add, u64_limit}

pub record RpcPayload : Type 0 where
  pub segments : List (List ℕ)
  pub len : ℕ

-- The loop of `from_segments`: empty segments are left out.
unfoldable pub keep_segments : List (List ℕ) → List (List ℕ) → ℕ → RpcPayload
keep_segments [] out len = record { segments = out; len = len }
keep_segments (segment ∷ rest) out len =
    let kept = keep_segments rest (out ++ (segment ∷ [])) (saturating_add len (length segment)) in
    let skipped = keep_segments rest out len in if length segment == 0 then skipped else kept

unfoldable pub from_segments : List (List ℕ) → RpcPayload
unfolding keep_segments
from_segments segments = keep_segments segments [] 0

abbrev pub concat : List (List ℕ) → List ℕ
concat [] = []
concat (x ∷ xs) = x ++ concat xs

pub concat-append : (xs ys : List (List ℕ)) → concat (xs ++ ys) ≡ concat xs ++ concat ys
concat-append [] ys = refl
concat-append (x ∷ xs) ys = rw (concat-append xs ys, append_assoc) refl

pub concat-snoc : (out : List (List ℕ)) (x : List ℕ) → concat (out ++ (x ∷ [])) ≡ concat out ++ x
concat-snoc out x = concat-append out (x ∷ []) ∙ ap (λ t. concat out ++ t) (append-nil x)

keep_segments_lem :
    (segments out : List (List ℕ)) (len : ℕ)
    → len ≡ length (concat out)
    → length (concat out) + length (concat segments) < u64_limit
    → (concat (keep_segments segments out len).segments ≡ concat out ++ concat segments)
      × ((keep_segments segments out len).len ≡ length (concat out) + length (concat segments))
unfolding keep_segments
keep_segments_lem [] out len e h = (sym (append-nil (concat out)), omega arith)
keep_segments_lem ([] ∷ xs) out len e h = keep_segments_lem xs out len e h
keep_segments_lem ((y ∷ ys) ∷ xs) out len e h =
    let full : (length (y ∷ ys) == 0) ≡ false = ground arith in
    let grown : length (concat (out ++ ((y ∷ ys) ∷ []))) ≡ length (concat out) + length (y ∷ ys) =
      omega (arith, ap length (concat-snoc out (y ∷ ys)), length-append (concat out) (y ∷ ys)) in
    let (same, count) =
      keep_segments_lem xs (out ++ ((y ∷ ys) ∷ [])) (saturating_add len (length (y ∷ ys)))
        (omega (arith, length-append (y ∷ ys) (concat xs)))
        (omega (arith, length-append (y ∷ ys) (concat xs))) in
    rw full (
      same ∙ rw (concat-snoc out (y ∷ ys), append_assoc) refl,
      omega (arith, count, length-append (y ∷ ys) (concat xs)),
    )

-- When the segments have fewer than 2^64 bytes together, the payload has their bytes, and the number
-- of these for its length.
pub from_segments_lem :
    (segments : List (List ℕ))
    → length (concat segments) < u64_limit
    → (concat (from_segments segments).segments ≡ concat segments)
      × ((from_segments segments).len ≡ length (concat segments))
unfolding from_segments
from_segments_lem segments h =
    let (same, count) = keep_segments_lem segments [] 0 refl (omega arith) in
    (same, omega (arith, count))
