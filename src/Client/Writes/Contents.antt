-- ===== src/Client/Writes/Contents.antt =====
-- src/client.rs: what one write adds to the bytes that the server took in, and what a merge of outcomes
-- keeps.
use mathlib.Core.Path.{subst}
use nfs_crust.Prelude.{
  ℕ, ◌+◌, ◌≤◌, ◌<◌, ◌≡◌, refl, ap, sym, ◌∙◌, Option, none, some, List, length, take-drop, drop-all,
  take, drop, length-take, length-drop, drop-drop, if◌then◌else◌, arith, ◌⊎◌, inl, inr, Bool-cases,
}
use nfs_crust.Prelude.Words.{u64_limit}
use nfs_crust.Result.{Result, ok, err, panic}
use nfs_crust.Result.Action.{Ensures, Ensures-lift, lift}
use nfs_crust.Error.{Error}
use nfs_crust.Nfs4.Body.{
  WriteData, WriteStability, requires_commit, same_bytes, ensure_write_verifier,
}
use nfs_crust.Nfs4.Body.Bytes.{same_bytes-eq}
use nfs_crust.Client.Writes.{
  add_u64, validate_write_reply, WriteOutcome, from_write, record_verifier, record_unstable,
  merge_verifier, merge,
}
use nfs_crust.Client.Writes.Server.{
  FileServer, IsWritten, IsWritten-append, overlay, overlay-nil, Marks, Marks-append, Marks-extend,
  Extends, Extends-trans, Took, at_risk,
}

-- The reply is accepted with a count of at least one byte and no more than were sent.
pub validate_write_reply-Ensures :
    {S : Type 0} (reply : WriteData) (n : ℕ) (s : S)
    → Ensures
        (λ written s'. (written ≡ reply.count) × (0 < written) × (written ≤ n) × (s' ≡ s))
        (lift (validate_write_reply reply n) s)
unfolding validate_write_reply
validate_write_reply-Ensures reply n s =
    Ensures-lift _ (validate_write_reply reply n) s (λ e. ground arith) λ w e. ground arith

pub add_u64-eq : (a b : ℕ) → a + b < u64_limit → add_u64 a b ≡ ok (a + b)
unfolding add_u64
add_u64-eq a b h = ground arith

-- What an outcome counts, and that its verifier is that of each part, if the part has one.
abbrev Merges : ℕ → Option (List ℕ) → Option (List ℕ) → Result Error WriteOutcome → Type 0
Merges n v w (ok outcome) =
    (outcome.bytes_written ≡ n)
    × Extends v outcome.unstable_verifier
    × Extends w outcome.unstable_verifier
Merges n v w (err e) = Unit
Merges n v w panic = ⊥

record_verifier-Merges :
    (n : ℕ) (known : Option (List ℕ)) (verifier : List ℕ)
    → Merges n known
        (some verifier)
        (record_verifier known (record { bytes_written = n; unstable_verifier = known }) verifier)
unfolding ensure_write_verifier
record_verifier-Merges n none verifier = (refl, inl refl, inr refl)
record_verifier-Merges n (some existing) verifier =
    elim (Bool-cases (same_bytes verifier existing)) [
      | inl t ↦ rw t (refl, inr refl, inr (ap (λ v. some v) (same_bytes-eq verifier existing t)))
      | inr t ↦ rw t tt
    ]

merge_verifier-Merges :
    (n : ℕ) (known verifier : Option (List ℕ))
    → Merges n known verifier
        (merge_verifier verifier (record { bytes_written = n; unstable_verifier = known }))
unfolding record_unstable
merge_verifier-Merges n known none = (refl, inr refl, inl refl)
merge_verifier-Merges n known (some verifier) = record_verifier-Merges n known verifier

pub from_write-bytes_written :
    (reply : WriteData) (written : ℕ) → (from_write reply written).bytes_written ≡ written
unfolding from_write
from_write-bytes_written reply written = refl

risk :
    (stability : WriteStability) (verifier : List ℕ)
    → (if requires_commit stability then some verifier else none) ≡ at_risk stability verifier
unfolding requires_commit
risk WriteStability.unstable verifier = refl
risk WriteStability.data_sync verifier = refl
risk WriteStability.file_sync verifier = refl

pub from_write-at_risk :
    (reply : WriteData) (written : ℕ)
    → (from_write reply written).unstable_verifier ≡ at_risk reply.committed reply.verifier
unfolding from_write
from_write-at_risk reply written = risk reply.committed reply.verifier

lift-Merges :
    {S : Type 0} (n : ℕ) (v w : Option (List ℕ)) (r : Result Error WriteOutcome) (s : S)
    → Merges n v w r
    → Ensures
        (λ outcome s'.
          ((outcome.bytes_written ≡ n)
            × Extends v outcome.unstable_verifier
            × Extends w outcome.unstable_verifier)
          × (s' ≡ s))
        (lift r s)
lift-Merges n v w (ok outcome) s h = record { holds = (h, refl) }
lift-Merges n v w (err e) s h = record { holds = tt }
lift-Merges n v w panic s h = absurd h

pub merge-Ensures :
    {S : Type 0} (outcome other : WriteOutcome) (s : S)
    → outcome.bytes_written + other.bytes_written < u64_limit
    → Ensures
        (λ merged s'.
          ((merged.bytes_written ≡ outcome.bytes_written + other.bytes_written)
            × Extends outcome.unstable_verifier merged.unstable_verifier
            × Extends other.unstable_verifier merged.unstable_verifier)
          × (s' ≡ s))
        (lift (merge outcome other) s)
unfolding merge
merge-Ensures outcome other s h = rw (add_u64-eq outcome.bytes_written other.bytes_written h) (
    lift-Merges _ outcome.unstable_verifier other.unstable_verifier _ s
      (merge_verifier-Merges _ outcome.unstable_verifier other.unstable_verifier))

pub nothing_left :
    (chunk : List ℕ) (start offset : ℕ) (f : ℕ → ℕ)
    → length chunk ≤ start
    → IsWritten offset (drop start chunk) f f
nothing_left chunk start offset f h x =
    sym (ap (λ bytes. overlay offset bytes f x) (drop-all start chunk h) ∙ overlay-nil offset f x)

-- A piece of the chunk, and then the rest of it.
pub then-IsWritten :
    (chunk : List ℕ) (start offset n : ℕ) (f g h : ℕ → ℕ)
    → n ≤ length (drop start chunk)
    → IsWritten offset (take n (drop start chunk)) f g
    → IsWritten (offset + n) (drop (start + n) chunk) g h
    → IsWritten offset (drop start chunk) f h
then-IsWritten chunk start offset n f g h fits first second =
    subst (λ bytes. IsWritten offset bytes f h) (take-drop n (drop start chunk))
      (IsWritten-append offset (take n (drop start chunk)) (drop n (drop start chunk)) f g h first (
        subst (λ k. IsWritten (offset + k) (drop n (drop start chunk)) g h)
          (let e : n ≡ length (take n (drop start chunk)) =
              omega (arith, length-take n (drop start chunk)) in
            e)
          (subst (λ bytes. IsWritten (offset + n) bytes g h) (sym (drop-drop start n chunk))
            second)))

module _ (server : FileServer) where
  -- The server took in the bytes from an offset on, marked with `v`, and nothing else.
  abbrev pub Holds : ℕ → List ℕ → Option (List ℕ) → server.State → server.State → Type 0
  Holds offset bytes v s s' =
      IsWritten offset bytes (server.taken s) (server.taken s')
      × Marks offset (length bytes) v (server.pending s) (server.pending s')

  pub nothing_held :
      (chunk : List ℕ) (start offset : ℕ) (v : Option (List ℕ)) (s : server.State)
      → length chunk ≤ start
      → Holds offset (drop start chunk) v s s
  nothing_held chunk start offset v s h = (
    nothing_left chunk start offset (server.taken s) h,
    record {
      inside = λ x a b. absurd (omega (arith, length-drop start chunk));
      outside = λ x d. inr refl;
    },
  )

  -- A piece of the chunk that a reply counts, and then the rest of it.
  pub then-Holds :
      (chunk : List ℕ) (start offset n : ℕ) (v : Option (List ℕ)) (s s1 s2 : server.State)
      → n ≤ length (drop start chunk)
      → IsWritten offset (take n (drop start chunk)) (server.taken s) (server.taken s1)
        × Marks offset n v (server.pending s) (server.pending s1)
      → Holds (offset + n) (drop (start + n) chunk) v s1 s2
      → Holds offset (drop start chunk) v s s2
  then-Holds chunk start offset n v s s1 s2 fits first second = (
    then-IsWritten chunk start offset n (server.taken s) (server.taken s1) (server.taken s2) fits
        (first.0) (second.0),
    Marks-append offset n (length (drop (start + n) chunk)) (length (drop start chunk)) v
        (server.pending s) (server.pending s1) (server.pending s2)
        (omega (arith, length-drop start chunk, length-drop (start + n) chunk)) (first.1)
        (second.1),
  )

  -- What a reply took in, with its count written otherwise and a verifier that extends its own.
  pub Took-at :
      (offset n : ℕ) (bytes : List ℕ) (reply : WriteData) (v w : Option (List ℕ))
      (s s' : server.State)
      → n ≡ reply.count
      → n ≤ length bytes
      → Extends v w
      → Took offset bytes reply v
          (server.taken s)
          (server.taken s')
          (server.pending s)
          (server.pending s')
      → IsWritten offset (take n bytes) (server.taken s) (server.taken s')
        × Marks offset n w (server.pending s) (server.pending s')
  Took-at offset n bytes reply v w s s' e h x took =
      let both : IsWritten offset (take reply.count bytes) (server.taken s) (server.taken s')
          × Marks offset reply.count v (server.pending s) (server.pending s') =
        took (omega arith) in
      (
        subst (λ k. IsWritten offset (take k bytes) (server.taken s) (server.taken s')) (sym e)
            (both.0),
        subst (λ k. Marks offset k w (server.pending s) (server.pending s')) (sym e)
            (Marks-extend offset reply.count v w _ _ x (both.1)),
      )

  -- Where the verifier of the outcome, if it has one, is still the server's, the file reads as the chunk
  -- in its range.
  abbrev pub ReadsBack : List ℕ → ℕ → server.State → WriteOutcome → server.State → Type 0
  ReadsBack chunk offset s outcome t =
      (x : ℕ)
      → offset ≤ x
      → x < offset + length chunk
      → (outcome.unstable_verifier ≡ none) ⊎ (outcome.unstable_verifier ≡ some (server.verifier t))
      → server.contents t x ≡ overlay offset chunk (server.taken s) x

  -- The outcome counts the bytes of the chunk; the server took in the chunk from an offset on, marked
  -- with at most the verifier of the outcome, and nothing else; and the file reads as the chunk, also
  -- after a reboot, where that verifier is none or the one the server has then.
  abbrev pub Stored : List ℕ → ℕ → server.State → WriteOutcome → server.State → Type 0
  Stored chunk offset s outcome s' =
      (outcome.bytes_written ≡ length chunk)
      × Holds offset chunk outcome.unstable_verifier s s'
      × ReadsBack chunk offset s outcome s'
      × ReadsBack chunk offset s outcome (server.reboot s')

  pub Holds-Stored :
      (chunk : List ℕ) (offset : ℕ) (s : server.State) (outcome : WriteOutcome) (s' : server.State)
      → outcome.bytes_written ≡ length chunk
      → Holds offset chunk outcome.unstable_verifier s s'
      → Stored chunk offset s outcome s'
  Holds-Stored chunk offset s outcome s' e h = (
    e,
    h,
    λ x a b current. server.keeps s' x (Extends-trans ((h.1).inside x a b) current) ∙ (h.0) x,
    λ x a b current.
        server.keeps (server.reboot s') x (
          Extends-trans (inr (server.reboot_pending s' x))
            (Extends-trans ((h.1).inside x a b) current))
        ∙ server.reboot_taken s' x
        ∙ (h.0) x,
  )
