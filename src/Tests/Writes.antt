-- ===== src/Tests/Writes.antt =====
-- Writes of five bytes to a server that takes in two at a time and loses, on a reboot, what it did not
-- commit.
use nfs_crust.Prelude.{
  ℕ, ◌+◌, min, ◌≡◌, refl, ap, ◌∙◌, inl, inr, true, ◌&&◌, Option, none, some, List, [], ◌∷◌, take,
  length, ltb, leb, ==_iff, if◌then◌else◌, arith, Bool-cases,
}
use nfs_crust.Result.{ok}
use nfs_crust.Result.Action.{Ensures}
use nfs_crust.Nfs4.Body.{WriteData, WriteStability, same_bytes}
use nfs_crust.Client.Writes.{write_chunk, write_single_chunk_committed}
use nfs_crust.Client.Writes.Server.{FileServer, Marks, overlay}
use nfs_crust.Client.Writes.Contents.{Stored}
use nfs_crust.Client.Writes.Chunks.{write_chunk-IsStored}
use nfs_crust.Client.Writes.Committed.{write_single_chunk_committed-IsStored}

record Disk : Type 0 where
  taken : ℕ → ℕ
  pending : ℕ → Option (List ℕ)
  verifier : List ℕ

abbrev mark : ℕ → ℕ → Option (List ℕ) → (ℕ → Option (List ℕ)) → ℕ → Option (List ℕ)
mark offset n v f x = if leb offset x && ltb x (offset + n) then v else f x

mark-Marks :
    (offset n : ℕ) (v : Option (List ℕ)) (f : ℕ → Option (List ℕ))
    → Marks offset n v f (mark offset n v f)
mark-Marks offset n v f = record {
  inside = λ x a b.
      let t : (leb offset x && ltb x (offset + n)) ≡ true = ground arith in rw t (inr refl);
  outside = λ x d. elim (Bool-cases (leb offset x && ltb x (offset + n))) [
    | inl t ↦ absurd (d (ground arith) (ground arith))
    | inr t ↦ rw t (inr refl)
  ];
}

mark-unmarked :
    (offset n : ℕ) (v : Option (List ℕ)) (f : ℕ → Option (List ℕ))
    → Marks offset n v f (mark offset n none f)
mark-unmarked offset n v f =
    let m : Marks offset n none f (mark offset n none f) = mark-Marks offset n none f in
    record {
      inside = λ x a b. elim (m.inside x a b) [ inl e ↦ inl e | inr e ↦ inl e ];
      outside = m.outside;
    }

abbrev accepted : List ℕ → List ℕ → WriteData
accepted verifier bytes = record {
  count = min 2 (length bytes);
  committed = WriteStability.unstable;
  verifier = verifier;
}

abbrev take_in : ℕ → List ℕ → Option (List ℕ) → Disk → Disk
take_in offset bytes v disk = record disk {
  taken = overlay offset (take (min 2 (length bytes)) bytes) disk.taken;
  pending = mark offset (min 2 (length bytes)) v disk.pending;
}

-- A byte that is marked with another verifier was lost.
abbrev byte_of : Option (List ℕ) → List ℕ → ℕ → ℕ
byte_of none verifier b = b
byte_of (some v) verifier b = if same_bytes v verifier then b else 0

same_bytes_refl : (xs : List ℕ) → same_bytes xs xs ≡ true
unfolding same_bytes
same_bytes_refl [] = refl
same_bytes_refl (x ∷ xs) = rw ((==_iff x x).1 refl) (same_bytes_refl xs)

byte_of-current : (verifier : List ℕ) (b : ℕ) → byte_of (some verifier) verifier b ≡ b
byte_of-current verifier b = rw (same_bytes_refl verifier) refl

abbrev two_at_a_time : FileServer
two_at_a_time = record {
  State = Disk;
  contents = λ disk x. byte_of (disk.pending x) disk.verifier (disk.taken x);
  verifier = λ disk. disk.verifier;
  taken = λ disk. disk.taken;
  pending = λ disk. disk.pending;
  reboot = λ disk. record disk { verifier = 9 ∷ disk.verifier };
  write = λ offset bytes disk.
      ok (accepted disk.verifier bytes, take_in offset bytes (some disk.verifier) disk);
  write_and_commit = λ offset bytes disk.
      ok ((accepted disk.verifier bytes, disk.verifier), take_in offset bytes none disk);
  keeps = λ disk x h. elim h [
    | inl e ↦ ap (λ p. byte_of p disk.verifier (disk.taken x)) e
    | inr e ↦
        ap (λ p. byte_of p disk.verifier (disk.taken x)) e
        ∙ byte_of-current disk.verifier (disk.taken x)
  ];
  reboot_taken = λ disk x. refl;
  reboot_pending = λ disk x. refl;
  write_takes = λ offset bytes disk. record {
    holds = λ h. (λ x. refl, mark-Marks offset (min 2 (length bytes)) _ disk.pending);
  };
  write_and_commit_takes = λ offset bytes disk. record {
    holds = λ h. (λ x. refl, mark-unmarked offset (min 2 (length bytes)) _ disk.pending);
  };
}

abbrev blank : Disk
blank = record { taken = λ x. 0; pending = λ x. none; verifier = 7 ∷ [] }

abbrev body : List ℕ
body = 1 ∷ 2 ∷ 3 ∷ 4 ∷ 5 ∷ []

write_chunk-IsStored_example :
    Ensures
      (Stored two_at_a_time body 3 blank)
      (write_chunk two_at_a_time.write two_at_a_time.write_and_commit 4 3 body blank)
write_chunk-IsStored_example = write_chunk-IsStored two_at_a_time 4 3 body blank (omega arith)

write_single_chunk_committed-IsStored_example :
    Ensures
      (λ outcome s'.
        Stored two_at_a_time body 3 blank outcome s' × (outcome.unstable_verifier ≡ none))
      (write_single_chunk_committed two_at_a_time.write two_at_a_time.write_and_commit 8 3 body
        blank)
write_single_chunk_committed-IsStored_example =
    write_single_chunk_committed-IsStored two_at_a_time 8 3 body blank (omega arith)
