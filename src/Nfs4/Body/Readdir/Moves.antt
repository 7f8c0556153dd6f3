-- ===== src/Nfs4/Body/Readdir/Moves.antt =====
-- src/nfs4/codec.rs: READDIR results. The rounds are enough, and a page keeps to its limit.
use nfs_crust.Prelude.{
  ℕ, zero, suc, ◌≤◌, ◌<◌, Option, none, some, List, [], ◌∷◌, arith, length, length-append, ◌==◌,
  inl, inr, Bool-cases,
}
use nfs_crust.Result.Action.{Ensures, Ensures-weaken, ◌▹◌}
use nfs_crust.Xdr.ByteBuf.{ByteBuf}
use nfs_crust.Xdr.Decoder.Moves.{read_bool_moves, read_bytes_moves, read_u64_moves}
use nfs_crust.Xdr.Decoder.MovesOpaque.{read_string_unless_moves}
use nfs_crust.Nfs4.Types.{DirPage}
use nfs_crust.Nfs4.Body.Moves.{remaining_moves, fattr_moves}
use nfs_crust.Nfs4.Body.Readdir.{
  is_dot_readdir_name, push_name, entry_limit, readdir_loop, decode_readdir,
}

-- At most `limit` names, and no more bytes than before.
pub record IsPage (limit : ℕ) (s : List ℕ) (page : DirPage) (s' : List ℕ) : Type 0 where
  pub few : length page.entries ≤ limit
  pub shrinks : length s' ≤ length s

push_name-length :
    (entries : List (List ℕ)) (name : Option (List ℕ))
    → length (push_name entries name) ≤ suc (length entries)
push_name-length entries none = omega arith
push_name-length entries (some name) = omega (arith, length-append entries (name ∷ []))

module _ ⦃b : ByteBuf⦄ where
  loop_moves :
      (rounds limit : ℕ) (verifier : List ℕ) (entries : List (List ℕ)) (cookie : ℕ) (s : List ℕ)
      → length s < rounds
      → length entries ≤ limit
      → Ensures (IsPage limit s) (readdir_loop rounds limit verifier entries cookie s)
  unfolding readdir_loop
  loop_moves zero limit verifier entries cookie s h e = omega arith
  loop_moves (suc rounds) limit verifier entries cookie s h e = read_bool_moves s ▹ λ has s1 h1.
      elim (Bool-cases has) [
        | inl t ↦ rw t (elim (Bool-cases (length entries == limit)) [
          | inl u ↦ rw u (record { holds = record { few = e; shrinks = omega arith } })
          | inr u ↦ rw u (
              read_u64_moves s1 ▹ λ next s2 h2.
              read_string_unless_moves is_dot_readdir_name s2 ▹ λ name s3 h3.
              fattr_moves s3 ▹ λ _ s4 h4.
              Ensures-weaken _
                (loop_moves rounds limit verifier (push_name entries name) next s4 (omega arith)
                  (ground (arith, push_name-length entries name)))
                λ page s5 h5. record { few = h5.few; shrinks = omega (arith, h5.shrinks) })
        ])
        | inr t ↦ rw t (
            read_bool_moves s1 ▹ λ eof s2 h2. record {
              holds = record { few = e; shrinks = omega arith };
            })
      ]

  -- Decoding a READDIR result never panics, and a page that it returns has at most `max_entries`
  -- names.
  pub decode_readdir-IsPage :
      (max_entries : Option ℕ) (s : List ℕ)
      → Ensures (IsPage (entry_limit max_entries) s) (decode_readdir max_entries s)
  unfolding decode_readdir
  decode_readdir-IsPage max_entries s = read_bytes_moves 8 s ▹ λ verifier s1 h1.
      remaining_moves s1 ▹ λ left s2 h2.
      Ensures-weaken _
        (loop_moves (suc left) (entry_limit max_entries) verifier [] 0 s2 (omega arith)
          (omega arith))
        λ page s3 h3. record { few = h3.few; shrinks = omega (arith, h3.shrinks) }
