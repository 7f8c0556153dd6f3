-- ===== src/Client/Writes/Server.antt =====
-- What src/client.rs relies on of the server of a file that is written.
use nfs_crust.Prelude.{
  ℕ, ltb, ◌≤◌, ◌⊎◌, Option, none, some, suc, ◌+◌, ◌<◌, ◌≡◌, refl, ap, ◌∙◌, sym, true, false, List,
  [], ◌∷◌, ◌++◌, length, take, ◌==◌, if◌then◌else◌, arith, Bool-cases, inl, inr,
}
use nfs_crust.Result.Action.{Action, Ensures}
use nfs_crust.Error.{Error}
use nfs_crust.Nfs4.Body.{WriteData, WriteStability, same_bytes}

-- A file as the byte at each offset, with other bytes from an offset on.
unfoldable pub overlay : ℕ → List ℕ → (ℕ → ℕ) → ℕ → ℕ
overlay offset [] f x = f x
overlay offset (b ∷ bs) f x =
    let rest = overlay (suc offset) bs f x in if x == offset then b else rest

abbrev pub IsWritten : ℕ → List ℕ → (ℕ → ℕ) → (ℕ → ℕ) → Type 0
IsWritten offset bytes f g = (x : ℕ) → g x ≡ overlay offset bytes f x

-- A file as what each offset is marked with, after `n` of them from `offset` on were marked with `v`.
-- A mark may be lifted at any time.
pub record Marks (offset n : ℕ) (v : Option (List ℕ)) (f g : ℕ → Option (List ℕ)) : Type 0 where
  pub inside : (x : ℕ) → offset ≤ x → x < offset + n → (g x ≡ none) ⊎ (g x ≡ v)
  pub outside : (x : ℕ) → (offset ≤ x → x < offset + n → ⊥) → (g x ≡ none) ⊎ (g x ≡ f x)

-- What the bytes of a WRITE are marked with: nothing where the server says that they are on stable
-- storage, and the verifier of the reply otherwise.
abbrev pub at_risk : WriteStability → List ℕ → Option (List ℕ)
at_risk WriteStability.file_sync verifier = none
at_risk _ verifier = some verifier

-- And after a COMMIT: nothing if its verifier is the one of the WRITE.
abbrev pub after_commit : WriteData → List ℕ → Option (List ℕ)
after_commit reply verifier =
    if same_bytes verifier reply.verifier then none else at_risk reply.committed reply.verifier

-- What a reply to a WRITE of `bytes` means for what the server took in, `f` before and `g` after it, and
-- for the marks, `p` before and `q` after it. A count that is larger than the request means nothing.
abbrev pub Took :
    ℕ
    → List ℕ
    → WriteData
    → Option (List ℕ)
    → (ℕ → ℕ)
    → (ℕ → ℕ)
    → (ℕ → Option (List ℕ))
    → (ℕ → Option (List ℕ))
    → Type 0
Took offset bytes reply v f g p q =
    reply.count ≤ length bytes
    → IsWritten offset (take reply.count bytes) f g × Marks offset reply.count v p q

-- The server of a file. `taken` are the bytes that it took in, and `pending` marks those that are not on
-- stable storage with the verifier under which it took them in. A reboot may change the verifier and
-- drop every byte that is marked with another one: `contents`, what the file reads as, is as it was
-- taken in where there is no mark, or where the mark is the verifier that the server has now.
pub record FileServer : Type 1 where
  pub State : Type 0
  pub contents : State → ℕ → ℕ
  pub verifier : State → List ℕ
  pub taken : State → ℕ → ℕ
  pub pending : State → ℕ → Option (List ℕ)
  pub reboot : State → State
  pub write : ℕ → List ℕ → Action Error State WriteData
  pub write_and_commit : ℕ → List ℕ → Action Error State (WriteData × List ℕ)
  pub keeps :
      (s : State) (x : ℕ)
      → (pending s x ≡ none) ⊎ (pending s x ≡ some (verifier s))
      → contents s x ≡ taken s x
  pub reboot_taken : (s : State) (x : ℕ) → taken (reboot s) x ≡ taken s x
  pub reboot_pending : (s : State) (x : ℕ) → pending (reboot s) x ≡ pending s x
  pub write_takes :
      (offset : ℕ) (bytes : List ℕ) (s : State)
      → Ensures
          (λ reply s'.
            Took offset bytes reply
              (at_risk reply.committed reply.verifier)
              (taken s)
              (taken s')
              (pending s)
              (pending s'))
          (write offset bytes s)
  pub write_and_commit_takes :
      (offset : ℕ) (bytes : List ℕ) (s : State)
      → Ensures
          (λ reply s'.
            Took offset bytes
              (reply.0)
              (after_commit (reply.0) (reply.1))
              (taken s)
              (taken s')
              (pending s)
              (pending s'))
          (write_and_commit offset bytes s)

chain :
    {a c v : Option (List ℕ)} → (a ≡ none) ⊎ (a ≡ c) → (c ≡ none) ⊎ (c ≡ v) → (a ≡ none) ⊎ (a ≡ v)
chain (inl e) f = inl e
chain (inr e) (inl f) = inl (e ∙ f)
chain (inr e) (inr f) = inr (e ∙ f)

pub Marks-append :
    (offset n m k : ℕ) (v : Option (List ℕ)) (f g h : ℕ → Option (List ℕ))
    → k ≡ n + m
    → Marks offset n v f g
    → Marks (offset + n) m v g h
    → Marks offset k v f h
Marks-append offset n m k v f g h e first second = record {
  inside = λ x a b. elim (Bool-cases (ltb x (offset + n))) [
    | inl t ↦ chain (second.outside x (λ c d. ground arith)) (first.inside x a (ground arith))
    | inr t ↦ second.inside x (ground arith) (omega arith)
  ];
  outside = λ x d.
      chain (second.outside x (λ a b. d (omega arith) (omega arith)))
        (first.outside x (λ a b. d a (omega arith)));
}

-- An outcome without a verifier, or with the same one.
abbrev pub Extends : Option (List ℕ) → Option (List ℕ) → Type 0
Extends v w = (v ≡ none) ⊎ (v ≡ w)

pub Marks-extend :
    (offset n : ℕ) (v w : Option (List ℕ)) (f g : ℕ → Option (List ℕ))
    → Extends v w
    → Marks offset n v f g
    → Marks offset n w f g
Marks-extend offset n v w f g e m = record {
  inside = λ x a b. chain (m.inside x a b) e;
  outside = m.outside;
}

pub Extends-trans : {u v w : Option (List ℕ)} → Extends u v → Extends v w → Extends u w
Extends-trans = chain

overlay-before :
    (offset : ℕ) (bytes : List ℕ) (f : ℕ → ℕ) (x : ℕ) → x < offset → overlay offset bytes f x ≡ f x
unfolding overlay
overlay-before offset [] f x h = refl
overlay-before offset (b ∷ bs) f x h = elim (Bool-cases (x == offset)) [
  | inl t ↦ absurd (ground arith)
  | inr t ↦ rw t (overlay-before (suc offset) bs f x (omega arith))
]

pub overlay-cong :
    (offset : ℕ) (xs : List ℕ) (f g : ℕ → ℕ) (x : ℕ)
    → f x ≡ g x
    → overlay offset xs f x ≡ overlay offset xs g x
unfolding overlay
overlay-cong offset [] f g x h = h
overlay-cong offset (b ∷ xs) f g x h =
    ap (λ r. if x == offset then b else r) (overlay-cong (suc offset) xs f g x h)

overlay-head :
    (offset b : ℕ) (bs : List ℕ) (f : ℕ → ℕ) (x : ℕ)
    → (x == offset) ≡ true
    → overlay offset (b ∷ bs) f x ≡ b
unfolding overlay
overlay-head offset b bs f x h = rw h refl

overlay-tail :
    (offset b : ℕ) (bs : List ℕ) (f : ℕ → ℕ) (x : ℕ)
    → (x == offset) ≡ false
    → overlay offset (b ∷ bs) f x ≡ overlay (suc offset) bs f x
unfolding overlay
overlay-tail offset b bs f x h = rw h refl

pub overlay-nil : (offset : ℕ) (f : ℕ → ℕ) (x : ℕ) → overlay offset [] f x ≡ f x
unfolding overlay
overlay-nil offset f x = refl

pub overlay-append :
    (offset : ℕ) (xs ys : List ℕ) (f : ℕ → ℕ) (x : ℕ)
    → overlay (offset + length xs) ys (overlay offset xs f) x ≡ overlay offset (xs ++ ys) f x
overlay-append offset [] ys f x =
    let e : offset + 0 ≡ offset = omega arith in
    ap (λ o. overlay o ys (overlay offset [] f) x) e
    ∙ overlay-cong offset ys _ f x (overlay-nil offset f x)
overlay-append offset (b ∷ xs) ys f x =
    let e : offset + suc (length xs) ≡ suc offset + length xs = omega arith in
    elim (Bool-cases (x == offset)) [
      | inl t ↦
          overlay-before _ ys _ x (ground arith)
          ∙ overlay-head offset b xs f x t
          ∙ sym (overlay-head offset b (xs ++ ys) f x t)
      | inr t ↦
          ap (λ o. overlay o ys (overlay offset (b ∷ xs) f) x) e
          ∙ overlay-cong _ ys _ (overlay (suc offset) xs f) x (overlay-tail offset b xs f x t)
          ∙ overlay-append (suc offset) xs ys f x
          ∙ sym (overlay-tail offset b (xs ++ ys) f x t)
    ]

-- Bytes written behind bytes that were written.
pub IsWritten-append :
    (offset : ℕ) (xs ys : List ℕ) (f g h : ℕ → ℕ)
    → IsWritten offset xs f g
    → IsWritten (offset + length xs) ys g h
    → IsWritten offset (xs ++ ys) f h
IsWritten-append offset xs ys f g h first second x =
    second x
    ∙ overlay-cong _ ys g (overlay offset xs f) x (first x)
    ∙ overlay-append offset xs ys f x
