-- ===== src/Client/Reads/Removal.antt =====
-- src/client.rs: what `swap_remove` takes from a vector and what it leaves, for a predicate on the
-- elements and for a sum over them.
use nfs_crust.Prelude.{
  ℕ, zero, suc, ◌+◌, ◌≡◌, inl, inr, refl, true, false, Option, none, some, List, [], ◌∷◌, ◌++◌, All,
  arith, ◌==◌, Bool-cases,
}
use nfs_crust.Client.Reads.{ReadTaskOutput}
use nfs_crust.Client.Reads.Emit.{
  PipelinedEmit, pop_last, keep_front, swap_remove, position, remove_at, take_completed,
}

module _ {ℓ} {A : Type ℓ} (P : A → Type 0) where
  pub All-append : (xs ys : List A) → All P xs → All P ys → All P (xs ++ ys)
  All-append [] ys hx hy = hy
  All-append (x ∷ xs) ys hx hy = (hx.0, All-append xs ys hx.1 hy)

  pop_last-All :
      (x : A) (xs : List A) → All P (x ∷ xs) → All P ((pop_last x xs).0) × P ((pop_last x xs).1)
  pop_last-All x [] h = (tt, h.0)
  pop_last-All x (y ∷ ys) h = let (front, last) = pop_last-All y ys h.1 in ((h.0, front), last)

  abbrev pub AllLeft : Option (A × List A) → Type 0
  AllLeft none = Unit
  AllLeft (some (a, rest)) = P a × All P rest

  keep_front-All : (x : A) (r : Option (A × List A)) → P x → AllLeft r → AllLeft (keep_front x r)
  keep_front-All x none hx h = tt
  keep_front-All x (some (a, rest)) hx h = (h.0, (hx, h.1))

  swap_remove-All : (i : ℕ) (xs : List A) → All P xs → AllLeft (swap_remove i xs)
  swap_remove-All i [] h = tt
  swap_remove-All zero (x ∷ []) h = (h.0, tt)
  swap_remove-All zero (x ∷ y ∷ ys) h =
      let (front, last) = pop_last-All y ys h.1 in (h.0, (last, front))
  swap_remove-All (suc i) (x ∷ xs) h = keep_front-All x _ h.0 (swap_remove-All i xs h.1)

module _ {ℓ} {A : Type ℓ} (f : A → ℕ) where
  abbrev pub total : List A → ℕ
  total [] = 0
  total (x ∷ xs) = f x + total xs

  pub total-append : (xs ys : List A) → total (xs ++ ys) ≡ total xs + total ys
  total-append [] ys = omega arith
  total-append (x ∷ xs) ys = omega (arith, total-append xs ys)

  pop_last-total :
      (x : A) (xs : List A) → total (x ∷ xs) ≡ f ((pop_last x xs).1) + total ((pop_last x xs).0)
  pop_last-total x [] = refl
  pop_last-total x (y ∷ ys) = omega (arith, pop_last-total y ys)

  -- The sum is that of the taken element and of the list that is left.
  abbrev pub TotalLeft : ℕ → Option (A × List A) → Type 0
  TotalLeft n none = Unit
  TotalLeft n (some (a, rest)) = n ≡ f a + total rest

  keep_front-total :
      (x : A) (n : ℕ) (r : Option (A × List A))
      → TotalLeft n r
      → TotalLeft (f x + n) (keep_front x r)
  keep_front-total x n none h = tt
  keep_front-total x n (some (a, rest)) h = omega arith

  swap_remove-total : (i : ℕ) (xs : List A) → TotalLeft (total xs) (swap_remove i xs)
  swap_remove-total i [] = tt
  swap_remove-total zero (x ∷ []) = refl
  swap_remove-total zero (x ∷ y ∷ ys) = omega (arith, pop_last-total y ys)
  swap_remove-total (suc i) (x ∷ xs) = keep_front-total x _ _ (swap_remove-total i xs)

module _ (P : ReadTaskOutput → Type 0) where
  pub take_completed-All : (e : PipelinedEmit) → All P e.completed → AllLeft P (take_completed e)
  unfolding take_completed
  take_completed-All e h = onward (position e.next_offset e.completed)
    where
      onward : (i : Option ℕ) → AllLeft P (remove_at i e.completed)
      onward none = tt
      onward (some i) = swap_remove-All P i e.completed h

module _ (f : ReadTaskOutput → ℕ) where
  pub take_completed-total :
      (e : PipelinedEmit) → TotalLeft f (total f e.completed) (take_completed e)
  unfolding take_completed
  take_completed-total e = onward (position e.next_offset e.completed)
    where
      onward : (i : Option ℕ) → TotalLeft f (total f e.completed) (remove_at i e.completed)
      onward none = tt
      onward (some i) = swap_remove-total f i e.completed

-- What is taken lies at the offset; when nothing is taken, nothing lies there.
abbrev pub IsAt : ℕ → List ReadTaskOutput → Option (ReadTaskOutput × List ReadTaskOutput) → Type 0
IsAt offset reads none = All (λ read. (read.offset == offset) ≡ false) reads
IsAt offset reads (some (read, rest)) = (read.offset == offset) ≡ true

keep_front-IsAt :
    (offset : ℕ) (x : ReadTaskOutput) (reads : List ReadTaskOutput)
    (r : Option (ReadTaskOutput × List ReadTaskOutput))
    → (x.offset == offset) ≡ false
    → IsAt offset reads r
    → IsAt offset (x ∷ reads) (keep_front x r)
keep_front-IsAt offset x reads none h k = (h, k)
keep_front-IsAt offset x reads (some r) h k = k

head-IsAt :
    (x : ReadTaskOutput) (reads : List ReadTaskOutput) (offset : ℕ)
    → (x.offset == offset) ≡ true
    → IsAt offset (x ∷ reads) (swap_remove zero (x ∷ reads))
head-IsAt x [] offset h = h
head-IsAt x (y ∷ ys) offset h = h

position-IsAt :
    (offset : ℕ) (reads : List ReadTaskOutput)
    → IsAt offset reads (remove_at (position offset reads) reads)
unfolding position
position-IsAt offset [] = tt
position-IsAt offset (x ∷ xs) = elim (Bool-cases (x.offset == offset)) [
  | inl t ↦ rw t (head-IsAt x xs offset t)
  | inr t ↦ rw t (onward t (position offset xs) (position-IsAt offset xs))
]
  where
    onward :
        (x.offset == offset) ≡ false
        → (i : Option ℕ) → IsAt offset xs (remove_at i xs)
        → IsAt offset (x ∷ xs) (remove_at (elim i [ none ↦ none | some i ↦ some (suc i) ]) (x ∷ xs))
    onward t none h = (t, h)
    onward t (some i) h = keep_front-IsAt offset x xs (swap_remove i xs) t h

pub take_completed-IsAt : (e : PipelinedEmit) → IsAt e.next_offset e.completed (take_completed e)
unfolding take_completed
take_completed-IsAt e = position-IsAt e.next_offset e.completed
