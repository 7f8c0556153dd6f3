-- ===== src/Result/Action.antt =====
-- `do` for actions over a state, and what an action ensures.
use mathlib.Core.Path.{subst}
use nfs_crust.Prelude.{◌≡◌, ◌≢◌, refl}
use nfs_crust.Result.{Result, ok, err, panic}

abbrev pub Action : Type 0 → Type 0 → Type 0 → Type 0
Action E S A = S → Result E (A × S)

abbrev pub and_then : {E S A B : Type 0} → Result E (A × S) → (A → Action E S B) → Result E (B × S)
and_then (ok (a, s)) f = f a s
and_then (err e) f = err e
and_then panic f = panic

infixl 5 ◌>>=◌ ◌>>◌
abbrev pub ◌>>=◌ : {E S A B : Type 0} → Action E S A → (A → Action E S B) → Action E S B
◌>>=◌ m f s = and_then (m s) f

abbrev pub ◌>>◌ : {E S A B : Type 0} → Action E S A → Action E S B → Action E S B
m >> k = m >>= λ _. k

abbrev pub pure : {E S A : Type 0} → A → Action E S A
pure a s = ok (a, s)

abbrev pub fail : {E S A : Type 0} → E → Action E S A
fail e s = err e

-- A step that reads no state.
abbrev pub lift : {E S A : Type 0} → Result E A → Action E S A
lift (ok a) s = ok (a, s)
lift (err e) s = err e
lift panic s = panic

-- The outcome is no panic, and a success satisfies `Q`.
abbrev pub Post : {E S A : Type 0} → (A → S → Type 0) → Result E (A × S) → Type 0
Post Q (ok (a, s)) = Q a s
Post Q (err e) = Unit
Post Q panic = ⊥

pub record Ensures {E S A : Type 0} (Q : A → S → Type 0) (r : Result E (A × S)) : Type 0 where
  pub holds : Post Q r

module _ {E S A : Type 0} (Q : A → S → Type 0) where
  pub Ensures-ok : (a : A) (s : S) → Q a s → Ensures {E = E} Q (ok (a, s))
  Ensures-ok a s h = record { holds = h }

  pub Ensures-err : (e : E) → Ensures Q (err e)
  Ensures-err e = record { holds = tt }

  pub Ensures-lift :
      (r : Result E A) (s : S) → r ≢ panic → ((a : A) → r ≡ ok a → Q a s) → Ensures Q (lift r s)
  Ensures-lift (ok a) s h k = record { holds = k a refl }
  Ensures-lift (err e) s h k = record { holds = tt }
  Ensures-lift panic s h k = absurd (h refl)

  pub Ensures-ne-panic : {r : Result E (A × S)} → Ensures Q r → r ≢ panic
  Ensures-ne-panic {r} h e = subst (Post Q) e h.holds

module _ {E S A B : Type 0} {Q : A → S → Type 0} {R : B → S → Type 0} where
  -- The rule for `do`: what the first step ensures is there for the rest.
  infixr 2 ◌▹◌
  pub ◌▹◌ :
      {r : Result E (A × S)} {f : A → Action E S B}
      → Ensures Q r
      → ((a : A) (s' : S) → Q a s' → Ensures R (f a s'))
      → Ensures R (and_then r f)
  ◌▹◌ {r} {f} h k = onward r h.holds
    where
      onward : (r : Result E (A × S)) → Post Q r → Ensures R (and_then r f)
      onward (ok (a, s')) q = k a s' q
      onward (err e) q = record { holds = tt }
      onward panic q = absurd q

-- What is ensured of a success, and which success it is.
pub Ensures-known :
    {E S A : Type 0} {Q : A → S → Type 0} (r : Result E (A × S))
    → Ensures Q r
    → Ensures (λ a s'. (r ≡ ok (a, s')) × Q a s') r
Ensures-known (ok (a, s)) h = record { holds = (refl, h.holds) }
Ensures-known (err e) h = record { holds = tt }
Ensures-known panic h = absurd h.holds

module _ {E S A : Type 0} {Q R : A → S → Type 0} where
  pub Ensures-weaken :
      (r : Result E (A × S)) → Ensures Q r → ((a : A) (s : S) → Q a s → R a s) → Ensures R r
  Ensures-weaken (ok (a, s)) h k = record { holds = k a s h.holds }
  Ensures-weaken (err e) h k = record { holds = tt }
  Ensures-weaken panic h k = absurd h.holds

module _ {E S A B : Type 0} {Q : A → S → Type 0} {f g : A → Action E S B} where
  pub and_then-cong :
      (r : Result E (A × S))
      → Ensures Q r
      → ((a : A) (s : S) → Q a s → f a s ≡ g a s)
      → and_then r f ≡ and_then r g
  and_then-cong (ok (a, s)) q h = h a s q.holds
  and_then-cong (err e) q h = refl
  and_then-cong panic q h = refl
