-- ===== src/Result/Try.antt =====
-- `do` for results: the postfix `?` of Rust.
use nfs_crust.Result.{Result, ok, err, panic}

infixl 5 ◌>>=◌ ◌>>◌
abbrev pub ◌>>=◌ : {E A B : Type 0} → Result E A → (A → Result E B) → Result E B
ok a >>= f = f a
err e >>= f = err e
panic >>= f = panic

abbrev pub ◌>>◌ : {E A B : Type 0} → Result E A → Result E B → Result E B
m >> k = m >>= λ _. k
