-- ===== src/Result.antt =====
-- Outcomes of Rust code: `Result<A, E>`, and the panics that slicing, buffer reads and `expect` may
-- raise. An action over a state `S` (a decoder over its buffer, a walk over replies) is a function of
-- type `S → Result E (A × S)`. A failing action keeps no state: its callers drop the state with it.
pub mod Try
pub mod Action
use nfs_crust.Prelude.{Option, none, some}

pub data Result (E A : Type 0) : Type 0 where
  ok : A → Result E A
  err : E → Result E A
  panic : Result E A

abbrev pub map_err : {E F A : Type 0} → (E → F) → Result E A → Result F A
map_err f (ok a) = ok a
map_err f (err e) = err (f e)
map_err f panic = panic

abbrev pub ok_or : {E A : Type 0} → Option A → E → Result E A
ok_or none e = err e
ok_or (some a) e = ok a
