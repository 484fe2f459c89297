-- ===== src/Idempotency/Backends.antt =====
-- Redis as src/services/idempotency.service.ts uses it. It is not part of the repository: a cache is an
-- argument, with the documented behaviour of the commands that the service issues.
use swift_chain_backend.Common.{Option, none, some, if◌then◌else◌, Text, text_eq, ◌≡◌}

pub record Cache (V : Type 0) : Type 1 where
  pub State : Type 0
  -- `GET`
  pub lookup : Text → State → Option V
  -- `SETEX`
  pub set_ex : Text → V → State → State
  -- `SET … NX`: `none` is the answer null.
  pub set_nx : Text → V → State → Option State
  pub lookup-set_ex :
      (k j : Text) (v : V) (s : State)
      → lookup j (set_ex k v s) ≡ (if text_eq k j then some v else lookup j s)
  pub set_nx_free :
      (k : Text) (v : V) (s : State) → lookup k s ≡ none → set_nx k v s ≡ some (set_ex k v s)
  pub set_nx_taken : (k : Text) (v w : V) (s : State) → lookup k s ≡ some w → set_nx k v s ≡ none
