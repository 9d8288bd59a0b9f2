-- ===== src/Exec.antt =====
-- How a Go function of the program ends, and the actions of the program over the state of the
-- cluster: a call returns a value or an error, panics, or is still waiting on its channels.
pub mod Safe
pub mod Keeps
pub mod Returns
pub mod Fails
pub mod Values
use kubernetes_cpi.Base.{ℕ, String, List, Option, none, some, Dict, insert}

-- metav1.Status.Reason
pub data StatusReason : Type 0 where
  not_found already_exists : StatusReason
  other_reason : String → StatusReason

-- `error` values. `status` is a `*kubeerrors.StatusError`; `wrap` is `bosherr.WrapError`, which is
-- no status error whatever it wraps; `errorf` keeps the format and the arguments apart.
pub data Error : Type 0 where
  status : StatusReason → ℕ → String → Error
  errorf : String → List String → Error
  wrap : String → Error → Error
  foreign : String → Error

-- What a call of a library returns.
pub data Result {ℓ} (A : Type ℓ) : Type ℓ where
  ok : A → Result A
  err : Error → Result A

pub data Outcome {ℓ} (A : Type ℓ) : Type ℓ where
  returns : A → Outcome A
  fails : Error → Outcome A
  panics : String → Outcome A
  waits : Outcome A

abbrev pub Call {ℓ} : Type 0 → Type ℓ → Type ℓ
Call S A = S → Result A × S

abbrev pub Exec {ℓ} : Type 0 → Type ℓ → Type ℓ
Exec S A = S → Outcome A × S

abbrev pub of_result {ℓ} : {A : Type ℓ} → Result A → Outcome A
of_result (ok a) = returns a
of_result (err e) = fails e

-- if err != nil { return bosherr.WrapError(err, message) }
abbrev pub wrap_with {ℓ} : {A : Type ℓ} → String → Outcome A → Outcome A
wrap_with message (returns a) = returns a
wrap_with message (fails e) = fails (wrap message e)
wrap_with message (panics p) = panics p
wrap_with message waits = waits

module _ {ℓ} {S : Type 0} {A : Type ℓ} where
  unfoldable pub pure : A → Exec S A
  pure a s = (returns a, s)

  unfoldable pub fail : Error → Exec S A
  fail e s = (fails e, s)

  unfoldable pub lift : Outcome A → Exec S A
  lift o s = (o, s)

  unfoldable pub call : Call S A → Exec S A
  call c s = let (r, s') = c s in (of_result r, s')

  unfoldable pub wrapping : String → Exec S A → Exec S A
  wrapping message m s = let (r, s') = m s in (wrap_with message r, s')

module _ {ℓ κ} {S : Type 0} {A : Type ℓ} {B : Type κ} where
  abbrev pub continue : Outcome A → (A → Exec S B) → Exec S B
  continue (returns a) f s = f a s
  continue (fails e) f s = (fails e, s)
  continue (panics p) f s = (panics p, s)
  continue waits f s = (waits, s)

  infixl 10 ◌>>=◌
  -- opening this opens the actions above too
  unfoldable pub ◌>>=◌ : Exec S A → (A → Exec S B) → Exec S B
  unfolding pure fail lift call wrapping
  ◌>>=◌ m f s = let (r, s') = m s in continue r f s'

infixl 10 ◌>>◌
abbrev pub ◌>>◌ {ℓ κ} : {S : Type 0} {A : Type ℓ} {B : Type κ} → Exec S A → Exec S B → Exec S B
m >> n = m >>= λ _. n

-- m[k] = v, which panics on a nil map.
abbrev pub assign {ℓ} : {V : Type ℓ} → String → V → Option (Dict V) → Outcome (Option (Dict V))
assign k v none = panics "assignment to entry in nil map"
assign k v (some m) = returns (some (insert k v m))

-- A step that may fail, and the rest.
abbrev pub and_then {ℓ κ} : {A : Type ℓ} {B : Type κ} → Outcome A → (A → Outcome B) → Outcome B
and_then (returns a) f = f a
and_then (fails e) f = fails e
and_then (panics p) f = panics p
and_then waits f = waits

-- The same on what library calls return.
abbrev pub ok_then {ℓ κ} : {A : Type ℓ} {B : Type κ} → Result A → (A → Result B) → Result B
ok_then (ok a) f = f a
ok_then (err e) f = err e

abbrev pub wrap_result {ℓ} : {A : Type ℓ} → String → Result A → Result A
wrap_result message (ok a) = ok a
wrap_result message (err e) = err (wrap message e)
