-- ===== src/Dispatch.antt =====
-- cpi/dispatch.go: a request's arguments are checked and decoded at the types of the action's
-- parameters, the action is called, and what it returns becomes the response.
pub mod Laws
pub mod Safety
use kubernetes_cpi.Base.{
  ℕ, zero, suc, ◌+◌, ◌-◌, String, Bool, true, false, not, ◌&&◌, Option, none, some, List, [], ◌∷◌,
  ltb, leb, if◌then◌else◌,
}
use kubernetes_cpi.Exec.{
  Error, errorf, Outcome, returns, fails, panics, waits, Result, of_result, wrap_with, and_then,
  Exec, pure, fail, lift, ◌>>=◌,
}
use kubernetes_cpi.Text.{decimal}

-- len(args)
unfoldable pub length {ℓ} : {A : Type ℓ} → List A → ℕ
length [] = 0
length (x ∷ xs) = length xs + 1

-- reflect's In(i), which panics out of range.
unfoldable pub type_in {ℓ} : {T : Type ℓ} → List T → ℕ → Outcome T
type_in [] i = panics "reflect: Func index out of bounds"
type_in (t ∷ types) zero = returns t
type_in (t ∷ types) (suc i) = type_in types i

-- The type of an action: a variadic one has a slice type as its last parameter.
pub record ActionType (T : Type 0) : Type 0 where
  pub inputs : List T
  pub variadic : Bool

unfoldable pub required_arg_count : {T : Type 0} → ActionType T → ℕ
unfolding length
required_arg_count action =
    if action.variadic then length action.inputs - 1 else length action.inputs

unfoldable pub check_count : {T : Type 0} → ActionType T → ℕ → Outcome (Unit {0})
unfolding required_arg_count
check_count action arg_count =
    let required = required_arg_count action in
    if ltb arg_count required
    then fails (
        errorf "Not enough arguments: have %d, want %d" (decimal arg_count ∷ decimal required ∷ []))
    else if ltb required arg_count && not action.variadic
    then fails
        (errorf "Too many arguments: have %d, want %d" (decimal arg_count ∷ decimal required ∷ []))
    else returns tt

-- A value that an action returned. Of an error, none is nil.
pub data Returned (Value : Type 0) : Type 0 where
  plain : Value → Returned Value
  error_value : Option Error → Returned Value

-- What a dispatch sets of a response: the log, the type of the error and whether to try again are
-- never set.
pub record Response (Value : Type 0) : Type 0 where
  pub result : Option (Returned Value)
  -- the message of the error
  pub error : Option String

-- The error's part of the response.
abbrev pub message_of : (Error → String) → Option Error → Option String
message_of message none = none
message_of message (some e) = some (message e)

module _ {Value : Type 0} (message : Error → String) where
  unfoldable pub new_response : List (Returned Value) → Outcome (Response Value)
  new_response [] = fails (errorf "Too many action results" [])
  new_response (plain v ∷ []) = returns (record { result = some (plain v); error = none })
  new_response (error_value e ∷ []) =
      returns (record { result = none; error = message_of message e })
  new_response (r ∷ plain v ∷ []) = fails (errorf "Action error is not an error" [])
  new_response (r ∷ error_value e ∷ []) =
      returns (record { result = some r; error = message_of message e })
  new_response (r ∷ r' ∷ r'' ∷ rest) = fails (errorf "Too many action results" [])

-- `elem` is the element type of a slice type; an argument of the request is a `Json`, which
-- json.Marshal writes as text and json.Unmarshal reads at a type.
module _ {T Json Value : Type 0} (elem_type : T → T) (marshal : Json → Result String)
    (unmarshal : T → String → Result Value) where
  abbrev pub element : Outcome T → Outcome T
  element (returns t) = returns (elem_type t)
  element (fails e) = fails e
  element (panics p) = panics p
  element waits = waits

  -- newArgValue
  unfoldable pub new_arg_type : ActionType T → ℕ → Outcome T
  unfolding type_in length
  new_arg_type action index =
      let arg_count = length action.inputs in
      if action.variadic && leb (arg_count - 1) index
      then element (type_in action.inputs (arg_count - 1))
      else type_in action.inputs index

  -- The loop over the arguments, from an index on.
  unfoldable pub decode_args : ActionType T → ℕ → List Json → Outcome (List Value)
  unfolding new_arg_type
  decode_args action index [] = returns []
  decode_args action index (arg ∷ args) =
      let rest = decode_args action (suc index) args in
      and_then (wrap_with "Marshalling arg" (of_result (marshal arg))) λ bytes.
        and_then (new_arg_type action index) λ arg_type.
          and_then (wrap_with "Unmarshalling arg" (of_result (unmarshal arg_type bytes)))
            λ value. and_then rest λ values. returns (value ∷ values)

  module _ {S : Type 0} (message : Error → String) where
    -- The action is called with the decoded arguments.
    unfoldable pub dispatch :
        ActionType T
        → (List Value → Exec S (List (Returned Value)))
        → List Json
        → Exec S (Response Value)
    unfolding check_count decode_args new_response
    dispatch action action_func args = do
      counted ← lift (check_count action (length args))
      values ← lift (decode_args action 0 args)
      results ← action_func values
      lift (new_response message results)
