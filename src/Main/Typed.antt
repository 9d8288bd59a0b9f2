-- ===== src/Main/Typed.antt =====
-- `cpi.Dispatch` on a function with parameters of known types: reflection is type safe.
use kubernetes_cpi.Base.{ℕ, zero, suc, String, ◌≡◌, refl, ap, ◌∙◌, false, List, [], ◌∷◌, arith}
use kubernetes_cpi.Exec.{
  Error, errorf, Outcome, returns, fails, panics, waits, Result, ok, err, of_result, wrap_with,
  and_then, Exec, lift, ◌>>=◌, continue,
}
use kubernetes_cpi.Dispatch.{
  length, type_in, ActionType, check_count, new_arg_type, decode_args, Returned, new_response,
  Response, dispatch,
}
use kubernetes_cpi.Dispatch.Laws.{check_count_iff}
use kubernetes_cpi.Main.Types.{
  GoType, GoValue, Value, Func, Args, apply, values_of, call_func, call_func-apply,
}

-- The type of a function that is not variadic.
abbrev pub fixed : List GoType → ActionType GoType
fixed types = record { inputs = types; variadic = false }

abbrev pub tagged : (t : GoType) → Result (GoValue t) → Result Value
tagged t (ok v) = ok (t, v)
tagged t (err e) = err e

abbrev after : ℕ → List GoType → List GoType
after zero types = types
after (suc n) [] = []
after (suc n) (t ∷ types) = after n types

type_in-after :
    (inputs : List GoType) (index : ℕ) {t : GoType} {types : List GoType}
    → after index inputs ≡ t ∷ types
    → (type_in inputs index ≡ returns t) × (after (suc index) inputs ≡ types)
unfolding type_in
type_in-after [] zero h = cc
type_in-after [] (suc n) h = cc
type_in-after (u ∷ inputs) zero h = (cc, cc)
type_in-after (u ∷ inputs) (suc n) h = type_in-after inputs n h

continue-eq :
    {S A B : Type 0} (o : Outcome A) (f g : A → Exec S B) (s : S)
    → ((a : A) → o ≡ returns a → f a s ≡ g a s)
    → continue o f s ≡ continue o g s
continue-eq (returns a) f g s h = h a refl
continue-eq (fails e) f g s h = refl
continue-eq (panics p) f g s h = refl
continue-eq waits f g s h = refl

continue-and_then :
    {S A B C : Type 0} (o : Outcome A) (v : A → B) (f : B → Exec S C) (g : A → Exec S C) (s : S)
    → ((a : A) → f (v a) s ≡ g a s)
    → continue (and_then o (λ a. returns (v a))) f s ≡ continue o g s
continue-and_then (returns a) v f g s h = h a
continue-and_then (fails e) v f g s h = refl
continue-and_then (panics p) v f g s h = refl
continue-and_then waits v f g s h = refl

module _ {Json : Type 0} (elem_type : GoType → GoType) (marshal : Json → Result String)
    (unmarshal : (t : GoType) → String → Result (GoValue t)) where
  -- Each argument read at the type of its parameter.
  abbrev pub read_args : (types : List GoType) → List Json → Outcome (Args types)
  read_args [] args = returns tt
  read_args (t ∷ types) [] = fails (errorf "Not enough arguments" [])
  read_args (t ∷ types) (arg ∷ args) =
      and_then (wrap_with "Marshalling arg" (of_result (marshal arg))) λ bytes.
        and_then (wrap_with "Unmarshalling arg" (of_result (unmarshal t bytes)))
          λ value. and_then (read_args types args) λ values. returns (value, values)

  -- json.Unmarshal into a new value of the type.
  abbrev pub unmarshal_new : GoType → String → Result Value
  unmarshal_new t bytes = tagged t (unmarshal t bytes)

  module _ (t : GoType) (types : List GoType) (o : Outcome (Args types)) where
    both_lists :
        (v : GoValue t)
        → and_then
            (and_then o (λ a. returns (values_of types a)))
            (λ values. returns ((t, v) ∷ values))
          ≡ and_then (and_then o (λ a. returns (v, a))) (λ a. returns (values_of (t ∷ types) a))
    both_lists v = by o
      where
        by :
            (o : Outcome (Args types))
            → and_then
                (and_then o (λ a. returns (values_of types a)))
                (λ values. returns ((t, v) ∷ values))
              ≡ and_then (and_then o (λ a. returns (v, a))) (λ a. returns (values_of (t ∷ types) a))
        by (returns a) = refl
        by (fails e) = refl
        by (panics p) = refl
        by waits = refl

    read_step :
        (m : Result String)
        → and_then (wrap_with "Marshalling arg" (of_result m)) (λ bytes.
          and_then (wrap_with "Unmarshalling arg" (of_result (unmarshal_new t bytes))) λ value.
            and_then
              (and_then o (λ a. returns (values_of types a)))
              λ values. returns (value ∷ values))
          ≡ and_then
              (and_then (wrap_with "Marshalling arg" (of_result m)) (λ bytes.
                and_then
                  (wrap_with "Unmarshalling arg" (of_result (unmarshal t bytes)))
                  λ value. and_then o λ values. returns (value, values)))
              (λ a. returns (values_of (t ∷ types) a))
    read_step (err e) = refl
    read_step (ok bytes) = of_value (unmarshal t bytes)
      where
        of_value :
            (r : Result (GoValue t))
            → and_then (wrap_with "Unmarshalling arg" (of_result (tagged t r))) (λ value.
              and_then
                (and_then o (λ a. returns (values_of types a)))
                λ values. returns (value ∷ values))
              ≡ and_then
                  (and_then
                    (wrap_with "Unmarshalling arg" (of_result r))
                    (λ value. and_then o λ values. returns (value, values)))
                  (λ a. returns (values_of (t ∷ types) a))
        of_value (ok v) = both_lists v
        of_value (err e) = refl

  decode_args-read_args :
      (inputs : List GoType) (index : ℕ) (types : List GoType) (args : List Json)
      → after index inputs ≡ types
      → length args ≡ length types
      → decode_args elem_type marshal unmarshal_new (fixed inputs) index args
        ≡ and_then (read_args types args) (λ a. returns (values_of types a))
  unfolding decode_args new_arg_type length
  decode_args-read_args inputs index [] [] h n = refl
  decode_args-read_args inputs index [] (arg ∷ args) h n = absurd (omega (arith, n))
  decode_args-read_args inputs index (t ∷ types) [] h n = absurd (omega (arith, n))
  decode_args-read_args inputs index (t ∷ types) (arg ∷ args) h n =
      let (here, further) = type_in-after inputs index h in
      rw (here, decode_args-read_args inputs (suc index) types args further (omega (arith, n)))
        (read_step t types (read_args types args) (marshal arg))

  module _ {S : Type 0} (message : Error → String) (types : List GoType)
      (f : Func (Exec S (List (Returned Value))) types) where
    -- The function is applied to arguments of its types.
    abbrev pub typed_dispatch : List Json → Exec S (Response Value)
    typed_dispatch args = do
      counted ← lift (check_count (fixed types) (length args))
      typed ← lift (read_args types args)
      results ← apply types f typed
      lift (new_response message results)

    -- Whatever the arguments of a request are, its dispatch to a function of known parameter types
    -- is the count of the arguments, the reading of each at the type of its parameter, and the
    -- function applied to arguments of its types: reflection never meets a value of another type or
    -- an index out of range.
    pub dispatch-typed :
        (args : List Json) (s : S)
        → dispatch elem_type marshal unmarshal_new message (fixed types) (call_func types f) args s
          ≡ typed_dispatch args s
    unfolding dispatch lift ◌>>=◌
    dispatch-typed args s = continue-eq (check_count (fixed types) (length args)) _ _ s λ u counted.
        ap
          (λ o.
            continue o
              (λ values.
                call_func types f values >>= λ results. lift (new_response message results))
              s)
          (decode_args-read_args types 0 types args refl
            ((check_count_iff (fixed types) (length args)).0 counted))
        ∙ continue-and_then (read_args types args) (values_of types) _ _ s λ a.
          ap (λ r. continue r.0 (λ results. lift (new_response message results)) r.1)
            (call_func-apply types f a s)
