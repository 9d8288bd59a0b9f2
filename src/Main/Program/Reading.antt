-- ===== src/Main/Program/Reading.antt =====
-- The arguments of a request, read at the types of the parameters.
use kubernetes_cpi.Base.{String, ◌≡◌, subst, arith, List, [], ◌∷◌}
use kubernetes_cpi.Exec.{Error, returns, Result, ok, Exec, lift, ◌>>=◌}
use kubernetes_cpi.Exec.Returns.{
  Runs, lift-step, and_then-returns, wrap_with-returns, of_result-returns,
}
use kubernetes_cpi.Dispatch.{Response, Returned, new_response, length}
use kubernetes_cpi.Dispatch.Laws.{check_count_iff}
use kubernetes_cpi.Main.Typed.{fixed, read_args, typed_dispatch}
use kubernetes_cpi.Main.Types.{GoType, GoValue, Value, Func, Args, apply}

module _ {Json : Type 0} (marshal : Json → Result String)
    (unmarshal : (t : GoType) → String → Result (GoValue t)) where
  -- There is one argument for each type, and each is read at its type.
  abbrev pub ReadAs : (types : List GoType) → List Json → Args types → Type 0
  ReadAs [] [] typed = Unit {0}
  ReadAs [] (arg ∷ args) typed = ⊥
  ReadAs (t ∷ types) [] typed = ⊥
  ReadAs (t ∷ types) (arg ∷ args) (value, typed) =
      ((bytes : String) × (marshal arg ≡ ok bytes) × (unmarshal t bytes ≡ ok value))
      × ReadAs types args typed

  pub read_args-ReadAs :
      (elem_type : GoType → GoType) (types : List GoType) (args : List Json) {typed : Args types}
      → length args ≡ length types
      → read_args elem_type marshal unmarshal types args ≡ returns typed
      → ReadAs types args typed
  unfolding length
  read_args-ReadAs elem_type [] [] n h = tt
  read_args-ReadAs elem_type [] (arg ∷ args) n h = absurd (omega (arith, n))
  read_args-ReadAs elem_type (t ∷ types) [] n h = cc
  read_args-ReadAs elem_type (t ∷ types) (arg ∷ args) n h =
      let (bytes, marshalled, h1) = and_then-returns _ _ h in
      let (value, unmarshalled, h2) = and_then-returns _ _ h1 in
      let (values, read, same) = and_then-returns _ _ h2 in
      subst (ReadAs (t ∷ types) (arg ∷ args)) (answered same) (
        (
          bytes,
          of_result-returns _ (wrap_with-returns _ _ marshalled),
          of_result-returns _ (wrap_with-returns _ _ unmarshalled),
        ),
        read_args-ReadAs elem_type types args (omega (arith, n)) read,
      )
    where
      answered : {A : Type 0} {a b : A} → returns a ≡ returns b → a ≡ b
      answered e = cc

  -- A dispatch with a response has read its arguments, and has run the function on them.
  pub typed_dispatch-Runs :
      {S : Type 0} (elem_type : GoType → GoType) (message : Error → String) (types : List GoType)
      (f : Func (Exec S (List (Returned Value))) types) (args : List Json) (s t : S)
      {response : Response Value}
      → Runs (typed_dispatch elem_type marshal unmarshal message types f args) s response t
      → (typed : Args types) × ReadAs types args typed
        × Runs (apply types f typed >>= λ results. lift (new_response message results)) s response t
  typed_dispatch-Runs elem_type message types f args s t h = lift-step _ _ _ h λ u counted h1.
      lift-step _ _ _ h1 λ typed read h2. (
        typed,
        read_args-ReadAs elem_type types args
            ((check_count_iff (fixed types) (length args)).0 counted) read,
        h2,
      )
