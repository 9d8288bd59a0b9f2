-- ===== src/Main/Program/Safety.antt =====
-- The dispatch of a request does not panic on its own.
use kubernetes_cpi.Base.{String, sym, ap, subst, List, [], ◌∷◌}
use kubernetes_cpi.Exec.{Error, Result, Exec}
use kubernetes_cpi.Exec.Safe.{
  NoPanic, Safe, Safe-lift, Safe-bind, Safe-bind-outcome, and_then-NoPanic, wrapped-NoPanic,
}
use kubernetes_cpi.Dispatch.{length, Returned, dispatch}
use kubernetes_cpi.Dispatch.Laws.{check_count_iff}
use kubernetes_cpi.Dispatch.Safety.{check_count-NoPanic, new_response-NoPanic}
use kubernetes_cpi.Main.Types.{GoType, GoValue, Func, Args, apply, call_func}
use kubernetes_cpi.Main.Typed.{fixed, unmarshal_new, read_args, typed_dispatch, dispatch-typed}
use kubernetes_cpi.Main.Program.Reading.{ReadAs, read_args-ReadAs}

module _ {Json : Type 0} (elem_type : GoType → GoType) (marshal : Json → Result String)
    (unmarshal : (t : GoType) → String → Result (GoValue t)) where
  read_args-NoPanic :
      (types : List GoType) (args : List Json)
      → NoPanic (read_args elem_type marshal unmarshal types args)
  read_args-NoPanic [] args = tt
  read_args-NoPanic (t ∷ types) [] = tt
  read_args-NoPanic (t ∷ types) (arg ∷ args) = wrapped-NoPanic _ (marshal arg) _ λ bytes.
      wrapped-NoPanic _ (unmarshal t bytes) _
        λ value. and_then-NoPanic _ _ (read_args-NoPanic types args) λ values. tt

  -- The dispatch of a request to a function of known parameter types does not panic, whatever the
  -- arguments and their number are, if the function does not panic on the values that the arguments
  -- have at the types of the parameters; if there are no such values, it is not called. The panics of
  -- reflection, on an index out of range, a value of another type or another number of values, are
  -- among those that do not happen.
  pub dispatch-NoPanic :
      {S : Type 0} (message : Error → String) (types : List GoType)
      (f : Func (Exec S (List (Returned ((t : GoType) × GoValue t)))) types) (args : List Json)
      (s : S)
      → ((typed : Args types)
          → ReadAs marshal unmarshal types args typed
          → (t : S) → NoPanic (apply types f typed t).0)
      → NoPanic
          (dispatch elem_type marshal
            (unmarshal_new elem_type marshal unmarshal)
            message
            (fixed types)
            (call_func types f)
            args
            s).0
  dispatch-NoPanic {S} message types f args s calm =
      subst NoPanic
        (ap (λ r. r.0) (sym (dispatch-typed elem_type marshal unmarshal message types f args s)))
        (whole.at s)
    where
      whole : Safe (typed_dispatch elem_type marshal unmarshal message types f args)
      whole = Safe-bind-outcome _ _ (check_count-NoPanic (fixed types) (length args)) λ u counted.
          Safe-bind-outcome _ _ (read_args-NoPanic types args) λ typed read.
            Safe-bind _ _
              (record {
                at = calm typed (
                    read_args-ReadAs marshal unmarshal elem_type types args
                      ((check_count_iff (fixed types) (length args)).0 counted) read);
              })
              λ results. Safe-lift _ (new_response-NoPanic message results)
