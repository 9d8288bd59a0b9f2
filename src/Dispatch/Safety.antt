-- ===== src/Dispatch/Safety.antt =====
-- The steps of a dispatch around the action do not panic.
use kubernetes_cpi.Base.{ℕ, String, Bool, true, false, List, [], ◌∷◌, ltb, not, ◌&&◌, if◌then◌else◌}
use kubernetes_cpi.Exec.{Error, returns, fails}
use kubernetes_cpi.Exec.Safe.{NoPanic}
use kubernetes_cpi.Dispatch.{
  ActionType, required_arg_count, check_count, Returned, plain, error_value, new_response,
}

module _ {Value : Type 0} (message : Error → String) where
  pub new_response-NoPanic :
      (results : List (Returned Value)) → NoPanic (new_response message results)
  unfolding new_response
  new_response-NoPanic [] = tt
  new_response-NoPanic (plain v ∷ []) = tt
  new_response-NoPanic (error_value e ∷ []) = tt
  new_response-NoPanic (r ∷ plain v ∷ []) = tt
  new_response-NoPanic (r ∷ error_value e ∷ []) = tt
  new_response-NoPanic (r ∷ r' ∷ r'' ∷ rest) = tt

pub check_count-NoPanic :
    {T : Type 0} (action : ActionType T) (n : ℕ) → NoPanic (check_count action n)
unfolding check_count
check_count-NoPanic action n =
    of_tests (ltb n (required_arg_count action))
      (ltb (required_arg_count action) n && not action.variadic) _ _
  where
    of_tests :
        (less more : Bool) (a b : Error)
        → NoPanic {A = Unit {0}} (if less then fails a else if more then fails b else returns tt)
    of_tests true more a b = tt
    of_tests false true a b = tt
    of_tests false false a b = tt
