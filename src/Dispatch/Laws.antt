-- ===== src/Dispatch/Laws.antt =====
-- What the checks of a request's arguments are good for.
use kubernetes_cpi.Base.{
  ℕ, ◌-◌, ◌≤◌, ◌≡◌, ◌↔◌, Bool, true, false, ltb, if◌then◌else◌, arith, not, ◌&&◌,
}
use kubernetes_cpi.Exec.{Error, Outcome, returns, fails}
use kubernetes_cpi.Dispatch.{length, ActionType, required_arg_count, check_count}

-- So many arguments fit so many parameters: of a variadic action, the last takes any number.
abbrev pub Fits : Bool → ℕ → ℕ → Type 0
Fits true params n = params - 1 ≤ n
Fits false params n = n ≡ params

abbrev done : Outcome (Unit {0})
done = returns tt

count-Fits :
    (variadic : Bool) (params n : ℕ) (a b : Error)
    → ((if ltb n (if variadic then params - 1 else params)
          then fails a
          else if ltb (if variadic then params - 1 else params) n && not variadic
          then fails b
          else returns tt)
        ≡ done)
      ↔ Fits variadic params n
count-Fits true params n a b = ground arith
count-Fits false params n a b = ground arith

-- The number of arguments is accepted exactly if it is the number of parameters, or, for a variadic
-- action, at least the number of parameters before the last.
pub check_count_iff :
    {T : Type 0} (action : ActionType T) (n : ℕ)
    → (check_count action n ≡ returns tt) ↔ Fits action.variadic (length action.inputs) n
unfolding check_count required_arg_count
check_count_iff action n = count-Fits action.variadic (length action.inputs) n _ _
