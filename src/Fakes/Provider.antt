-- ===== src/Fakes/Provider.antt =====
-- kubecluster/fakes/client_provider.go. The calls of one fake are in sequence, so that its locks are
-- left out; a stub has no state of its own.
use kubernetes_cpi.Base.{ℕ, String, Option, none, some, List, [], ◌∷◌, ◌++◌}
use kubernetes_cpi.Exec.{Error, Outcome}
use kubernetes_cpi.Dispatch.{length}
use kubernetes_cpi.Fakes.{Invocations, recorded, at_index}

-- `C` is kubecluster.Client, with nil; a method returns the client and the error.
pub record ClientProvider (C : Type 0) : Type 0 where
  pub new_stub : Option (String → C × Option Error)
  pub new_args_for_call : List String
  pub new_returns : C × Option Error
  pub invocations : Invocations

module _ {C : Type 0} where
  unfoldable pub record_invocation : String → List String → ClientProvider C → ClientProvider C
  unfolding recorded
  record_invocation key args fake = record fake { invocations = recorded key args fake.invocations }

  abbrev pub stubbed :
      Option (String → C × Option Error) → String → C × Option Error → C × Option Error
  stubbed none context otherwise = otherwise
  stubbed (some stub) context otherwise = stub context

  unfoldable pub new : String → ClientProvider C → (C × Option Error) × ClientProvider C
  unfolding record_invocation
  new context fake =
      let called = record fake { new_args_for_call = fake.new_args_for_call ++ (context ∷ []) } in
      let fake' = record_invocation "New" (context ∷ []) called in
      (stubbed fake'.new_stub context fake'.new_returns, fake')

  unfoldable pub new_call_count : ClientProvider C → ℕ
  unfolding length
  new_call_count fake = length fake.new_args_for_call

  unfoldable pub new_args_for_call : ClientProvider C → ℕ → Outcome String
  unfolding at_index
  new_args_for_call fake i = at_index fake.new_args_for_call i

  unfoldable pub new_returns : C → Option Error → ClientProvider C → ClientProvider C
  new_returns result1 result2 fake = record fake {
    new_stub = none;
    new_returns = (result1, result2);
  }
