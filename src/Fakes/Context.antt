-- ===== src/Fakes/Context.antt =====
-- kubecluster/fakes/client_context.go. The calls of one fake are in sequence, so that its locks are
-- left out; a stub has no state of its own.
use kubernetes_cpi.Base.{ℕ, ◌+◌, String, Option, none, some, List, []}
use kubernetes_cpi.Fakes.{Invocations, recorded}

-- A list of empty structs is its length; a stub takes nothing.
pub record ClientContext : Type 0 where
  pub context_stub : Option String
  pub context_args_for_call : ℕ
  pub context_returns : String
  pub namespace_stub : Option String
  pub namespace_args_for_call : ℕ
  pub namespace_returns : String
  pub invocations : Invocations

unfoldable pub record_invocation : String → List String → ClientContext → ClientContext
unfolding recorded
record_invocation key args fake = record fake { invocations = recorded key args fake.invocations }

abbrev pub stubbed : Option String → String → String
stubbed none otherwise = otherwise
stubbed (some text) otherwise = text

unfoldable pub context : ClientContext → String × ClientContext
unfolding record_invocation
context fake =
    let called = record fake { context_args_for_call = fake.context_args_for_call + 1 } in
    let fake' = record_invocation "Context" [] called in
    (stubbed fake'.context_stub fake'.context_returns, fake')

unfoldable pub context_call_count : ClientContext → ℕ
context_call_count fake = fake.context_args_for_call

unfoldable pub context_returns : String → ClientContext → ClientContext
context_returns result1 fake = record fake { context_stub = none; context_returns = result1 }

unfoldable pub namespace : ClientContext → String × ClientContext
unfolding record_invocation
namespace fake =
    let called = record fake { namespace_args_for_call = fake.namespace_args_for_call + 1 } in
    let fake' = record_invocation "Namespace" [] called in
    (stubbed fake'.namespace_stub fake'.namespace_returns, fake')

unfoldable pub namespace_call_count : ClientContext → ℕ
namespace_call_count fake = fake.namespace_args_for_call

unfoldable pub namespace_returns : String → ClientContext → ClientContext
namespace_returns result1 fake = record fake { namespace_stub = none; namespace_returns = result1 }
