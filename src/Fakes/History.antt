-- ===== src/Fakes/History.antt =====
-- What the fake provider says of the calls that were made.
use mathlib.Core.List.{append_assoc, append-nil}
use kubernetes_cpi.Base.{
  ℕ, zero, suc, refl, String, ◌≡◌, ap, sym, ◌∙◌, Option, none, some, List, [], ◌∷◌, ◌++◌, map,
  lookup, lookup-insert, eq_refl, dict_of, if◌then◌else◌,
}
use kubernetes_cpi.Exec.{Error, Outcome, returns, panics}
use kubernetes_cpi.Dispatch.{length}
use kubernetes_cpi.Fakes.{Invocations, list_of, calls_to, recorded, at_index}
use kubernetes_cpi.Fakes.Provider.{
  ClientProvider, record_invocation, new, new_call_count, new_args_for_call, new_returns,
}

-- What a test does with the fake.
pub data Use (C : Type 0) : Type 0 where
  newing : String → Use C
  returning : C → Option Error → Use C

calls_to-recorded :
    (key : String) (args : List String) (invocations : Invocations)
    → calls_to key (recorded key args invocations) ≡ calls_to key invocations ++ (args ∷ [])
unfolding recorded
calls_to-recorded key args invocations =
    let calls = calls_to key invocations ++ (args ∷ []) in
    ap list_of (lookup-insert key key calls (dict_of invocations))
    ∙ ap (λ b. list_of (if b then some calls else lookup key (dict_of invocations))) (eq_refl key)

-- The element at an index, if there is one.
abbrev pub element_at : List String → ℕ → Option String
element_at [] i = none
element_at (x ∷ xs) zero = some x
element_at (x ∷ xs) (suc i) = element_at xs i

-- The text, or the panic of Go on an index out of range.
abbrev pub or_out_of_range : Option String → Outcome String
or_out_of_range none = panics "runtime error: index out of range"
or_out_of_range (some text) = returns text

at_index-element_at : (l : List String) (i : ℕ) → at_index l i ≡ or_out_of_range (element_at l i)
unfolding at_index
at_index-element_at [] i = refl
at_index-element_at (x ∷ xs) zero = refl
at_index-element_at (x ∷ xs) (suc i) = at_index-element_at xs i

abbrev pub alone : String → List String
alone context = context ∷ []

module _ {C : Type 0} where
  abbrev pub after : List (Use C) → ClientProvider C → ClientProvider C
  after [] fake = fake
  after (newing context ∷ uses) fake = after uses (new context fake).1
  after (returning client error ∷ uses) fake = after uses (new_returns client error fake)

  -- The contexts of the calls of `New`, in order.
  abbrev pub contexts : List (Use C) → List String
  contexts [] = []
  contexts (newing context ∷ uses) = context ∷ contexts uses
  contexts (returning client error ∷ uses) = contexts uses

  after-args :
      (uses : List (Use C)) (fake : ClientProvider C)
      → (after uses fake).new_args_for_call ≡ fake.new_args_for_call ++ contexts uses
  unfolding new record_invocation new_returns
  after-args [] fake = sym (append-nil fake.new_args_for_call)
  after-args (newing context ∷ uses) fake =
      after-args uses (new context fake).1
      ∙ append_assoc fake.new_args_for_call (context ∷ []) (contexts uses)
  after-args (returning client error ∷ uses) fake = after-args uses (new_returns client error fake)

  after-calls_to :
      (uses : List (Use C)) (fake : ClientProvider C)
      → calls_to "New" (after uses fake).invocations
        ≡ calls_to "New" fake.invocations ++ map alone (contexts uses)
  unfolding new record_invocation new_returns
  after-calls_to [] fake = sym (append-nil (calls_to "New" fake.invocations))
  after-calls_to (newing context ∷ uses) fake =
      after-calls_to uses (new context fake).1
      ∙ ap (λ l. l ++ map alone (contexts uses))
          (calls_to-recorded "New" (alone context) fake.invocations)
      ∙ append_assoc (calls_to "New" fake.invocations) (alone context ∷ [])
          (map alone (contexts uses))
  after-calls_to (returning client error ∷ uses) fake =
      after-calls_to uses (new_returns client error fake)

  -- After any calls of `New` and `NewReturns` on a fake without calls, `NewCallCount` is the number of
  -- those of `New`; `NewArgsForCall` gives their contexts by index, and panics beyond; and
  -- `Invocations` lists them under "New", in the same order.
  pub after_lem :
      (uses : List (Use C)) (fake : ClientProvider C)
      → fake.new_args_for_call ≡ []
      → fake.invocations ≡ none
      → (new_call_count (after uses fake) ≡ length (contexts uses))
        × ((i : ℕ)
            → new_args_for_call (after uses fake) i
              ≡ or_out_of_range (element_at (contexts uses) i))
        × (calls_to "New" (after uses fake).invocations ≡ map alone (contexts uses))
  unfolding new_call_count new_args_for_call lookup
  after_lem uses fake no_calls nothing =
      let args : (after uses fake).new_args_for_call ≡ contexts uses =
        after-args uses fake ∙ ap (λ l. l ++ contexts uses) no_calls in
      (
        ap length args,
        λ i. ap (λ l. at_index l i) args ∙ at_index-element_at (contexts uses) i,
        after-calls_to uses fake ∙ ap (λ m. calls_to "New" m ++ map alone (contexts uses)) nothing,
      )
