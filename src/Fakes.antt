-- ===== src/Fakes.antt =====
-- kubecluster/fakes: the doubles of the client and of its provider that the tests of the actions use.
pub mod Provider
pub mod Context
pub mod Client
pub mod Doubles
pub mod History
use kubernetes_cpi.Base.{
  ℕ, zero, suc, String, Option, none, some, List, [], ◌∷◌, ◌++◌, Dict, lookup, insert, dict_of,
}
use kubernetes_cpi.Exec.{Outcome, returns, panics}

-- The calls by the name of the method, each with its arguments, all of which are texts here.
abbrev pub Invocations : Type 0
Invocations = Option (Dict (List (List String)))

-- A missing list is the empty one.
abbrev pub list_of : Option (List (List String)) → List (List String)
list_of none = []
list_of (some calls) = calls

abbrev pub calls_to : String → Invocations → List (List String)
calls_to key invocations = list_of (lookup key (dict_of invocations))

-- What `recordInvocation` makes of the map.
unfoldable pub recorded : String → List String → Invocations → Invocations
recorded key args invocations =
    some (insert key (calls_to key invocations ++ (args ∷ [])) (dict_of invocations))

-- list[i]
unfoldable pub at_index {ℓ} : {A : Type ℓ} → List A → ℕ → Outcome A
at_index [] i = panics "runtime error: index out of range"
at_index (x ∷ xs) zero = returns x
at_index (x ∷ xs) (suc i) = at_index xs i
