-- ===== src/Exec/Keeps.antt =====
-- Actions that leave a view of the state alone, one rule for each way to build an action.
use kubernetes_cpi.Base.{String, ◌≡◌, refl, ◌∙◌, Bool, true, false, if◌then◌else◌}
use kubernetes_cpi.Exec.{
  Error, Result, ok, err, of_result, wrap_with, Outcome, returns, fails, panics, waits, Call, Exec,
  pure, fail, lift, call, wrapping, ◌>>=◌, ◌>>◌, continue,
}

-- Whatever the action ends with, the view of the state is the one from before.
pub record Keeps {ℓ} {S X : Type 0} {A : Type ℓ} (view : S → X) (m : Exec S A) : Type 0 where
  pub at : (s : S) → view (m s).1 ≡ view s

-- The same of a library's call.
pub record Leaves {ℓ} {S X : Type 0} {A : Type ℓ} (view : S → X) (c : Call S A) : Type 0 where
  pub at : (s : S) → view (c s).1 ≡ view s

module _ {ℓ} {S X : Type 0} {A : Type ℓ} {view : S → X} where
  pub Keeps-pure : (a : A) → Keeps view (pure a)
  unfolding pure
  Keeps-pure a = record { at = λ s. refl }

  pub Keeps-fail : (e : Error) → Keeps {A = A} view (fail e)
  unfolding fail
  Keeps-fail e = record { at = λ s. refl }

  pub Keeps-lift : (o : Outcome A) → Keeps view (lift o)
  unfolding lift
  Keeps-lift o = record { at = λ s. refl }

  pub Keeps-call : (c : Call S A) → Leaves view c → Keeps view (call c)
  unfolding call
  Keeps-call c h = record { at = λ s. h.at s }

  pub Keeps-wrapping :
      (message : String) (m : Exec S A) → Keeps view m → Keeps view (wrapping message m)
  unfolding wrapping
  Keeps-wrapping message m h = record { at = λ s. h.at s }

  pub Keeps-if :
      (b : Bool) (m n : Exec S A) → Keeps view m → Keeps view n → Keeps view (if b then m else n)
  Keeps-if true m n hm hn = hm
  Keeps-if false m n hm hn = hn

module _ {ℓ κ} {S X : Type 0} {A : Type ℓ} {B : Type κ} {view : S → X} where
  returned_at :
      (o : Outcome A) (f : A → Exec S B) (s : S)
      → ((a : A) → o ≡ returns a → Keeps view (f a))
      → view (continue o f s).1 ≡ view s
  returned_at (returns a) f s h = (h a refl).at s
  returned_at (fails e) f s h = refl
  returned_at (panics p) f s h = refl
  returned_at waits f s h = refl

  pub Keeps-bind :
      (m : Exec S A) (f : A → Exec S B)
      → Keeps view m
      → ((a : A) → Keeps view (f a))
      → Keeps view (m >>= f)
  unfolding ◌>>=◌
  Keeps-bind m f h g = record { at = λ s. returned_at (m s).0 f (m s).1 (λ a _. g a) ∙ h.at s }

  pub Keeps-then : (m : Exec S A) (n : Exec S B) → Keeps view m → Keeps view n → Keeps view (m >> n)
  Keeps-then m n h g = Keeps-bind m (λ _. n) h (λ _. g)

  -- The rest, where the step has answered.
  answered_at :
      (message : String) (r : Result A) (f : A → Exec S B) (s : S)
      → ((a : A) → r ≡ ok a → Keeps view (f a))
      → view (continue (wrap_with message (of_result r)) f s).1 ≡ view s
  answered_at message (ok a) f s h = (h a refl).at s
  answered_at message (err e) f s h = refl

  pub Keeps-call-bind :
      (message : String) (c : Call S A) (f : A → Exec S B)
      → Leaves view c
      → ((s : S) (a : A) → (c s).0 ≡ ok a → Keeps view (f a))
      → Keeps view (wrapping message (call c) >>= f)
  unfolding ◌>>=◌
  Keeps-call-bind message c f h g = record {
    at = λ s. answered_at message (c s).0 f (c s).1 (g s) ∙ h.at s;
  }

  pub Keeps-lift-bind :
      (o : Outcome A) (f : A → Exec S B)
      → ((a : A) → o ≡ returns a → Keeps view (f a))
      → Keeps view (lift o >>= f)
  unfolding ◌>>=◌
  Keeps-lift-bind o f h = record { at = λ s. returned_at o f s h }

pub ruleset keeps_rules = (
  Keeps-pure, Keeps-fail, Keeps-lift, Keeps-call, Keeps-wrapping, Keeps-if, Keeps-bind, Keeps-then,
)
