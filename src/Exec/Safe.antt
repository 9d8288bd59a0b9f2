-- ===== src/Exec/Safe.antt =====
-- Actions that never panic, one rule for each way to build an action.
use kubernetes_cpi.Base.{String, ◌≡◌, refl, Bool, true, false, if◌then◌else◌}
use kubernetes_cpi.Exec.{
  Error, Result, ok, err, Outcome, returns, fails, panics, waits, Call, Exec, pure, fail, lift,
  call, of_result, wrap_with, wrapping, ◌>>=◌, ◌>>◌, continue, and_then,
}

abbrev pub NoPanic {ℓ} : {A : Type ℓ} → Outcome A → Type 0
NoPanic (panics p) = ⊥
NoPanic _ = Unit {0}

pub record Safe {ℓ} {S : Type 0} {A : Type ℓ} (m : Exec S A) : Type 0 where
  pub at : (s : S) → NoPanic (m s).0

of_result-NoPanic {ℓ} : {A : Type ℓ} (r : Result A) → NoPanic (of_result r)
of_result-NoPanic (ok a) = tt
of_result-NoPanic (err e) = tt

wrap_with-NoPanic {ℓ} :
    {A : Type ℓ} (message : String) (o : Outcome A) → NoPanic o → NoPanic (wrap_with message o)
wrap_with-NoPanic message (returns a) h = tt
wrap_with-NoPanic message (fails e) h = tt
wrap_with-NoPanic message (panics p) h = h
wrap_with-NoPanic message waits h = tt

module _ {ℓ} {S : Type 0} {A : Type ℓ} where
  pub Safe-pure : (a : A) → Safe {S = S} (pure a)
  unfolding pure
  Safe-pure a = record { at = λ s. tt }

  pub Safe-lift : (o : Outcome A) → NoPanic o → Safe {S = S} (lift o)
  unfolding lift
  Safe-lift o h = record { at = λ s. h }

  pub Safe-fail : (e : Error) → Safe {S = S} {A = A} (fail e)
  unfolding fail
  Safe-fail e = record { at = λ s. tt }

  pub Safe-lift_result : (r : Result A) → Safe {S = S} (lift (of_result r))
  unfolding lift
  Safe-lift_result r = record { at = λ s. of_result-NoPanic r }

  pub Safe-call : (c : Call S A) → Safe (call c)
  unfolding call
  Safe-call c = record { at = λ s. of_result-NoPanic (c s).0 }

  pub Safe-wrapping : (message : String) (m : Exec S A) → Safe m → Safe (wrapping message m)
  unfolding wrapping
  Safe-wrapping message m h = record { at = λ s. wrap_with-NoPanic message (m s).0 (h.at s) }

  pub Safe-if : (b : Bool) (m n : Exec S A) → Safe m → Safe n → Safe (if b then m else n)
  Safe-if true m n hm hn = hm
  Safe-if false m n hm hn = hn

module _ {ℓ κ} {S : Type 0} {A : Type ℓ} {B : Type κ} where
  continue-NoPanic :
      (o : Outcome A) (f : A → Exec S B) (s : S)
      → NoPanic o
      → ((a : A) → Safe (f a))
      → NoPanic (continue o f s).0
  continue-NoPanic (returns a) f s h g = (g a).at s
  continue-NoPanic (fails e) f s h g = tt
  continue-NoPanic (panics p) f s h g = h
  continue-NoPanic waits f s h g = tt

  pub Safe-bind :
      (m : Exec S A) (f : A → Exec S B) → Safe m → ((a : A) → Safe (f a)) → Safe (m >>= f)
  unfolding ◌>>=◌
  Safe-bind m f h g = record { at = λ s. continue-NoPanic (m s).0 f (m s).1 (h.at s) g }

  pub Safe-then : (m : Exec S A) (n : Exec S B) → Safe m → Safe n → Safe (m >> n)
  Safe-then m n h g = Safe-bind m (λ _. n) h (λ _. g)

module _ {ℓ κ} {S : Type 0} {A : Type ℓ} {B : Type κ} where
  -- The rest may use that the step did not fail.
  pub Safe-bind-lift :
      (message : String) (r : Result A) (f : A → Exec S B)
      → ((a : A) → r ≡ ok a → Safe (f a))
      → Safe (wrapping message (lift (of_result r)) >>= f)
  unfolding ◌>>=◌
  Safe-bind-lift message (ok a) f g = record { at = λ s. (g a refl).at s }
  Safe-bind-lift message (err e) f g = record { at = λ s. tt }

module _ {ℓ κ} {S : Type 0} {A : Type ℓ} {B : Type κ} where
  pub Safe-bind-outcome :
      (o : Outcome A) (f : A → Exec S B)
      → NoPanic o
      → ((a : A) → o ≡ returns a → Safe (f a))
      → Safe (lift o >>= f)
  unfolding ◌>>=◌
  Safe-bind-outcome (returns a) f h g = record { at = λ s. (g a refl).at s }
  Safe-bind-outcome (fails e) f h g = record { at = λ s. tt }
  Safe-bind-outcome (panics p) f h g = absurd h
  Safe-bind-outcome waits f h g = record { at = λ s. tt }

module _ {ℓ κ} {A : Type ℓ} {B : Type κ} where
  pub and_then-NoPanic :
      (o : Outcome A) (f : A → Outcome B)
      → NoPanic o
      → ((a : A) → NoPanic (f a))
      → NoPanic (and_then o f)
  and_then-NoPanic (returns a) f h g = g a
  and_then-NoPanic (fails e) f h g = tt
  and_then-NoPanic (panics p) f h g = h
  and_then-NoPanic waits f h g = tt

  -- A library's result, wrapped, does not panic.
  pub wrapped-NoPanic :
      (message : String) (r : Result A) (f : A → Outcome B)
      → ((a : A) → NoPanic (f a))
      → NoPanic (and_then (wrap_with message (of_result r)) f)
  wrapped-NoPanic message (ok a) f g = g a
  wrapped-NoPanic message (err e) f g = tt

pub ruleset safe_rules = (
  Safe-pure, Safe-fail, Safe-lift_result, Safe-call, Safe-wrapping, Safe-if, Safe-bind, Safe-then,
)
