-- ===== src/Exec/Values.antt =====
-- The result of a run as a function of the results of its steps, where the later steps answer the same
-- in every state that the earlier ones can leave.
use kubernetes_cpi.Base.{◌≡◌, refl}
use kubernetes_cpi.Exec.{Outcome, returns, fails, panics, waits, Exec, ◌>>=◌, continue, and_then}

module _ {ℓ κ} {S : Type 0} {A : Type ℓ} {B : Type κ} where
  continue-value :
      (o : Outcome A) (f : A → Exec S B) (g : A → Outcome B) (s : S)
      → ((a : A) → (f a s).0 ≡ g a)
      → (continue o f s).0 ≡ and_then o g
  continue-value (returns a) f g s h = h a
  continue-value (fails e) f g s h = refl
  continue-value (panics p) f g s h = refl
  continue-value waits f g s h = refl

  pub bind-value :
      (m : Exec S A) (f : A → Exec S B) (g : A → Outcome B) (s : S)
      → ((a : A) → (f a (m s).1).0 ≡ g a)
      → ((m >>= f) s).0 ≡ and_then (m s).0 g
  unfolding ◌>>=◌
  bind-value m f g s h = continue-value (m s).0 f g (m s).1 h
