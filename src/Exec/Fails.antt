-- ===== src/Exec/Fails.antt =====
-- What a failed run says of its steps: the first of them failed, or it returned and the rest failed.
use kubernetes_cpi.Base.{String, ◌≡◌, refl, ◌⊎◌, inl, inr}
use kubernetes_cpi.Exec.{
  Error, Result, ok, err, Outcome, returns, fails, Call, Exec, pure, fail, lift, call, of_result,
  wrap_with, wrapping, ◌>>=◌, continue,
}
use kubernetes_cpi.Exec.Returns.{wrap_with-returns, of_result-returns}

module _ {ℓ} {A : Type ℓ} where
  unwrapped :
      (message : String) (o : Outcome A) {e : Error}
      → wrap_with message o ≡ fails e
      → (e' : Error) × (o ≡ fails e')
  unwrapped message (fails e') g = (e', refl)
  unwrapped message _ g = cc

  failed_call : (r : Result A) {e : Error} → of_result r ≡ fails e → (e' : Error) × (r ≡ err e')
  failed_call (ok a) h = cc
  failed_call (err e') h = (e', refl)

module _ {ℓ} {S : Type 0} {A : Type ℓ} where
  -- A step that ran from `s` to `t` and failed.
  abbrev pub Fails : Exec S A → S → S → Type ℓ
  Fails m s t = (e : Error) × ((m s).0 ≡ fails e) × ((m s).1 ≡ t)

  pub not-Fails-pure : (a : A) (s t : S) → Fails (pure a) s t → ⊥
  unfolding pure
  not-Fails-pure a s t (e, h, i) = cc

  pub Fails-fail : (e : Error) (s t : S) → Fails (fail e) s t → s ≡ t
  unfolding fail
  Fails-fail e s t (e', h, i) = i

  pub wrapping-Fails :
      (message : String) (m : Exec S A) (s t : S) → Fails (wrapping message m) s t → Fails m s t
  unfolding wrapping
  wrapping-Fails message m s t (e, h, i) = let (e', g) = unwrapped message (m s).0 h in (e', g, i)

  -- A library's call that answered with an error.
  abbrev pub Refused : Call S A → S → S → Type ℓ
  Refused c s t = (e : Error) × ((c s).0 ≡ err e) × ((c s).1 ≡ t)

  pub Fails-call : (c : Call S A) (s t : S) → Fails (call c) s t → Refused c s t
  unfolding call
  Fails-call c s t (e, h, i) = let (e', g) = failed_call (c s).0 h in (e', g, i)

module _ {ℓ κ} {S : Type 0} {A : Type ℓ} {B : Type κ} where
  continue-Fails :
      (o : Outcome A) (f : A → Exec S B) (s t : S) (e : Error)
      → (continue o f s).0 ≡ fails e
      → (continue o f s).1 ≡ t
      → ((o ≡ fails e) × (s ≡ t)) ⊎ ((a : A) × (o ≡ returns a) × Fails (f a) s t)
  continue-Fails (returns a) f s t e h i = inr (a, refl, (e, h, i))
  continue-Fails (fails e') f s t e h i = inl (cc, i)
  continue-Fails _ f s t e h i = cc

module _ {ℓ κ μ} {S : Type 0} {A : Type ℓ} {B : Type κ} {P : Type μ} where
  -- One rule for each kind of step: the two ways to fail are handed to proofs that go on.
  pub plain-fails :
      (m : Exec S A) (f : A → Exec S B) (s t : S)
      → Fails (m >>= f) s t
      → (Fails m s t → P)
      → ((a : A) → (m s).0 ≡ returns a → Fails (f a) (m s).1 t → P)
      → P
  unfolding ◌>>=◌
  plain-fails m f s t (e, h, i) stop go = elim (continue-Fails (m s).0 f (m s).1 t e h i) [
    | inl (g, j) ↦ stop (e, g, j)
    | inr (a, g, j) ↦ go a g j
  ]

  pub wrapped-fails :
      (message : String) (m : Exec S A) (f : A → Exec S B) (s t : S)
      → Fails (wrapping message m >>= f) s t
      → (Fails m s t → P)
      → ((a : A) → (m s).0 ≡ returns a → Fails (f a) (m s).1 t → P)
      → P
  unfolding wrapping
  wrapped-fails message m f s t h stop go =
      plain-fails (wrapping message m) f s t h (λ g. stop (wrapping-Fails message m s t g))
        (λ a g j. go a (wrap_with-returns message (m s).0 g) j)

  pub call-fails :
      (message : String) (c : Call S A) (f : A → Exec S B) (s t : S)
      → Fails (wrapping message (call c) >>= f) s t
      → (Refused c s t → P)
      → ((a : A) → (c s).0 ≡ ok a → Fails (f a) (c s).1 t → P)
      → P
  unfolding call
  call-fails message c f s t h stop go =
      wrapped-fails message (call c) f s t h (λ g. stop (Fails-call c s t g))
        (λ a g j. go a (of_result-returns (c s).0 g) j)

  -- A step that only computes leaves the state.
  pub lift-fails :
      (o : Outcome A) (f : A → Exec S B) (s t : S)
      → Fails (lift o >>= f) s t
      → (s ≡ t → P)
      → ((a : A) → o ≡ returns a → Fails (f a) s t → P)
      → P
  unfolding lift
  lift-fails o f s t h stop go = plain-fails (lift o) f s t h (λ (e, g, i). stop i) go

  pub result-fails :
      (message : String) (r : Result A) (f : A → Exec S B) (s t : S)
      → Fails (wrapping message (lift (of_result r)) >>= f) s t
      → (s ≡ t → P)
      → ((a : A) → r ≡ ok a → Fails (f a) s t → P)
      → P
  unfolding lift
  result-fails message r f s t h stop go =
      wrapped-fails message (lift (of_result r)) f s t h (λ (e, g, i). stop i)
        (λ a g j. go a (of_result-returns r g) j)
