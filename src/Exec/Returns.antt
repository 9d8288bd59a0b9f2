-- ===== src/Exec/Returns.antt =====
-- What a successful run says of its steps.
use kubernetes_cpi.Base.{String, ◌≡◌, refl, ap, ◌∙◌}
use kubernetes_cpi.Exec.{
  Error, Result, ok, err, Outcome, returns, fails, panics, waits, Call, Exec, pure, fail, lift,
  call, of_result, wrap_with, wrapping, ◌>>=◌, continue, and_then,
}

module _ {ℓ} {A : Type ℓ} where
  pub of_result-returns : (r : Result A) {a : A} → of_result r ≡ returns a → r ≡ ok a
  of_result-returns (ok b) h = cc
  of_result-returns (err e) h = cc

  pub wrap_with-returns :
      (message : String) (o : Outcome A) {a : A} → wrap_with message o ≡ returns a → o ≡ returns a
  wrap_with-returns message (returns b) h = h
  wrap_with-returns message (fails e) h = cc
  wrap_with-returns message (panics p) h = cc
  wrap_with-returns message waits h = cc

module _ {ℓ} {S : Type 0} {A : Type ℓ} where
  -- A step that ran from `s` to `t` and returned `a`.
  abbrev pub Runs : Exec S A → S → A → S → Type ℓ
  Runs m s a t = ((m s).0 ≡ returns a) × ((m s).1 ≡ t)

  pub wrapping-Runs :
      (message : String) (m : Exec S A) (s : S) {a : A} {t : S}
      → Runs (wrapping message m) s a t
      → Runs m s a t
  unfolding wrapping
  wrapping-Runs message m s (r, e) = (wrap_with-returns message _ r, e)

  pub fail-Runs : (e : Error) (s : S) {a : A} {t : S} → Runs (fail e) s a t → ⊥
  unfolding fail
  fail-Runs e s (r, h) = cc

  pub pure-value : (a : A) (s : S) {b : A} {t : S} → Runs (pure a) s b t → a ≡ b
  unfolding pure
  pure-value a s (r, h) = cc

  pub pure-Runs : (a : A) (s : S) {b : A} {t : S} → Runs (pure a) s b t → s ≡ t
  unfolding pure
  pure-Runs a s h = h.1

module _ {ℓ κ} {S : Type 0} {A : Type ℓ} {B : Type κ} where
  continue-Runs :
      (o : Outcome A) (f : A → Exec S B) (s : S) {b : B} {t : S}
      → ((continue o f s).0 ≡ returns b) × ((continue o f s).1 ≡ t)
      → (a : A) × (o ≡ returns a) × Runs (f a) s b t
  continue-Runs (returns a) f s h = (a, refl, h)
  continue-Runs (fails e) f s (r, h) = cc
  continue-Runs (panics p) f s (r, h) = cc
  continue-Runs waits f s (r, h) = cc

module _ {ℓ κ μ} {S : Type 0} {A : Type ℓ} {B : Type κ} {P : Type μ} where
  -- A successful block is a successful first step and a successful rest from where that ended. One
  -- rule for each kind of step hands the parts to the proof that goes on.
  pub call-step :
      (message : String) (c : Call S A) (f : A → Exec S B) (s : S) {b : B} {t : S}
      → Runs (wrapping message (call c) >>= f) s b t
      → ((a : A) → (c s).0 ≡ ok a → Runs (f a) (c s).1 b t → P)
      → P
  unfolding ◌>>=◌
  call-step message c f s h k =
      let (a, e, r) = continue-Runs (wrap_with message (of_result (c s).0)) f (c s).1 h in
      k a (of_result-returns _ (wrap_with-returns message _ e)) r

  pub result-step :
      (message : String) (o : Result A) (f : A → Exec S B) (s : S) {b : B} {t : S}
      → Runs (wrapping message (lift (of_result o)) >>= f) s b t
      → ((a : A) → o ≡ ok a → Runs (f a) s b t → P)
      → P
  unfolding ◌>>=◌
  result-step message o f s h k =
      let (a, e, r) = continue-Runs (wrap_with message (of_result o)) f s h in
      k a (of_result-returns _ (wrap_with-returns message _ e)) r

  pub lift-step :
      (o : Outcome A) (f : A → Exec S B) (s : S) {b : B} {t : S}
      → Runs (lift o >>= f) s b t
      → ((a : A) → o ≡ returns a → Runs (f a) s b t → P)
      → P
  unfolding ◌>>=◌
  lift-step o f s h k = let (a, e, r) = continue-Runs o f s h in k a e r

  pub wrapped-step :
      (message : String) (m : Exec S A) (f : A → Exec S B) (s : S) {b : B} {t : S}
      → Runs (wrapping message m >>= f) s b t
      → ((a : A) → (m s).0 ≡ returns a → Runs (f a) (m s).1 b t → P)
      → P
  unfolding ◌>>=◌
  wrapped-step message m f s h k =
      let (a, e, r) = continue-Runs (wrap_with message (m s).0) f (m s).1 h in
      k a (wrap_with-returns message _ e) r

  pub plain-step :
      (m : Exec S A) (f : A → Exec S B) (s : S) {b : B} {t : S}
      → Runs (m >>= f) s b t
      → ((a : A) → (m s).0 ≡ returns a → Runs (f a) (m s).1 b t → P)
      → P
  unfolding ◌>>=◌
  plain-step m f s h k = let (a, e, r) = continue-Runs (m s).0 f (m s).1 h in k a e r

module _ {ℓ κ} {A : Type ℓ} {B : Type κ} where
  pub and_then-returns :
      (o : Outcome A) (f : A → Outcome B) {b : B}
      → and_then o f ≡ returns b
      → (a : A) × (o ≡ returns a) × (f a ≡ returns b)
  and_then-returns (returns a) f h = (a, refl, h)
  and_then-returns (fails e) f h = cc
  and_then-returns (panics p) f h = cc
  and_then-returns waits f h = cc

-- The other way round: successful steps make a successful block.
module _ {ℓ} {S : Type 0} {A : Type ℓ} where
  pub Runs-call : (c : Call S A) (s : S) {a : A} → (c s).0 ≡ ok a → Runs (call c) s a (c s).1
  unfolding call
  Runs-call c s h = (rw h, refl)

  pub Runs-lift : (o : Outcome A) (s : S) {a : A} → o ≡ returns a → Runs (lift o) s a s
  unfolding lift
  Runs-lift o s h = (h, refl)

  pub Runs-pure : (a : A) {s t : S} → s ≡ t → Runs (pure a) s a t
  unfolding pure
  Runs-pure a h = (refl, h)

  pub Runs-wrapping :
      (message : String) (m : Exec S A) {s : S} {a : A} {t : S}
      → Runs m s a t
      → Runs (wrapping message m) s a t
  unfolding wrapping
  Runs-wrapping message m (r, h) = (rw r, h)

module _ {ℓ κ} {S : Type 0} {A : Type ℓ} {B : Type κ} where
  -- After a successful step, a block goes on with the rest.
  pub bind-Runs :
      (m : Exec S A) (f : A → Exec S B) {s u : S} {a : A} → Runs m s a u → (m >>= f) s ≡ f a u
  unfolding ◌>>=◌
  bind-Runs m f (r, e) = rw (r, e) refl

  pub wrapped-Runs :
      (message : String) (m : Exec S A) (f : A → Exec S B) {s u : S} {a : A}
      → Runs m s a u
      → (wrapping message m >>= f) s ≡ f a u
  wrapped-Runs message m f h = bind-Runs (wrapping message m) f (Runs-wrapping message m h)

  pub Runs-bind :
      (m : Exec S A) (f : A → Exec S B) {s u t : S} {a : A} {b : B}
      → Runs m s a u
      → Runs (f a) u b t
      → Runs (m >>= f) s b t
  Runs-bind m f h g =
      let same = bind-Runs m f h in (ap (λ r. r.0) same ∙ g.0, ap (λ r. r.1) same ∙ g.1)

  pub Runs-wrapped :
      (message : String) (m : Exec S A) (f : A → Exec S B) {s u t : S} {a : A} {b : B}
      → Runs m s a u
      → Runs (f a) u b t
      → Runs (wrapping message m >>= f) s b t
  Runs-wrapped message m f h g = Runs-bind _ f (Runs-wrapping message m h) g

  pub Runs-called :
      (message : String) (c : Call S A) (f : A → Exec S B) {s t : S} {a : A} {b : B}
      → (c s).0 ≡ ok a
      → Runs (f a) (c s).1 b t
      → Runs (wrapping message (call c) >>= f) s b t
  Runs-called message c f h g = Runs-wrapped message _ f (Runs-call c _ h) g

  pub Runs-result :
      (message : String) (o : Result A) (f : A → Exec S B) {s t : S} {a : A} {b : B}
      → o ≡ ok a
      → Runs (f a) s b t
      → Runs (wrapping message (lift (of_result o)) >>= f) s b t
  Runs-result message o f {s} h g = Runs-wrapped message _ f (Runs-lift _ s (rw h)) g
