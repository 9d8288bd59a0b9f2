-- ===== src/Actions/Vms/Missing.antt =====
-- The answers to a deletion that `deletePod` and `deleteConfigMap` take as success.
use kubernetes_cpi.Base.{ℕ, String, ◌≡◌, refl, ◌⊎◌, ◌↔◌, inl, inr}
use kubernetes_cpi.Exec.{
  Result, ok, err, status, not_found, already_exists, other_reason, errorf, wrap, foreign,
}
use kubernetes_cpi.Actions.Vms.{unless_not_found}

-- The object was deleted, or the server has none, with whatever code and message it says so.
abbrev pub DeletedOrMissing : Result (Unit {0}) → Type 0
DeletedOrMissing r =
    (r ≡ ok tt) ⊎ ((code : ℕ) × (message : String) × (r ≡ err (status not_found code message)))

unless_not_found-DeletedOrMissing :
    (r : Result (Unit {0})) → unless_not_found r ≡ ok tt → DeletedOrMissing r
unfolding unless_not_found
unless_not_found-DeletedOrMissing (ok u) h = inl refl
unless_not_found-DeletedOrMissing (err (status not_found code message)) h =
    inr (code, message, refl)
unless_not_found-DeletedOrMissing (err (status already_exists code message)) h = cc
unless_not_found-DeletedOrMissing (err (status (other_reason reason) code message)) h = cc
unless_not_found-DeletedOrMissing (err (errorf format args)) h = cc
unless_not_found-DeletedOrMissing (err (wrap message e)) h = cc
unless_not_found-DeletedOrMissing (err (foreign text)) h = cc

DeletedOrMissing-unless_not_found :
    (r : Result (Unit {0})) → DeletedOrMissing r → unless_not_found r ≡ ok tt
unfolding unless_not_found
DeletedOrMissing-unless_not_found r (inl done) = rw done refl
DeletedOrMissing-unless_not_found r (inr (code, message, missing)) = rw missing refl

pub unless_not_found_iff :
    (r : Result (Unit {0})) → (unless_not_found r ≡ ok tt) ↔ DeletedOrMissing r
unless_not_found_iff r = (unless_not_found-DeletedOrMissing r, DeletedOrMissing-unless_not_found r)
