-- ===== src/Actions/CreateVm/Progress/Secrets.antt =====
-- When `createSecret` succeeds.
use kubernetes_cpi.Base.{
  String, ◌≡◌, refl, ◌↔◌, Bool, true, false, List, [], ◌∷◌, Dict, insert, dict_of, ◌==◌, Bool-cases,
  inl, inr,
}
use kubernetes_cpi.Exec.{Result, ok, err, call}
use kubernetes_cpi.Exec.Returns.{
  Runs, call-step, plain-step, pure-Runs, pure-value, fail-Runs, Runs-called, Runs-bind, Runs-pure,
  Runs-wrapping, of_result-returns, wrapping-Runs,
}
use kubernetes_cpi.Kube.Objects
use kubernetes_cpi.Kube.World.{World, Client}
use kubernetes_cpi.Actions.CreateVm.Props
use kubernetes_cpi.Actions.CreateVm.Secrets.{
  kube_secret, secret_value, read_contents, secret_if_absent, create_one, create_secret,
}

module _ (W : World) where
  -- The value of one entry: the content of the file, or the value itself.
  abbrev pub Valued : Bool → String → W.State → String → W.State → Type 0
  Valued true v s value t = ((W.read_file v s).0 ≡ ok value) × ((W.read_file v s).1 ≡ t)
  Valued false v s value t = (v ≡ value) × (s ≡ t)

  -- The values of the entries in turn, beside those that are there already.
  abbrev pub AllRead : Dict String → Dict String → W.State → Dict String → W.State → Type 0
  AllRead [] contents s result t = (contents ≡ result) × (s ≡ t)
  AllRead ((k, v) ∷ entries) contents s result t =
      (value : String) × (u : W.State) × Valued (k == ".dockercfg") v s value u
      × AllRead entries (insert k value contents) u result t

  secret_value-Valued :
      (k v : String) (s t : W.State) {value : String}
      → Runs (secret_value W k v) s value t ↔ Valued (k == ".dockercfg") v s value t
  unfolding call
  secret_value-Valued k v s t = elim (Bool-cases (k == ".dockercfg")) [
    | inl same ↦ rw same (
      λ h. let (read, end) = wrapping-Runs _ _ _ h in (of_result-returns _ read, end),
      λ (read, end). Runs-wrapping _ _ (rw read refl, end),
    )
    | inr other ↦
        rw other
          (λ h. (pure-value _ _ h, pure-Runs _ _ h), λ (same, end). rw same (Runs-pure _ end))
  ]

  read_contents-AllRead :
      (entries contents : Dict String) (s t : W.State) {result : Dict String}
      → Runs (read_contents W entries contents) s result t ↔ AllRead entries contents s result t
  unfolding read_contents
  read_contents-AllRead [] contents s t =
      (λ h. (pure-value _ _ h, pure-Runs _ _ h), λ (same, end). rw same (Runs-pure _ end))
  read_contents-AllRead ((k, v) ∷ entries) contents s t = (
    λ h. plain-step _ _ _ h λ value read h1. (
      value,
      _,
      (secret_value-Valued k v s _).0 (read, refl),
      (read_contents-AllRead entries (insert k value contents) _ t).0 h1,
    ),
    λ (value, u, one, rest).
        Runs-bind _ _ ((secret_value-Valued k v s u).1 one)
          ((read_contents-AllRead entries (insert k value contents) u t).1 rest),
  )

  module _ (client : Client) (agent_id : String) where
    -- No secret of the name could be read; its values are read, and it is created.
    abbrev pub SecretMade : Props.Secret → Result Objects.Secret → W.State → W.State → Type 0
    SecretMade srt (ok found) s t = ⊥
    SecretMade srt (err e) s t =
        (contents : Dict String) × (u : W.State) × (made : Objects.Secret) × AllRead
          (dict_of srt.contents) [] s contents u
        × (let asked =
              W.secrets.create client (kube_secret client.namespace agent_id srt contents) u in
            (asked.0 ≡ ok made) × (asked.1 ≡ t))

    abbrev pub AllSecret : List Props.Secret → W.State → W.State → Type 0
    AllSecret [] s t = s ≡ t
    AllSecret (srt ∷ secrets) s t =
        let got = W.secrets.get client srt.name s in
        (u : W.State) × SecretMade srt got.0 got.1 u × AllSecret secrets u t

    secret_if_absent-SecretMade :
        (srt : Props.Secret) (r : Result Objects.Secret) (s t : W.State)
        → Runs (secret_if_absent W client client.namespace agent_id srt r) s tt t
          ↔ SecretMade srt r s t
    secret_if_absent-SecretMade srt (ok found) s t = (λ h. fail-Runs _ s h, λ h. absurd h)
    secret_if_absent-SecretMade srt (err e) s t = (
      λ h. plain-step _ _ _ h λ contents read h1. call-step _ _ _ _ h1 λ made asked h2. (
        contents,
        _,
        made,
        (read_contents-AllRead (dict_of srt.contents) [] s _).0 (read, refl),
        (asked, pure-Runs _ _ h2),
      ),
      λ (contents, u, made, read, (asked, end)).
          Runs-bind _ _ ((read_contents-AllRead (dict_of srt.contents) [] s u).1 read)
            (Runs-called _ _ _ asked (Runs-pure _ end)),
    )

    pub create_secret-AllSecret :
        (secrets : List Props.Secret) (s t : W.State)
        → Runs (create_secret W client client.namespace agent_id secrets) s tt t
          ↔ AllSecret secrets s t
    unfolding create_secret create_one
    create_secret-AllSecret [] s t = (pure-Runs _ _, Runs-pure _)
    create_secret-AllSecret (srt ∷ secrets) s t = (
      λ h. plain-step _ _ _ h λ u made h1. (
        _,
        (secret_if_absent-SecretMade srt _ _ _).0 (made, refl),
        (create_secret-AllSecret secrets _ t).0 h1,
      ),
      λ (u, one, rest).
          Runs-bind _ _ ((secret_if_absent-SecretMade srt _ _ u).1 one)
            ((create_secret-AllSecret secrets u t).1 rest),
    )
