-- ===== src/Config/Laws.antt =====
-- What the configuration of the vendored client holds, and which context a client is for.
use kubernetes_cpi.Base.{
  String, ◌≡◌, refl, sym, ap, ◌∙◌, Option, none, some, [], ◌∷◌, Dict, lookup, insert, lookup-insert,
  ◌==◌, ◌↔◌, eq_iff, if◌then◌else◌, Bool-cases, inl, inr,
}
use kubernetes_cpi.Exec.{returns, Result, ok, err, ok_then, wrap_result}
use kubernetes_cpi.Exec.Returns.{and_then-returns}
use kubernetes_cpi.Kube.Objects.{Foreign}
use kubernetes_cpi.Kube.World.{Client}
use kubernetes_cpi.Config.{
  Kubernetes, ApiConfig, cluster_api, auth_info_api, context_api, copy_into, client_config,
  default_context, new_client,
}

module _ {V A : Type 0} (api : V → A) where
  -- The converted entry, if there is one that is not nil.
  abbrev pub converted : Option (Option V) → Option A
  converted none = none
  converted (some none) = none
  converted (some (some v)) = some (api v)

  -- A map has each key once.
  abbrev pub Unique : Dict (Option V) → Type 0
  Unique [] = Unit {0}
  Unique ((k, v) ∷ m) = (lookup k m ≡ none) × Unique m

  abbrev over : Option A → Option A → Option A
  over none old = old
  over (some a) old = some a

  copy_into-lookup :
      (from : Dict (Option V)) (to to' : Dict A) (j : String)
      → Unique from
      → copy_into api from to ≡ returns to'
      → lookup j to' ≡ over (converted (lookup j from)) (lookup j to)
  unfolding copy_into lookup
  copy_into-lookup [] to to' j u h = ap (lookup j) (returned h)
    where
      returned : {a b : Dict A} → returns a ≡ returns b → b ≡ a
      returned e = cc
  copy_into-lookup ((k, none) ∷ from) to to' j u h = cc
  copy_into-lookup ((k, some v) ∷ from) to to' j (absent, u) h =
      copy_into-lookup from (insert k (api v) to) to' j u h
      ∙ ap (over (converted (lookup j from))) (lookup-insert k j (api v) to)
      ∙ elim (Bool-cases (k == j)) [
        | inl same ↦ rw same (
            ap (λ o. over (converted o) (some (api v)))
              (ap (λ i. lookup i from) (sym ((eq_iff k j).0 same)) ∙ absent))
        | inr other ↦ rw other refl
      ]

  over-none : (o : Option A) → over o none ≡ o
  over-none none = refl
  over-none (some a) = refl

  copy_into-empty :
      (from : Dict (Option V)) (to : Dict A) (j : String)
      → Unique from
      → copy_into api from [] ≡ returns to
      → lookup j to ≡ converted (lookup j from)
  unfolding lookup
  copy_into-empty from to j u h = copy_into-lookup from [] to j u h ∙ over-none _

-- The configuration of the client has exactly the clusters, users and contexts of the file, each
-- converted under its own name, and the file's current context.
pub client_config-lookup :
    (k : Kubernetes) (config : ApiConfig) (j : String)
    → Unique cluster_api k.clusters
    → Unique auth_info_api k.auth_infos
    → Unique context_api k.contexts
    → client_config k ≡ returns config
    → (lookup j config.clusters ≡ converted cluster_api (lookup j k.clusters))
      × (lookup j config.auth_infos ≡ converted auth_info_api (lookup j k.auth_infos))
      × (lookup j config.contexts ≡ converted context_api (lookup j k.contexts))
      × (config.current_context ≡ k.current_context)
unfolding client_config
client_config-lookup k config j uc ua ux h =
    let (clusters, c, h1) = and_then-returns _ _ h in
    let (auth_infos, a, h2) = and_then-returns _ _ h1 in
    let (contexts, x, h3) = and_then-returns _ _ h2 in
    let made : record {
      clusters = clusters;
      auth_infos = auth_infos;
      contexts = contexts;
      current_context = k.current_context;
    }
        ≡ config =
      cc in
    (
      ap (λ (m : ApiConfig). lookup j m.clusters) (sym made) ∙ copy_into-empty _ _ clusters j uc c,
      ap (λ (m : ApiConfig). lookup j m.auth_infos) (sym made)
          ∙ copy_into-empty _ _ auth_infos j ua a,
      ap (λ (m : ApiConfig). lookup j m.contexts) (sym made) ∙ copy_into-empty _ _ contexts j ux x,
      ap (λ (m : ApiConfig). m.current_context) (sym made),
    )

answered : {A : Type 0} {a b : A} → ok a ≡ ok b → a ≡ b
answered h = cc

-- What a client is made of: all three steps of the vendored client have answered.
abbrev pub MadeOf :
    String → Result Foreign → (Foreign → Result Foreign) → Result String → Client → Type 0
MadeOf context configured made named client =
    (client.context ≡ context)
    × (rest : Foreign) × (configured ≡ ok rest)
    × (made rest ≡ ok client.clientset)
    × (named ≡ ok client.namespace)

module _ (context first second third : String) where
  abbrev client_of : Result Foreign → (Foreign → Result Foreign) → Result String → Result Client
  client_of configured made named = ok_then (wrap_result first configured) λ rest.
      ok_then (wrap_result second (made rest)) λ clientset.
        ok_then (wrap_result third named)
          λ ns. ok (record { context = context; namespace = ns; clientset = clientset })

  last_steps :
      {client : Client} (rest : Foreign) (made : Foreign → Result Foreign) (b : Result Foreign)
      (named : Result String)
      → made rest ≡ b
      → (ok_then (wrap_result second b) λ clientset.
          ok_then
            (wrap_result third named)
            λ ns. ok (record { context = context; namespace = ns; clientset = clientset }))
        ≡ ok client
      → MadeOf context (ok rest) made named client
  last_steps rest made (ok clientset) (ok ns) m h =
      let same = answered h in
      (
        ap (λ (c : Client). c.context) (sym same),
        rest,
        refl,
        m ∙ ap (λ (c : Client). ok c.clientset) same,
        ap (λ (c : Client). ok c.namespace) same,
      )
  last_steps rest made (ok clientset) (err e) m h = cc
  last_steps rest made (err e) named m h = cc

  client_of-made :
      {client : Client} (configured : Result Foreign) (made : Foreign → Result Foreign)
      (named : Result String)
      → client_of configured made named ≡ ok client
      → MadeOf context configured made named client
  client_of-made (ok rest) made named h = last_steps rest made (made rest) named refl h
  client_of-made (err e) made named h = cc

  made-client_of :
      {client : Client} (configured : Result Foreign) (made : Foreign → Result Foreign)
      (named : Result String)
      → MadeOf context configured made named client
      → client_of configured made named ≡ ok client
  made-client_of {client} configured made named (here, rest, c, m, n) =
      rw (c, m, n)
        (ap
          (λ x.
            ok (record { context = x; namespace = client.namespace; clientset = client.clientset }))
          (sym here))

-- A client is made exactly if there is a REST configuration for the context that was asked for, or
-- for the current one if that is the default, a clientset of it, and a namespace for the context;
-- and the client is of this context, this clientset and this namespace.
pub new_client_iff :
    (rest_config : ApiConfig → String → Result Foreign) (new_for_config : Foreign → Result Foreign)
    (namespace_of : ApiConfig → String → Result String) (config : ApiConfig) (asked : String)
    (client : Client)
    → (new_client rest_config new_for_config namespace_of config asked ≡ ok client) ↔ (
        let context = if asked == default_context then config.current_context else asked in
        MadeOf context
          (rest_config config context)
          new_for_config
          (namespace_of config context)
          client)
unfolding new_client
new_client_iff rest_config new_for_config namespace_of config asked client =
    (client_of-made _ _ _ _ _ new_for_config _, made-client_of _ _ _ _ _ new_for_config _)
