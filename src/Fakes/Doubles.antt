-- ===== src/Fakes/Doubles.antt =====
-- The fake client stands for the real one.
use kubernetes_cpi.Base.{◌+◌, ◌≡◌, refl}
use kubernetes_cpi.Kube.Objects.{Foreign}
use kubernetes_cpi.Kube.World
use kubernetes_cpi.Kube.Client.{Calls, Clientset, core, extensions}
use kubernetes_cpi.Kube.Client as Real
use kubernetes_cpi.Fakes.Context.{namespace, stubbed, namespace_call_count}
use kubernetes_cpi.Fakes.Client.{
  Client, config_maps, services, persistent_volume_claims, persistent_volumes, pods, deployments,
  ingress_service,
}

module _ {S Action : Type 0} (clientset : Foreign → Clientset S) (real : World.Client) where
  -- The fake has the clientset of the client, and answers its namespace.
  abbrev pub IsDouble : Client S Action → Type 0
  IsDouble fake =
      (fake.clientset ≡ clientset real.clientset)
      × (stubbed fake.client_context.namespace_stub fake.client_context.namespace_returns
          ≡ real.namespace)

  -- The interface is the real one; the fake is still a double, and has counted one more call of its
  -- namespace.
  abbrev pub Matches :
      {Obj : Type 0} → Client S Action → Calls S Obj × Client S Action → Calls S Obj → Type 0
  Matches fake answer calls =
      (answer.0 ≡ calls)
      × IsDouble answer.1
      × (namespace_call_count answer.1.client_context
          ≡ namespace_call_count fake.client_context + 1)

  -- Each accessor of a double gives the interface that the client's accessor of the same name
  -- gives, and leaves a double; all but that of the persistent volumes, which leaves the fake as it
  -- is, count one more call of the namespace.
  pub double-Matches :
      (fake : Client S Action)
      → IsDouble fake
      → Matches fake (config_maps fake) (Real.config_maps clientset real)
        × Matches fake (services fake) (Real.services clientset real)
        × Matches fake
            (persistent_volume_claims fake)
            (Real.persistent_volume_claims clientset real)
        × Matches fake (pods fake) (Real.pods clientset real)
        × Matches fake (deployments fake) (Real.deployments clientset real)
        × Matches fake (ingress_service fake) (Real.ingress_service clientset real)
        × (persistent_volumes fake ≡ (Real.persistent_volumes clientset real, fake))
  unfolding config_maps services persistent_volume_claims pods deployments ingress_service
      persistent_volumes namespace namespace_call_count core extensions Real.config_maps
      Real.services Real.persistent_volume_claims Real.pods Real.deployments Real.ingress_service
      Real.persistent_volumes
  double-Matches fake (same, named) = (
    (rw (same, named) refl, (same, named), refl),
    (rw (same, named) refl, (same, named), refl),
    (rw (same, named) refl, (same, named), refl),
    (rw (same, named) refl, (same, named), refl),
    (rw (same, named) refl, (same, named), refl),
    (rw (same, named) refl, (same, named), refl),
    rw same refl,
  )
