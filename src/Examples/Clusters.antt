-- ===== src/Examples/Clusters.antt =====
-- Clusters in memory as the clientsets of a program's clients: one, or two side by side.
use kubernetes_cpi.Base.{String, [], ◌≡◌, ◌==◌, if◌then◌else◌}
use kubernetes_cpi.Exec.{Call, ok, err, foreign}
use kubernetes_cpi.Kube.Objects.{Foreign}
use kubernetes_cpi.Kube.World.{Resource}
use kubernetes_cpi.Kube.Memory.{Cluster}
use kubernetes_cpi.Kube.Client.{Calls, Clientset}
use kubernetes_cpi.Kube.Client.Untouched.{Untouching, Untouched}
use kubernetes_cpi.Examples.Fixtures.{world, client}

-- A cluster that is a part of the state.
module _ {S : Type 0} (part : S → Cluster) (put : S → Cluster → S) where
  abbrev pub in_part {ℓ} : {A : Type ℓ} → Call Cluster A → Call S A
  in_part c s = let (r, t) = c (part s) in (r, put s t)

  abbrev calls_of : {Obj : Type 0} → Resource Cluster Obj → Calls S Obj
  calls_of R = record {
    get = λ n. in_part (R.get client n);
    create = λ o. in_part (R.create client o);
    update = λ o. in_part (R.update client o);
    delete = λ n g. in_part (R.delete client n g);
    list = λ l. in_part (R.list client l);
    watch = λ o t. in_part (R.watch client o t);
  }

  abbrev pub clientset_of : (volumes : Calls S Foreign) → Clientset S
  clientset_of volumes = record {
    core = record {
      config_maps = λ ns. calls_of world.config_maps;
      persistent_volume_claims = λ ns. calls_of world.claims;
      persistent_volumes = volumes;
      pods = λ ns. calls_of world.pods;
      patch_pod = λ ns n p. in_part (world.patch_pod client n p);
      services = λ ns. calls_of world.services;
      secrets = λ ns. calls_of world.secrets;
      namespaces = calls_of world.namespaces;
    };
    extensions = record {
      deployments = λ ns. calls_of world.deployments;
      ingresses = λ ns. calls_of world.ingresses;
    };
  }

  module _ {X : Type 0} (view : S → X)
      (apart : (s : S) (t : Cluster) → view (put s t) ≡ view s) where
    untouching : {Obj : Type 0} (R : Resource Cluster Obj) → Untouching (calls_of R) view
    untouching R = record {
      get = λ n. record { at = λ s. apart s _ };
      create = λ o. record { at = λ s. apart s _ };
      update = λ o. record { at = λ s. apart s _ };
      delete = λ n g. record { at = λ s. apart s _ };
      list = λ l. record { at = λ s. apart s _ };
      watch = λ o t. record { at = λ s. apart s _ };
    }

    pub untouched :
        (volumes : Calls S Foreign) (ns : String) → Untouched view (clientset_of volumes) ns
    untouched volumes ns = record {
      pods = untouching world.pods;
      config_maps = untouching world.config_maps;
      persistent_volume_claims = untouching world.claims;
      services = untouching world.services;
      secrets = untouching world.secrets;
      namespaces = untouching world.namespaces;
      deployments = untouching world.deployments;
      ingresses = untouching world.ingresses;
      patch_pod = λ n p. record { at = λ s. apart s _ };
    }

-- No persistent volumes.
abbrev pub no_volumes : {S : Type 0} → Calls S Foreign
no_volumes = record {
  get = λ n s. (err (foreign "no volumes"), s);
  create = λ o s. (err (foreign "no volumes"), s);
  update = λ o s. (err (foreign "no volumes"), s);
  delete = λ n g s. (err (foreign "no volumes"), s);
  list = λ l s. (ok [], s);
  watch = λ o t s. (ok [], s);
}

abbrev pub one_cluster : Clientset Cluster
one_cluster = clientset_of (λ s. s) (λ s t. t) no_volumes

-- The clusters of the clientsets "ctx" and "other".
abbrev pub two_clusters : Foreign → Clientset (Cluster × Cluster)
two_clusters set =
    if set == "ctx"
    then clientset_of (λ s. s.0) (λ s t. (t, s.1)) no_volumes
    else clientset_of (λ s. s.1) (λ s t. (s.0, t)) no_volumes
