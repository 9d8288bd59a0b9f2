-- ===== src/Examples/Birth.antt =====
-- A VM without disks is created on the small cluster whose settings are read back.
use kubernetes_cpi.Base.{
  ◌≡◌, refl, ap, ◌∙◌, String, Option, [], ◌∷◌, Dict, lookup, insert, lookup-insert, eq_refl,
}
use kubernetes_cpi.Exec.{Exec, returns, ok, ◌>>=◌}
use kubernetes_cpi.Kube.Objects.{Ingress, Secret}
use kubernetes_cpi.Kube.World.{Client}
use kubernetes_cpi.Kube.Memory.{Cluster}
use kubernetes_cpi.Kube.Memory.Serves.{
  get_by-state, create_by-state, create_by-apart, configs_of, put_configs, config_name, contents_of,
  serves,
}
use kubernetes_cpi.Cid.{new_vmcid}
use kubernetes_cpi.Actions.Agreement.{Agrees}
use kubernetes_cpi.Actions.CreateVm.{create}
use kubernetes_cpi.Actions.CreateVm.Kept.{Beside}
use kubernetes_cpi.Actions.CreateVm.Agreed.{create-Agrees}
use kubernetes_cpi.Examples.Deletions.{services_of, put_services, service_name}
use kubernetes_cpi.Examples.Fixtures.{start}
use kubernetes_cpi.Examples.Vms.{creator, network, properties}
use kubernetes_cpi.Examples.Codec.{coding, coding_serves, reads_back}

abbrev creates : Exec Cluster String
creates = create coding creator "b" "stemcell" properties (("private", network) ∷ []) [] "{}"

created : (creates start).0 ≡ returns (new_vmcid "ctx" "b")
unfolding create ◌>>=◌ lookup insert
created = refl

abbrev secrets_of : Cluster → Dict Secret
secrets_of s = s.secrets

abbrev put_secrets : Cluster → Dict Secret → Cluster
put_secrets s m = record s { secrets = m }

abbrev secret_name : Secret → String
secret_name o = o.meta.name

abbrev ingresses_of : Cluster → Dict Ingress
ingresses_of s = s.ingresses

abbrev put_ingresses : Cluster → Dict Ingress → Cluster
put_ingresses s m = record s { ingresses = m }

abbrev ingress_name : Ingress → String
ingress_name o = o.meta.name

abbrev configs_in : Cluster → Client → String → Option (Dict String)
configs_in s c n = contents_of (lookup n s.config_maps)

beside : Beside coding coding_serves
unfolding serves lookup
beside = record {
  create_config = λ c m s h.
      ap (λ t. configs_in t c m.meta.name)
        (create_by-state configs_of put_configs config_name [] (lookup m.meta.name s.config_maps) m
          s h)
      ∙ ap contents_of (lookup-insert m.meta.name m.meta.name m s.config_maps)
      ∙ rw (eq_refl m.meta.name) refl;
  get_service = λ c n. record {
    at = λ s.
        ap configs_in
          (get_by-state services_of put_services service_name [] (lookup n s.services) n s);
  };
  create_service = λ c o. record {
    at = λ s.
        create_by-apart services_of put_services service_name [] configs_in (λ s m. refl)
          (lookup o.meta.name s.services) o s;
  };
  create_ingress = λ c o. record {
    at = λ s.
        create_by-apart ingresses_of put_ingresses ingress_name [] configs_in (λ s m. refl)
          (lookup o.meta.name s.ingresses) o s;
  };
  get_secret = λ c n. record {
    at = λ s.
        ap configs_in (get_by-state secrets_of put_secrets secret_name [] (lookup n s.secrets) n s);
  };
  create_secret = λ c o. record {
    at = λ s.
        create_by-apart secrets_of put_secrets secret_name [] configs_in (λ s m. refl)
          (lookup o.meta.name s.secrets) o s;
  };
  read_file = λ path. record { at = λ s. refl };
}

create-Agrees_example :
    (client : Client) × ((coding.new_client "ctx" start).0 ≡ ok client)
    × Agrees coding coding_serves client "b" (creates start).1
create-Agrees_example =
    create-Agrees coding coding_serves beside reads_back creator "b" "stemcell" properties
      (("private", network) ∷ []) [] "{}" (new_vmcid "ctx" "b") start (creates start).1 refl
      (created, refl)
