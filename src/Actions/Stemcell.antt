-- ===== src/Actions/Stemcell.antt =====
-- actions/info.go and actions/stemcell.go: a stemcell is the image that its cloud properties name, and
-- nothing is uploaded for it.
use kubernetes_cpi.Base.{String, [], Dict, insert}
use kubernetes_cpi.Exec.{Exec, pure}

unfoldable pub info : Dict String
info = insert "api_version" "1.0" []

pub record StemcellCloudProperties : Type 0 where
  pub image : String

module _ {S : Type 0} where
  unfoldable pub create_stemcell : String → StemcellCloudProperties → Exec S String
  create_stemcell image cloud_props = pure cloud_props.image

  unfoldable pub delete_stemcell : String → Exec S (Unit {0})
  delete_stemcell stemcell_cid = pure tt
