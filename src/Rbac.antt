-- ===== src/Rbac.antt =====
-- pkg/rbac/verify.go: the check of the program's own permissions at its start.
pub mod Granted
use vllm_chill.Prelude.{
  Bytes, codes, same, Bool, true, false, ◌&&◌, Option, none, some, List, [], ◌∷◌, ◌++◌, any, Error,
  errorf, wrap, Result, ok, err, panic, if◌then◌else◌,
}
use vllm_chill.Kubernetes.Models.{is_empty}

pub record RequiredPermission : Type 0 where
  pub api_group : Bytes
  pub resource : Bytes
  pub verb : Bytes
  -- "" for the whole cluster
  pub namespace : Bytes

abbrev pub permission : Bytes → Bytes → Bytes → Bytes → RequiredPermission
permission g r v n = record { api_group = g; resource = r; verb = v; namespace = n }

-- GetRequiredPermissions
unfoldable pub get_required_permissions : Bytes → List RequiredPermission
get_required_permissions namespace =
    permission (codes "apiextensions.k8s.io") (codes "customresourcedefinitions") (codes "get") []
    ∷ permission (codes "apiextensions.k8s.io") (codes "customresourcedefinitions") (codes "list")
        []
    ∷ permission (codes "vllm.sir-alfred.io") (codes "models") (codes "get") []
    ∷ permission (codes "vllm.sir-alfred.io") (codes "models") (codes "list") []
    ∷ permission (codes "apps") (codes "deployments") (codes "get") namespace
    ∷ permission (codes "apps") (codes "deployments") (codes "list") namespace
    ∷ permission (codes "apps") (codes "deployments") (codes "create") namespace
    ∷ permission (codes "apps") (codes "deployments") (codes "update") namespace
    ∷ permission (codes "apps") (codes "deployments") (codes "patch") namespace
    ∷ permission [] (codes "pods") (codes "list") namespace
    ∷ permission [] (codes "pods") (codes "delete") namespace
    ∷ permission [] (codes "pods") (codes "deletecollection") namespace
    ∷ permission [] (codes "configmaps") (codes "get") namespace
    ∷ permission [] (codes "configmaps") (codes "create") namespace
    ∷ permission [] (codes "configmaps") (codes "update") namespace
    ∷ permission [] (codes "configmaps") (codes "patch") namespace
    ∷ permission [] (codes "services") (codes "get") namespace
    ∷ permission [] (codes "services") (codes "create") namespace
    ∷ permission [] (codes "services") (codes "update") namespace
    ∷ permission [] (codes "services") (codes "patch") namespace
    ∷ []

pub record CrdCondition : Type 0 where
  pub kind : Bytes
  pub status : Bytes

-- The cluster's answers: the conditions of a CRD by its name, and a self subject access review.
pub record Access : Type 1 where
  pub Server : Type 0
  pub get_crd : Bytes → Server → Result (List CrdCondition) × Server
  pub review : RequiredPermission → Server → Result Bool × Server

-- the loop of Join behind the first string
unfoldable pub join_rest : Bytes → List Bytes → Bytes → Bytes
join_rest result [] sep = result
join_rest result (s ∷ strs) sep = join_rest (result ++ sep ++ s) strs sep

-- Join
unfoldable pub join : List Bytes → Bytes → Bytes
join [] sep = []
join (s ∷ strs) sep = join_rest s strs sep

-- a permission in the list of those that are missing
unfoldable pub describe : RequiredPermission → Bytes
describe p =
    let scope =
      if is_empty p.namespace then codes "cluster-scoped" else codes "namespace=" ++ p.namespace in
    codes "  - "
    ++ p.verb
    ++ codes " "
    ++ p.resource
    ++ codes "."
    ++ p.api_group
    ++ codes " ("
    ++ scope
    ++ codes ")"

unfoldable pub is_established : List CrdCondition → Bool
is_established conditions =
    any (λ c. same c.kind (codes "Established") && same c.status (codes "True")) conditions

-- what VerifyCRDExists makes of the answer to Get
abbrev pub crd_reply : Result (List CrdCondition) → Result (Unit {0})
crd_reply (ok conditions) =
    if is_established conditions
    then ok tt
    else err (
        errorf (
          codes
            "VLLMModel CRD exists but is not established\n\nPlease wait for the CRD to be fully initialized"))
crd_reply (err e) = err (record {
  not_found = e.not_found;
  message =
      codes "VLLMModel CRD not found: "
      ++ e.message
      ++ codes "\n\nPlease install the CRD using: kubectl apply -f manifests/crds/vllmmodel.yaml";
})
crd_reply panic = panic

-- the last part of VerifyPermissions
abbrev pub report : Result (List Bytes) → Result (Unit {0})
report (ok []) = ok tt
report (ok (m ∷ missing)) = err (
    errorf (
      codes "missing required RBAC permissions:\n"
      ++ join (m ∷ missing) (codes "\n")
      ++ codes
          "\n\nPlease ensure the ServiceAccount has the required permissions as defined in manifests/ci/rbac.yaml"))
report (err e) = err e
report panic = panic

module _ (access : Access) where
  open access use {Server, get_crd, review}

  -- VerifyCRDExists
  unfoldable pub verify_crd_exists : Server → Result (Unit {0}) × Server
  verify_crd_exists s =
      let (r, s') = get_crd (codes "models.vllm.sir-alfred.io") s in (crd_reply r, s')

  -- The loop of VerifyPermissions; `missing` is the list of the permissions missing so far.
  unfoldable pub missing_permissions :
      List RequiredPermission → List Bytes → Server → Result (List Bytes) × Server
  missing_permissions [] missing s = (ok missing, s)
  missing_permissions (p ∷ ps) missing s =
      let (r, s') = review p s in
      let granted = missing_permissions ps missing s' in
      let refused = missing_permissions ps (missing ++ describe p ∷ []) s' in
      elim r [
        | ok b ↦ if b then granted else refused
        | err e ↦ (
          err (
              wrap
                (codes "failed to check permission "
                  ++ p.api_group
                  ++ codes "/"
                  ++ p.resource
                  ++ codes ":"
                  ++ p.verb)
                e),
          s',
        )
        | panic ↦ (panic, s')
      ]

  abbrev pub verify_if : Bytes → Result (Unit {0}) × Server → Result (Unit {0}) × Server
  verify_if namespace (err e, s) = (err e, s)
  verify_if namespace (panic, s) = (panic, s)
  verify_if namespace (ok u, s) =
      let (r, s') = missing_permissions (get_required_permissions namespace) [] s in (report r, s')

  -- VerifyPermissions, once the cluster's clients are made
  unfoldable pub verify_permissions : Bytes → Server → Result (Unit {0}) × Server
  verify_permissions namespace s = verify_if namespace (verify_crd_exists s)
