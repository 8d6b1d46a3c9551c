-- ===== src/Kubernetes/Api.antt =====
-- The Kubernetes API as the program uses it: typed clients, the dynamic client for the models, and
-- the accessors of unstructured objects. None of it is in the repository, so it is a parameter: any
-- server at all, which answers as it likes and may change between two calls.
use vllm_chill.Prelude.{Bytes, Option, Bool, List, ℤ, Error, Result}
use vllm_chill.Kubernetes.Pod.{Pod, Service}

pub record Api : Type 1 where
  pub Server : Type 0
  pub Object : Type 0
  pub Spec : Type 0
  pub Float : Type 0
  -- a call with a namespace and a name or an object
  pub get_pod : Bytes → Bytes → Server → Result Pod × Server
  pub create_pod : Bytes → Pod → Server → Option Error × Server
  pub delete_pod : Bytes → Bytes → Server → Option Error × Server
  -- the service itself is not used
  pub get_service : Bytes → Bytes → Server → Option Error × Server
  pub create_service : Bytes → Service → Server → Option Error × Server
  pub list_objects : Server → Result (List Object) × Server
  pub name : Object → Bytes
  pub namespace : Object → Bytes
  pub api_version : Object → Bytes
  pub kind : Object → Bytes
  -- a nested field: `none` if it is missing or of another type
  pub nested_map : Object → Bytes → Option Spec
  pub nested_string : Spec → Bytes → Option Bytes
  pub nested_int : Spec → Bytes → Option ℤ
  pub nested_bool : Spec → Bytes → Option Bool
  pub nested_float : Spec → Bytes → Option Float
  -- strconv.FormatFloat(x, 'f', 2, 64)
  pub format_float : Float → Bytes
