-- ===== src/Kubernetes/Crd/Lookup.antt =====
-- pkg/kubernetes/crd_client.go: the profile that GetModel picks.
use vllm_chill.Prelude.{
  Bytes, codes, same_iff, true, Option, none, some, List, [], ◌∷◌, Result, ok, err, panic, ◌≡◌,
  arith,
}
use vllm_chill.Kubernetes.Models.{ModelConfig, validate}
use vllm_chill.Kubernetes.Models.Profiles.{IsComplete, validate_iff}
use vllm_chill.Kubernetes.Api.{Api}
use vllm_chill.Kubernetes.Crd.{
  checked, config_of, convert_spec, is_name, served_name, or_unset, text, find_model, find_in,
  get_model,
}

checked-ok : (m m' : ModelConfig) (o : Option Bytes) → checked m o ≡ ok m' → (o ≡ none) × (m ≡ m')
checked-ok m m' none h = ground arith
checked-ok m m' (some e) h = cc

module _ (api : Api) where
  open api use {Server, Object, Spec, list_objects, nested_map, nested_string}

  spec-IsComplete : (s : Option Spec) (m : ModelConfig) → convert_spec api s ≡ ok m → IsComplete m
  spec-IsComplete none m h = cc
  spec-IsComplete (some s) m h =
      let (valid, e) = checked-ok (config_of api s) m (validate (config_of api s)) h in
      (validate_iff m).0 (rw (← e) valid)

  spec-served :
      (wanted : Bytes) (s : Option Spec) (m : ModelConfig)
      → is_name api wanted (served_name api s) ≡ true
      → convert_spec api s ≡ ok m
      → m.served_model_name ≡ wanted
  unfolding config_of
  spec-served wanted none m served h = cc
  spec-served wanted (some s) m served h =
      let (valid, e) = checked-ok (config_of api s) m (validate (config_of api s)) h in
      rw (← e) (named (nested_string s (codes "servedModelName")) served)
    where
      named : (o : Option Bytes) → is_name api wanted o ≡ true → or_unset text o ≡ wanted
      named none e = cc
      named (some t) e = (same_iff t wanted).0 e

  find_model-served :
      (wanted : Bytes) (us : List Object) (m : ModelConfig)
      → find_model api wanted us ≡ ok m
      → (m.served_model_name ≡ wanted) × IsComplete m
  unfolding find_model
  find_model-served wanted [] m h = cc
  find_model-served wanted (u ∷ us) m h = ground (
    arith,
    find_model-served wanted us m,
    spec-served wanted (nested_map u (codes "spec")) m,
    spec-IsComplete (nested_map u (codes "spec")) m,
  )

  find_in-served :
      (wanted : Bytes) (r : Result (List Object)) (m : ModelConfig)
      → find_in api wanted r ≡ ok m
      → (m.served_model_name ≡ wanted) × IsComplete m
  find_in-served wanted (ok items) m h = find_model-served wanted items m h
  find_in-served wanted (err e) m h = cc
  find_in-served wanted panic m h = cc

  -- Whatever the server answers, a profile that GetModel returns has the served name that was asked
  -- for and every field that vLLM cannot start without.
  pub get_model-served :
      (wanted : Bytes) (s : Server) (m : ModelConfig)
      → (get_model api wanted s).0 ≡ ok m
      → (m.served_model_name ≡ wanted) × IsComplete m
  unfolding get_model
  get_model-served wanted s m h = find_in-served wanted (list_objects s).0 m h
