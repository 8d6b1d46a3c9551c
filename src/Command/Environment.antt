-- ===== src/Command/Environment.antt =====
-- The settings that come from the environment.
use vllm_chill.Prelude.{
  Bytes, codes, ◌++◌, ◌∷◌, [], ℤ, pos, negsuc, format_int, to_decimal-ne, Bool, IsInt64, atoi,
  atoi-format_int, atoi-IsInt64, Option, none, some, true, false, arith, ◌≡◌, ◌≢◌, ◌↔◌, refl,
  if◌then◌else◌,
}
use vllm_chill.Kubernetes.Models.{is_empty}
use vllm_chill.Proxy.Server.{Environ, target_of}
use vllm_chill.Command.{get_env_or_default, get_env_or_default_int, announced_target}

is_empty-ne : (s : Bytes) → s ≢ [] → is_empty s ≡ false
unfolding is_empty
is_empty-ne [] h = absurd (h refl)
is_empty-ne (c ∷ s) h = refl

format_int-ne : (z : ℤ) → format_int z ≢ []
unfolding format_int
format_int-ne (pos n) = to_decimal-ne n
format_int-ne (negsuc n) = λ h. cc

-- What getEnvOrDefaultInt returns: the int that the variable is the decimal form of; the default
-- for a variable that is empty or no int, as one beyond 64 bits; and always a number of 64 bits, if
-- the default is one.
pub get_env_or_default_int_cases :
    (env : Environ) (key : Bytes) (default_value : ℤ)
    → IsInt64 default_value
    → let n = get_env_or_default_int env key default_value in
      ((z : ℤ) → env key ≡ format_int z → IsInt64 z → n ≡ z)
      × (atoi (env key) ≡ none → n ≡ default_value)
      × IsInt64 n
unfolding get_env_or_default_int
get_env_or_default_int_cases env key d fits = (
  λ z text small.
      rw (text, is_empty-ne (format_int z) (format_int-ne z), atoi-format_int z small) refl,
  λ bad. number_or_default (is_empty (env key)) bad,
  number_fits (is_empty (env key)) (atoi (env key)) (atoi-IsInt64 (env key)),
)
  where
    number_or_default :
        (b : Bool) {o : Option ℤ}
        → o ≡ none
        → (if b then d else elim o [ none ↦ d | some z ↦ z ]) ≡ d
    number_or_default true bad = refl
    number_or_default false bad = rw bad refl

    number_fits :
        (b : Bool) (o : Option ℤ)
        → ((z : ℤ) → o ≡ some z → IsInt64 z)
        → IsInt64 (if b then d else elim o [ none ↦ d | some z ↦ z ])
    number_fits true o small = fits
    number_fits false none small = fits
    number_fits false (some z) small = small z refl

same_target_iff :
    (target port : Bytes)
    → ((codes "http://"
          ++ ((if is_empty target then codes "vllm-api" else target) ++ (codes ":" ++ port)))
        ≡ (codes "http://"
            ++ ((if is_empty target then codes "vllm" else target) ++ (codes ":" ++ port))))
      ↔ (target ≢ [])
unfolding is_empty
same_target_iff [] port = (λ h. absurd (ground (arith, h)), λ h. absurd (h refl))
same_target_iff (c ∷ s) port = (λ h e. cc, λ h. refl)

-- The target that serve logs is the one that requests are given to exactly if VLLM_TARGET is set.
pub announced_target_iff :
    (env : Environ) → (announced_target env ≡ target_of env) ↔ (env (codes "VLLM_TARGET") ≢ [])
unfolding announced_target target_of get_env_or_default
announced_target_iff env =
    same_target_iff (env (codes "VLLM_TARGET"))
      (get_env_or_default env (codes "VLLM_PORT") (codes "80"))
