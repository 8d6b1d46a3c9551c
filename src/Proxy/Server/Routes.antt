-- ===== src/Proxy/Server/Routes.antt =====
-- Which routes logRegisteredRoutes logs.
use vllm_chill.Prelude.{
  Bytes, codes, same, same_iff, has_prefix, leb, length, take, ◌++◌, true, false, ◌&&◌, Bool-cases,
  inl, inr, List, [], ◌∷◌, map, if◌then◌else◌, arith, ◌≡◌, refl, ap, ◌∙◌,
}
use vllm_chill.Proxy.Config.{Config}
use vllm_chill.Proxy.Server.{Route, base_url, is_logged, log_registered_routes}

-- A slice that is long enough and has the text is the test for a prefix.
same-take :
    (s p : Bytes) → (leb (length p) (length s) && same (take (length p) s) p) ≡ has_prefix s p
unfolding same has_prefix
same-take [] [] = refl
same-take (c ∷ s) [] = ground arith
same-take [] (d ∷ p) = ground arith
same-take (c ∷ s) (d ∷ p) = ground (arith, same-take s p)

prefix_excludes :
    (path other p : Bytes)
    → has_prefix other p ≡ false
    → same path other ≡ true
    → has_prefix path p ≡ false
prefix_excludes path other p h e = ap (λ s. has_prefix s p) ((same_iff path other).0 e) ∙ h

health_other : has_prefix (codes "/health") (codes "/proxy") ≡ false
unfolding has_prefix
health_other = refl

readyz_other : has_prefix (codes "/readyz") (codes "/proxy") ≡ false
unfolding has_prefix
readyz_other = refl

is_logged-has_prefix : (path : Bytes) → is_logged path ≡ has_prefix path (codes "/proxy")
is_logged-has_prefix path = ground (
  arith,
  same-take path (codes "/proxy"),
  prefix_excludes path (codes "/health") (codes "/proxy") health_other,
  prefix_excludes path (codes "/readyz") (codes "/proxy") readyz_other,
)

abbrev pub proxy_routes : List Route → List Route
proxy_routes [] = []
proxy_routes (r ∷ rs) =
    if has_prefix r.path (codes "/proxy") then r ∷ proxy_routes rs else proxy_routes rs

-- logRegisteredRoutes logs the URLs of just those routes whose path begins with /proxy, in their
-- order: its tests for /health and /readyz leave nothing out.
pub log_registered_routes-prefix :
    (c : Config) (rs : List Route)
    → log_registered_routes c rs ≡ map (λ r. base_url c ++ r.path) (proxy_routes rs)
unfolding log_registered_routes
log_registered_routes-prefix c [] = refl
log_registered_routes-prefix c (r ∷ rs) = elim (Bool-cases (has_prefix r.path (codes "/proxy"))) [
  | inl found ↦
      rw (is_logged-has_prefix r.path, found)
        (ap (λ us. (base_url c ++ r.path) ∷ us) (log_registered_routes-prefix c rs))
  | inr other ↦ rw (is_logged-has_prefix r.path, other) (log_registered_routes-prefix c rs)
]
