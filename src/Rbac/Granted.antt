-- ===== src/Rbac/Granted.antt =====
-- When the check of the permissions succeeds.
use vllm_chill.Prelude.{
  Bytes, codes, same_iff, Bool-cases, ◌⊎◌, inl, inr, true, List, [], ◌∷◌, ◌++◌, Result, ok, err,
  panic, ◌≡◌, ◌≢◌, ◌↔◌, refl, ◌∙◌, arith, join_with, append_assoc,
}
use vllm_chill.Rbac.{
  RequiredPermission, Access, get_required_permissions, missing_permissions, verify_crd_exists,
  CrdCondition, is_established, crd_reply, join, join_rest, verify_if, verify_permissions, report,
  describe,
}

-- Among the conditions of a CRD is one of the type Established whose status is True.
unfoldable pub HasEstablished : List CrdCondition → Type 0
HasEstablished [] = ⊥
HasEstablished (c ∷ cs) =
    ((c.kind ≡ codes "Established") × (c.status ≡ codes "True")) ⊎ HasEstablished cs

established_iff : (cs : List CrdCondition) → (is_established cs ≡ true) ↔ HasEstablished cs
unfolding is_established HasEstablished
established_iff [] = (λ h. cc, λ h. absurd h)
established_iff (c ∷ cs) = ground (
  arith,
  same_iff c.kind (codes "Established"),
  same_iff c.status (codes "True"),
  established_iff cs,
)

module _ (access : Access) where
  open access use {Server, get_crd, review}

  -- Every review, in this order and starting at this state of the cluster, allows its permission.
  unfoldable pub IsGranted : List RequiredPermission → Server → Type 0
  IsGranted [] s = Unit
  IsGranted (p ∷ ps) s = ((review p s).0 ≡ ok true) × IsGranted ps (review p s).1

  all_granted :
      (ps : List RequiredPermission) (s : Server)
      → IsGranted ps s
      → (missing_permissions access ps [] s).0 ≡ ok []
  unfolding missing_permissions IsGranted
  all_granted [] s h = refl
  all_granted (p ∷ ps) s (now, later) = let s' = (review p s).1 in ground (arith, all_granted ps s')

  longer : (missing : List Bytes) (b : Bytes) → missing ++ b ∷ [] ≢ []
  longer [] b h = cc
  longer (m ∷ missing) b h = cc

  never_empty :
      (ps : List RequiredPermission) (missing : List Bytes) (s : Server)
      → missing ≢ []
      → (missing_permissions access ps missing s).0 ≢ ok []
  unfolding missing_permissions
  never_empty [] missing s some_missing h = ground (arith)
  never_empty (p ∷ ps) missing s some_missing h =
      let s' = (review p s).1 in
      ground (
        arith,
        never_empty ps missing s' some_missing,
        never_empty ps (missing ++ describe p ∷ []) s' (longer missing (describe p)),
      )

  none_missing :
      (ps : List RequiredPermission) (s : Server)
      → (missing_permissions access ps [] s).0 ≡ ok []
      → IsGranted ps s
  unfolding missing_permissions IsGranted
  none_missing [] s h = tt
  none_missing (p ∷ ps) s h =
      let s' = (review p s).1 in
      ground
        (arith, none_missing ps s', never_empty ps (describe p ∷ []) s' (longer [] (describe p)))

  report_iff : (r : Result (List Bytes)) → (report r ≡ ok tt) ↔ (r ≡ ok [])
  report_iff (ok []) = (λ h. refl, λ h. refl)
  report_iff (ok (m ∷ missing)) = (λ h. cc, λ h. ground arith)
  report_iff (err e) = (λ h. cc, λ h. cc)
  report_iff panic = (λ h. cc, λ h. cc)

  verify_if_iff :
      (namespace : Bytes) (o : Result (Unit {0}) × Server)
      → ((verify_if access namespace o).0 ≡ ok tt)
        ↔ ((o.0 ≡ ok tt) × IsGranted (get_required_permissions namespace) o.1)
  verify_if_iff namespace (ok u, s) =
      let ps = get_required_permissions namespace in
      let found = report_iff (missing_permissions access ps [] s).0 in
      (λ h. (refl, none_missing ps s (found.0 h)), λ h. found.1 (all_granted ps s h.1))
  verify_if_iff namespace (err e, s) = (λ h. cc, λ h. cc)
  verify_if_iff namespace (panic, s) = (λ h. cc, λ h. cc)

  -- The cluster has the CRD of the models, and it is established.
  abbrev pub IsCrdEstablished : Server → Type 0
  IsCrdEstablished s =
      (cs : List CrdCondition) × ((get_crd (codes "models.vllm.sir-alfred.io") s).0 ≡ ok cs)
      × HasEstablished cs

  crd_reply_iff :
      (r : Result (List CrdCondition))
      → (crd_reply r ≡ ok tt) ↔ ((cs : List CrdCondition) × (r ≡ ok cs) × HasEstablished cs)
  crd_reply_iff (ok cs) = (
    λ h. elim (Bool-cases (is_established cs)) [
      | inl holds ↦ (cs, refl, (established_iff cs).0 holds)
      | inr fails ↦ absurd (ground arith)
    ],
    λ (ds, e, found).
        let there = (established_iff ds).1 found in
        let here : is_established cs ≡ true = cc in rw here refl,
  )
  crd_reply_iff (err e) = (λ h. cc, λ (cs, h, found). cc)
  crd_reply_iff panic = (λ h. cc, λ (cs, h, found). cc)

  -- VerifyPermissions succeeds exactly when the cluster has the CRD of the models, with a condition
  -- Established that is True, and then, asked in this order, grants each of the required permissions.
  pub verify_permissions_iff :
      (namespace : Bytes) (s : Server)
      → ((verify_permissions access namespace s).0 ≡ ok tt) ↔ (
          IsCrdEstablished s
          × IsGranted
              (get_required_permissions namespace)
              (get_crd (codes "models.vllm.sir-alfred.io") s).1)
  unfolding verify_permissions verify_crd_exists
  verify_permissions_iff namespace s =
      let (r, s') = get_crd (codes "models.vllm.sir-alfred.io") s in
      let (to, from) = verify_if_iff namespace (crd_reply r, s') in
      let (established, replies) = crd_reply_iff r in
      (λ h. (established (to h).0, (to h).1), λ (found, granted). from (replies found, granted))

join_with-append :
    (sep a b : Bytes) (ps : List Bytes)
    → join_with sep ((a ++ b) ∷ ps) ≡ a ++ join_with sep (b ∷ ps)
unfolding join_with
join_with-append sep a b [] = refl
join_with-append sep a b (q ∷ ps) = simp append_assoc

join_rest-append :
    (r : Bytes) (strs : List Bytes) (sep : Bytes) → join_rest r strs sep ≡ join_with sep (r ∷ strs)
unfolding join_rest join_with
join_rest-append r [] sep = refl
join_rest-append r (s ∷ strs) sep =
    join_rest-append (r ++ sep ++ s) strs sep ∙ join_with-append sep (r ++ sep) s strs

-- Join gives the strings with the separator between each two that are next to each other.
pub join-join_with : (strs : List Bytes) (sep : Bytes) → join strs sep ≡ join_with sep strs
unfolding join join_with
join-join_with [] sep = refl
join-join_with (s ∷ strs) sep = join_rest-append s strs sep
