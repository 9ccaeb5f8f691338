-- ===== src/Cleanup/Done.antt =====
-- A Cleanup that is done under the policy Delete: what it saw, and the claims that it deleted.
use mathlib.Core.Path.{subst}
use provider_altinity_clickh.Prelude.{
  ◌≡◌, refl, ap, ◌⊎◌, inl, inr, String, Bool, true, false, List, [], ◌∷◌, arith, All, any, eq_iff,
  eq_refl, if◌then◌else◌,
}
use provider_altinity_clickh.Prelude.Text.{str_eq, ◌<>◌}
use provider_altinity_clickh.Prelude.Result.{Result, ok, err}
use provider_altinity_clickh.Common.{label_chi_name, label_chk_name, storage_reclaim_policy_delete}
use provider_altinity_clickh.Instance.{Instance, is_replicated_topology}
use provider_altinity_clickh.Cluster.{
  Event, History, Api, Pvc, listed, deleted, pvc_kind, missing, pure, wrap, wrap_error, delete,
  list_pvcs,
}
use provider_altinity_clickh.Cluster.Inversion.{>>=-eq-ok}
use provider_altinity_clickh.Sizing.{storage_reclaim_policy}
use provider_altinity_clickh.Tls.{keeper_cr_name}
use provider_altinity_clickh.Cleanup.{
  sync_reclaim_policy, delete_clickhouse, delete_keeper, delete_each, delete_pvcs, cleanup,
}
use provider_altinity_clickh.Cleanup.Order.{delete_clickhouse-ok, delete_keeper-ok}

abbrev is_deletion_of : String → Event → Bool
is_deletion_of claim (deleted pvc_kind name) = str_eq name claim
is_deletion_of claim _ = false

abbrev pub IsDeleted : History → String → Type 0
IsDeleted h claim = any (is_deletion_of claim) h ≡ true

abbrev pub AllDeleted : History → List Pvc → Type 0
AllDeleted h pvcs = All (λ pvc. IsDeleted h pvc.name) pvcs

delete_each-keeps :
    (pvcs : List Pvc) (api : Api) (h : History) (claim : String)
    → IsDeleted h claim
    → IsDeleted (delete_each pvcs api h).1 claim
unfolding delete_each
delete_each-keeps [] api h claim d = d
delete_each-keeps (pvc ∷ pvcs) api h claim d =
    let h1 = deleted pvc_kind pvc.name ∷ h in
    let here : IsDeleted h1 claim = ground arith in
    let rest = delete_each-keeps pvcs api h1 claim here in ground arith

delete_each-AllDeleted :
    (pvcs : List Pvc) (api : Api) (h h' : History)
    → delete_each pvcs api h ≡ (ok tt, h')
    → AllDeleted h' pvcs
unfolding delete_each
delete_each-AllDeleted [] api h h' e = tt
delete_each-AllDeleted (pvc ∷ pvcs) api h h' e =
    let deleting = wrap ("delete PVC " <> pvc.name) (delete pvc_kind pvc.name) in
    let (done, e1, r1) = >>=-eq-ok deleting _ api h h' tt e in
    let h1 = deleted pvc_kind pvc.name ∷ h in
    let kept = delete_each-keeps pvcs api h1 pvc.name (ground (arith, eq_refl pvc.name)) in
    (ground arith, delete_each-AllDeleted pvcs api h1 h' r1)

module _ (instance_ : Instance) (api : Api) where
  -- The claims of ClickHouse and of Keeper, as they were listed, are deleted in this history.
  abbrev pub ClaimsDeleted : History → Type 0
  ClaimsDeleted h =
      ((g : History) × (pvcs : List Pvc) × (api.list_pvcs g label_chi_name instance_.name ≡ ok pvcs)
        × AllDeleted h pvcs)
      × ((g : History) × (pvcs : List Pvc) × (api.list_pvcs g label_chk_name
              (keeper_cr_name instance_.name)
            ≡ ok pvcs)
          × AllDeleted h pvcs)

  wrapped-ok :
      {A : Type 0} (message : String) (r : Result A) (a : A)
      → wrap_error message r ≡ ok a
      → r ≡ ok a
  wrapped-ok message (ok b) a e = e
  wrapped-ok message (err x) a e = ground arith

  All-kept :
      (claims pvcs : List Pvc) (h : History)
      → AllDeleted h claims
      → AllDeleted (delete_each pvcs api h).1 claims
  All-kept [] pvcs h d = tt
  All-kept (pvc ∷ claims) pvcs h (d, ds) =
      (delete_each-keeps pvcs api h pvc.name d, All-kept claims pvcs h ds)

  All-listed :
      (claims : List Pvc) (h : History) (key value : String)
      → AllDeleted h claims
      → AllDeleted (listed key value ∷ h) claims
  All-listed [] h key value d = tt
  All-listed (pvc ∷ claims) h key value (d, ds) = (d, All-listed claims h key value ds)

  delete_pvcs-ok : (h h' : History) → delete_pvcs instance_ api h ≡ (ok tt, h') → ClaimsDeleted h'
  unfolding delete_pvcs
  delete_pvcs-ok h h' e =
      let listing = wrap "list PVCs" (list_pvcs label_chi_name instance_.name) in
      let (claims, e1, r1) = >>=-eq-ok listing _ api h h' tt e in
      let h1 = (listing api h).1 in
      let (done, e2, r2) = >>=-eq-ok (delete_each claims) _ api h1 h' tt r1 in
      let h2 = (delete_each claims api h1).1 in
      let keeper_listing =
        wrap "list PVCs" (list_pvcs label_chk_name (keeper_cr_name instance_.name)) in
      let (claims', e3, r3) = >>=-eq-ok keeper_listing _ api h2 h' tt r2 in
      let h3 = (keeper_listing api h2).1 in
      let first = delete_each-AllDeleted claims api h1 h2 (ap (λ r. (r, h2)) e2) in
      let kept =
        All-kept claims claims' h3
          (All-listed claims h2 label_chk_name (keeper_cr_name instance_.name) first) in
      (
        (
          h,
          claims,
          wrapped-ok "list PVCs" _ claims e1,
          subst (λ k. AllDeleted k claims) (ap (λ r. r.1) r3) kept,
        ),
        (
          h2,
          claims',
          wrapped-ok "list PVCs" _ claims' e3,
          delete_each-AllDeleted claims' api h3 h' r3,
        ),
      )

  claims_case :
      (deletes : Bool) (h h' : History)
      → deletes ≡ true
      → (if deletes then delete_pvcs instance_ else pure tt) api h ≡ (ok tt, h')
      → ClaimsDeleted h'
  claims_case true h h' is_true e = delete_pvcs-ok h h' e
  claims_case false h h' is_true e = ground arith

  keeper_case :
      (replicated : Bool) (h h' : History)
      → (if replicated then delete_keeper instance_ else pure tt) api h ≡ (ok tt, h')
      → (replicated ≡ false)
        ⊎ ((g : History) × (api.read_chk g (keeper_cr_name instance_.name) ≡ missing))
  keeper_case true h h' e = inr (delete_keeper-ok instance_ api h h' e)
  keeper_case false h h' e = inl refl

-- When Cleanup succeeds under the policy Delete, the CHI was found gone, in the replicated topology
-- the CHK too, and every volume claim that was then listed for ClickHouse and for Keeper is deleted.
pub cleanup-deletes_claims :
    (instance_ : Instance) (api : Api) (h h' : History)
    → storage_reclaim_policy instance_ ≡ storage_reclaim_policy_delete
    → cleanup instance_ api h ≡ (ok tt, h')
    → ((g : History) × (api.read_chi g instance_.name ≡ missing))
      × ((is_replicated_topology instance_ ≡ false)
          ⊎ ((g : History) × (api.read_chk g (keeper_cr_name instance_.name) ≡ missing)))
      × ClaimsDeleted instance_ api h'
unfolding cleanup
cleanup-deletes_claims instance_ api h h' policy e =
    let (x1, e1, r1) = >>=-eq-ok (sync_reclaim_policy instance_) _ api h h' tt e in
    let h1 = (sync_reclaim_policy instance_ api h).1 in
    let (x2, e2, r2) = >>=-eq-ok (delete_clickhouse instance_) _ api h1 h' tt r1 in
    let h2 = (delete_clickhouse instance_ api h1).1 in
    let waiting = if is_replicated_topology instance_ then delete_keeper instance_ else pure tt in
    let (x3, e3, r3) = >>=-eq-ok waiting _ api h2 h' tt r2 in
    let h3 = (waiting api h2).1 in
    (
      delete_clickhouse-ok instance_ api h1 h2 (ap (λ r. (r, h2)) e2),
      keeper_case instance_ api (is_replicated_topology instance_) h2 h3 (ap (λ r. (r, h3)) e3),
      claims_case instance_ api
          (str_eq (storage_reclaim_policy instance_) storage_reclaim_policy_delete) h3 h'
          ((eq_iff _ _).1 policy) r3,
    )
