-- ===== src/Sync/Certified.antt =====
-- With TLS on, a Sync changes neither installation before the server certificate is issued.
use provider_altinity_clickh.Prelude.{◌≡◌, ◌≢◌, refl, ap, Bool, true, false, arith, if◌then◌else◌}
use provider_altinity_clickh.Prelude.Result.{ok}
use provider_altinity_clickh.Instance.{Instance}
use provider_altinity_clickh.Cluster.{Api, History, pure, wrap}
use provider_altinity_clickh.Cluster.Inversion.{>>=-eq-ok}
use provider_altinity_clickh.Cluster.Effects.{
  count, KeepsOn, Keeps-KeepsOn, >>=-KeepsOn, failing-KeepsOn, wrap-Keeps, if-Keeps,
}
use provider_altinity_clickh.Tls
use provider_altinity_clickh.Tls.Resources.{ensure_tls, server_certificate_issued}
use provider_altinity_clickh.Credentials.{ensure_credentials}
use provider_altinity_clickh.Sync.{Surroundings, sync_resources, sync, publish}
use provider_altinity_clickh.Sync.Effects.{Watched, watched}
use provider_altinity_clickh.Sync.Preparing.{ensure_credentials-Holds, ensure_tls-Holds}
use provider_altinity_clickh.Sync.Publishing.{sync-KeepsOn}
use provider_altinity_clickh.Sync.Done.{ensure_tls-ok}

module _ (env : Surroundings) (instance_ : Instance) (api : Api)
    (never : (g : History) → (server_certificate_issued instance_ api g).0 ≢ ok true) where
  securing_fails :
      (enabled : Bool)
      → enabled ≡ true
      → (h : History) (a : Unit {0})
      → ((if enabled then ensure_tls instance_ else pure tt) api h).0 ≢ ok a
  securing_fails true is_true h a e =
      let r = ensure_tls instance_ api h in
      let (g, issued) = ensure_tls-ok env instance_ api h r.1 (ap (λ x. (x, r.1)) e) in
      never g issued
  securing_fails false is_true h a e = ground arith

  sync_resources_fails :
      Tls.tls_enabled instance_ ≡ true
      → (h : History) → (sync_resources env instance_ api h).0 ≢ ok tt
  unfolding sync_resources
  sync_resources_fails enabled h e =
      let r = sync_resources env instance_ api h in
      let ensuring = wrap "ensure credentials" (ensure_credentials env.crypto instance_) in
      let (stored, e1, r1) = >>=-eq-ok ensuring _ api h r.1 tt (ap (λ x. (x, r.1)) e) in
      let h1 = (ensuring api h).1 in
      let securing = if Tls.tls_enabled instance_ then ensure_tls instance_ else pure tt in
      let (secured, e2, r2) = >>=-eq-ok securing _ api h1 r.1 tt r1 in
      securing_fails (Tls.tls_enabled instance_) enabled h1 secured e2

  module _ (w : Watched) where
    sync_resources-KeepsOn :
        Tls.tls_enabled instance_ ≡ true → KeepsOn (watched w) api (sync_resources env instance_)
    unfolding sync_resources
    sync_resources-KeepsOn enabled =
        >>=-KeepsOn (watched w) api
          (wrap "ensure credentials" (ensure_credentials env.crypto instance_)) _
          (Keeps-KeepsOn (watched w) api _
            (wrap-Keeps (watched w) _ _ (ensure_credentials-Holds w env.crypto instance_)))
          (λ credentials.
            failing-KeepsOn (watched w) api
              (if Tls.tls_enabled instance_ then ensure_tls instance_ else pure tt) _
              (securing_fails (Tls.tls_enabled instance_) enabled)
              (Keeps-KeepsOn (watched w) api _ (
                if-Keeps (watched w) (Tls.tls_enabled instance_) _ _ (ensure_tls-Holds w instance_)
                  (record { keeps = λ api h. refl }))))

-- With TLS on, as long as no read finds the server certificate issued, a Sync applies no CHI and no
-- CHK, requests no maintenance, and is not done, whatever else the API answers.
pub sync-waits_for_certificate :
    (env : Surroundings) (instance_ : Instance) (api : Api) (h : History) (w : Watched)
    → Tls.tls_enabled instance_ ≡ true
    → ((g : History) → (server_certificate_issued instance_ api g).0 ≢ ok true)
    → let r = sync env instance_ api h in
      (count (watched w) r.1 ≡ count (watched w) h) × (r.0 ≢ ok tt)
unfolding sync
sync-waits_for_certificate env instance_ api h w enabled never = (
  (sync-KeepsOn w env instance_ api
        (sync_resources-KeepsOn env instance_ api never w enabled)).keeps
      h,
  λ e.
      let synced = sync_resources env instance_ api h in
      let r = sync env instance_ api h in
      let (published, e1, r1) =
        >>=-eq-ok (publish env instance_ synced.0) _ api synced.1 r.1 tt (ap (λ x. (x, r.1)) e) in
      sync_resources_fails env instance_ api never enabled h (ground arith),
)
