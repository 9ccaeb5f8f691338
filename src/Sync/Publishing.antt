-- ===== src/Sync/Publishing.antt =====
-- What Sync publishes while it waits: reading the status and updating it applies no CHI, and never
-- changes what Sync returns.
use provider_altinity_clickh.Prelude.{refl, not, Option, none, some, arith}
use provider_altinity_clickh.Prelude.Result.{Result, ok, err, is_wait_error}
use provider_altinity_clickh.Operator.{Chi}
use provider_altinity_clickh.Instance.{Instance}
use provider_altinity_clickh.Cluster.{Api, Exec, lift, attempt, get_chi, optional_result}
use provider_altinity_clickh.Cluster.Effects.{
  KeepsOn, >>=-KeepsOn, Keeps-KeepsOn, >>=-Keeps, lift-Keeps, if-Keeps, attempt-Keeps,
}
use provider_altinity_clickh.Tls
use provider_altinity_clickh.Tls.Resources.{server_certificate_issued}
use provider_altinity_clickh.Connection.{
  Urls, ConnectionDetails, build_connection_details, add_ca_cert, read_ca_cert, read_credentials,
}
use provider_altinity_clickh.Status.{
  Status, status_of, served_details, replicated_status, keeper_status, ready_status,
  certificate_status, or_else, reduced_chi, installation_status, in_progress,
}
use provider_altinity_clickh.Sync.{
  Surroundings, report_status, report_outcome, publish, sync_resources, sync,
}
use provider_altinity_clickh.Sync.Effects.{Watched, watched, Holds}

module _ (w : Watched) where
  build_connection_details-Holds :
      (urls : Urls) (instance_ : Instance) (chi : Chi)
      → Holds w (build_connection_details urls instance_ chi)
  unfolding build_connection_details add_ca_cert read_ca_cert read_credentials
  build_connection_details-Holds urls instance_ chi = record { keeps = λ api h. ground arith }

  served_details-Holds :
      (urls : Urls) (instance_ : Instance) (chi : Option Chi)
      → Holds w (served_details urls instance_ chi)
  unfolding served_details
  served_details-Holds urls instance_ chi =
      if-Keeps (watched w) (not (reduced_chi chi).completed_before) _ _
        (record { keeps = λ api h. refl })
        (>>=-Keeps (watched w) _ _ (build_connection_details-Holds urls instance_ _)
          (λ details. record { keeps = λ api h. refl }))

  keeper_status-Holds :
      (instance_ : Instance) (conn : Option ConnectionDetails)
      → Holds w (keeper_status instance_ conn)
  unfolding keeper_status replicated_status
  keeper_status-Holds instance_ conn = record { keeps = λ api h. ground arith }

  ready_status-Holds :
      (urls : Urls) (instance_ : Instance) (chi : Option Chi)
      → Holds w (ready_status urls instance_ chi)
  unfolding ready_status
  ready_status-Holds urls instance_ chi =
      >>=-Keeps (watched w) _ _ (build_connection_details-Holds urls instance_ _)
        (λ details. record { keeps = λ api h. refl })

  server_certificate_issued-Holds :
      (instance_ : Instance) → Holds w (server_certificate_issued instance_)
  unfolding server_certificate_issued
  server_certificate_issued-Holds instance_ = record { keeps = λ api h. ground arith }

  certificate_status-Holds :
      (urls : Urls) (instance_ : Instance) (chi : Option Chi) (conn : Option ConnectionDetails)
      → Holds w (certificate_status urls instance_ chi conn)
  unfolding certificate_status
  certificate_status-Holds urls instance_ chi conn =
      if-Keeps (watched w) (not (Tls.tls_enabled instance_)) _ _
        (ready_status-Holds urls instance_ chi)
        (>>=-Keeps (watched w) _ _ (server_certificate_issued-Holds instance_) (λ issued.
          if-Keeps (watched w) issued _ _ (ready_status-Holds urls instance_ chi)
            (record { keeps = λ api h. refl })))

  or_else-Holds :
      (st : Option Status) (next : Exec Status) → Holds w next → Holds w (or_else st next)
  unfolding or_else
  or_else-Holds none next k = k
  or_else-Holds (some st) next k = record { keeps = λ api h. refl }

  status_of-Holds : (urls : Urls) (instance_ : Instance) → Holds w (status_of urls instance_)
  unfolding status_of
  status_of-Holds urls instance_ =
      >>=-Keeps (watched w) (get_chi instance_.name) _ (record { keeps = λ api h. refl })
        (λ answer.
          >>=-Keeps (watched w) (lift (optional_result instance_.name answer)) _
            (lift-Keeps (watched w) _)
            (λ chi. >>=-Keeps (watched w) _ _ (served_details-Holds urls instance_ chi) (λ conn.
              >>=-Keeps (watched w) _ _ (keeper_status-Holds instance_ conn) (λ keeper.
                or_else-Holds keeper _ (
                  or_else-Holds (installation_status (reduced_chi chi) (in_progress conn)) _
                    (certificate_status-Holds urls instance_ chi conn))))))

  report_outcome-Holds :
      (env : Surroundings) (instance_ : Instance) (outcome : Result Status)
      → Holds w (report_outcome env instance_ outcome)
  unfolding report_outcome report_status
  report_outcome-Holds env instance_ (ok st) = record { keeps = λ api h. ground arith }
  report_outcome-Holds env instance_ (err e) = record { keeps = λ api h. refl }

  pub publish-Holds :
      (env : Surroundings) (instance_ : Instance) (outcome : Result (Unit {0}))
      → Holds w (publish env instance_ outcome)
  unfolding publish
  publish-Holds env instance_ (ok tt) = record { keeps = λ api h. refl }
  publish-Holds env instance_ (err e) =
      if-Keeps (watched w) (not (is_wait_error e)) _ _ (record { keeps = λ api h. refl })
        (>>=-Keeps (watched w) (attempt (status_of env.urls instance_)) _
          (attempt-Keeps (watched w) _ (status_of-Holds env.urls instance_))
          (λ answer. report_outcome-Holds env instance_ answer))

  -- Publishing adds nothing to what the resources of a Sync do.
  pub sync-KeepsOn :
      (env : Surroundings) (instance_ : Instance) (api : Api)
      → KeepsOn (watched w) api (sync_resources env instance_)
      → KeepsOn (watched w) api (sync env instance_)
  unfolding sync
  sync-KeepsOn env instance_ api resources =
      >>=-KeepsOn (watched w) api (attempt (sync_resources env instance_)) _
        (record { keeps = λ h. resources.keeps h })
        (λ outcome.
          >>=-KeepsOn (watched w) api (publish env instance_ outcome) (λ done. lift outcome)
            (Keeps-KeepsOn (watched w) api _ (publish-Holds env instance_ outcome))
            (λ done. record { keeps = λ h. refl }))
