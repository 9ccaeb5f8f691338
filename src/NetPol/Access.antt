-- ===== src/NetPol/Access.antt =====
-- Which pods may connect to ClickHouse's and to Keeper's pods once the NetworkPolicies are reconciled.
use mathlib.Core.Path.{subst}
use provider_altinity_clickh.Prelude.Text.{◌<>◌}
use provider_altinity_clickh.Prelude.{
  ℕ, String, ◌≡◌, refl, ap, sym, ◌∙◌, ◌↔◌, ◌⊎◌, Bool, true, false, List, [], ◌∷◌, arith, ◌&&◌,
}
use provider_altinity_clickh.Prelude.Result.{Result, ok, err}
use provider_altinity_clickh.Common.{
  plaintext_policy_suffix, keeper_policy_suffix, label_chi_name, label_chk_name, http_port,
  tcp_port, https_port, tcp_secure_port, metrics_port, interserver_http_port,
  interserver_https_port, keeper_port, keeper_secure_port, keeper_raft_port,
}
use provider_altinity_clickh.Operator.{Chi}
use provider_altinity_clickh.Instance.{Instance, is_replicated_topology}
use provider_altinity_clickh.Cluster.{
  Api, History, Exec, Object, applied, continue, wrap_error, ◌>>◌,
}
use provider_altinity_clickh.Cluster.Objects.{Peer, pods, NetworkPolicy}
use provider_altinity_clickh.Expose.{applied_tls_required}
use provider_altinity_clickh.Tls.{keeper_cr_name}
use provider_altinity_clickh.NetPol.{
  OperatorEnvironment, plaintext_policy, keeper_policy, operator_peer, reconcile_policy,
  reconcile_plaintext_policy,
}
use provider_altinity_clickh.NetPol.Connections.{
  ClusterPod, Labelled, IsPeer, Accepts, Connects, applied_policies,
}

-- The policies that are wanted with TLS required, the last one applied first.
abbrev wanted : Instance → Peer → Bool → List NetworkPolicy
wanted instance_ op true = keeper_policy instance_ op ∷ plaintext_policy instance_ op ∷ []
wanted instance_ op false = plaintext_policy instance_ op ∷ []

module _ (Is : Peer → Type 0) (port : ℕ) (Selects : String × String → Type 0) (instance_ : Instance)
    (op : Peer) where
  abbrev ClickhouseAccess : Type 0
  ClickhouseAccess =
      ((port ≡ https_port) ⊎ (port ≡ tcp_secure_port) ⊎ (port ≡ metrics_port))
      ⊎ ((Is (pods label_chi_name instance_.name) ⊎ Is op)
          × ((port ≡ http_port)
              ⊎ (port ≡ tcp_port)
              ⊎ (port ≡ interserver_http_port)
              ⊎ (port ≡ interserver_https_port)))

  abbrev KeeperAccess : Type 0
  KeeperAccess =
      Is op
      ⊎ (Is (pods label_chi_name instance_.name)
          × ((port ≡ keeper_port) ⊎ (port ≡ keeper_secure_port)))
      ⊎ (Is (pods label_chk_name (keeper_cr_name instance_.name))
          × ((port ≡ keeper_port) ⊎ (port ≡ keeper_secure_port) ⊎ (port ≡ keeper_raft_port)))

  clickhouse-Accepts :
      (replicated : Bool)
      → Selects (label_chi_name, instance_.name)
      → ¬ Selects (label_chk_name, keeper_cr_name instance_.name)
      → Accepts Is port Selects (wanted instance_ op replicated) ↔ ClickhouseAccess
  unfolding plaintext_policy keeper_policy
  clickhouse-Accepts true s n = ground arith
  clickhouse-Accepts false s n = ground arith

  keeper-Accepts :
      Selects (label_chk_name, keeper_cr_name instance_.name)
      → ¬ Selects (label_chi_name, instance_.name)
      → Accepts Is port Selects (wanted instance_ op true) ↔ KeeperAccess
  unfolding plaintext_policy keeper_policy
  keeper-Accepts s n = ground arith

then_policies :
    (r : Result (Unit {0})) (m : Exec (Unit {0})) (api : Api) (h : History)
    → (continue r (λ done. m) api h).0 ≡ ok tt
    → applied_policies (continue r (λ done. m) api h).1 ≡ applied_policies (m api h).1
then_policies (ok tt) m api h e = refl
then_policies (err x) m api h e = ground arith

module _ (environment : OperatorEnvironment) (op : Peer) (api : Api)
    (is_op : operator_peer environment ≡ ok op) where
  wanted_policy :
      (name : String) (build : Peer → NetworkPolicy) (h : History)
      → reconcile_policy environment name true build api h ≡ (
        wrap_error
            ("apply NetworkPolicy " <> name)
            (api.apply h (Object.network_policy (build op))),
        applied (Object.network_policy (build op)) ∷ h,
      )
  unfolding reconcile_policy
  wanted_policy name build h = rw is_op refl

  unwanted_policy :
      (name : String) (build : Peer → NetworkPolicy) (h : History)
      → applied_policies (reconcile_policy environment name false build api h).1
        ≡ applied_policies h
  unfolding reconcile_policy
  unwanted_policy name build h = ground arith

  -- What is applied for a policy that may be wanted, after the one that is.
  applied_second :
      (instance_ : Instance) (name : String) (replicated : Bool) (h : History)
      → applied_policies h ≡ plaintext_policy instance_ op ∷ []
      → applied_policies
          (reconcile_policy environment name replicated (keeper_policy instance_) api h).1
        ≡ wanted instance_ op replicated
  applied_second instance_ name true h e =
      ap (λ r. applied_policies r.1) (wanted_policy name (keeper_policy instance_) h)
      ∙ ap (λ ps. keeper_policy instance_ op ∷ ps) e
  applied_second instance_ name false h e = unwanted_policy name (keeper_policy instance_) h ∙ e

  applied_both :
      (instance_ : Instance) (first second : String) (replicated : Bool) (h : History)
      → applied_policies h ≡ []
      → let m =
          reconcile_policy environment first true (plaintext_policy instance_)
          >> reconcile_policy environment second replicated (keeper_policy instance_) in
        (m api h).0 ≡ ok tt → applied_policies (m api h).1 ≡ wanted instance_ op replicated
  applied_both instance_ first second replicated h none_ e =
      let plaintext = reconcile_policy environment first true (plaintext_policy instance_) in
      let rest = reconcile_policy environment second replicated (keeper_policy instance_) in
      let g = (plaintext api h).1 in
      then_policies (plaintext api h).0 rest api g e
      ∙ applied_second instance_ second replicated g (
          ap (λ r. applied_policies r.1) (wanted_policy first (plaintext_policy instance_) h)
          ∙ ap (λ ps. plaintext_policy instance_ op ∷ ps) none_)

  policies_applied :
      (instance_ : Instance) (chi : Chi) (h : History)
      → applied_tls_required chi ≡ true
      → applied_policies h ≡ []
      → (reconcile_plaintext_policy environment instance_ chi api h).0 ≡ ok tt
      → applied_policies (reconcile_plaintext_policy environment instance_ chi api h).1
        ≡ wanted instance_ op (is_replicated_topology instance_)
  unfolding reconcile_plaintext_policy
  policies_applied instance_ chi h required none_ =
      subst
        (λ b.
          let m =
            reconcile_policy environment (instance_.name <> plaintext_policy_suffix) b
              (plaintext_policy instance_)
            >> reconcile_policy environment (instance_.name <> keeper_policy_suffix)
                (b && is_replicated_topology instance_) (keeper_policy instance_) in
          (m api h).0 ≡ ok tt
          → applied_policies (m api h).1 ≡ wanted instance_ op (is_replicated_topology instance_))
        (sym required) (applied_both instance_ _ _ (is_replicated_topology instance_) h none_)

-- When no policy was applied before, and reconciling them with TLS required succeeds, then under
-- the policies that it applied a ClickHouse pod of the Instance, one that is not labelled as
-- Keeper's, accepts a connection of a pod to a port exactly when it is a secure port or the metrics
-- port, or it is a plaintext or interserver port and the pod is the operator's or one of the
-- Instance's own ClickHouse pods.
pub plaintext_policy_iff :
    (environment : OperatorEnvironment) (op : Peer) (instance_ : Instance) (chi : Chi) (api : Api)
    (h : History) (from to : ClusterPod) (port : ℕ)
    → operator_peer environment ≡ ok op
    → applied_tls_required chi ≡ true
    → applied_policies h ≡ []
    → (reconcile_plaintext_policy environment instance_ chi api h).0 ≡ ok tt
    → to.namespace ≡ instance_.namespace
    → Labelled label_chi_name instance_.name to
    → ¬ Labelled label_chk_name (keeper_cr_name instance_.name) to
    → Connects instance_.namespace
        (applied_policies (reconcile_plaintext_policy environment instance_ chi api h).1)
        from
        to
        port
      ↔ (((port ≡ https_port) ⊎ (port ≡ tcp_secure_port) ⊎ (port ≡ metrics_port))
          ⊎ ((IsPeer instance_.namespace (pods label_chi_name instance_.name) from
                ⊎ IsPeer instance_.namespace op from)
              × ((port ≡ http_port)
                  ⊎ (port ≡ tcp_port)
                  ⊎ (port ≡ interserver_http_port)
                  ⊎ (port ≡ interserver_https_port))))
plaintext_policy_iff environment op instance_ chi api h from to port is_op required none_ done there
      selected other =
    subst
      (λ policies.
        Connects instance_.namespace policies from to port
        ↔ ClickhouseAccess (λ peer. IsPeer instance_.namespace peer from) port
            (λ s. (to.namespace ≡ instance_.namespace) × Labelled s.0 s.1 to) instance_ op)
      (sym (policies_applied environment op api is_op instance_ chi h required none_ done))
      (clickhouse-Accepts (λ peer. IsPeer instance_.namespace peer from) port
        (λ s. (to.namespace ≡ instance_.namespace) × Labelled s.0 s.1 to) instance_ op
        (is_replicated_topology instance_) (there, selected) (λ k. other k.1))

-- In the replicated topology a Keeper pod of the Instance, one that is not labelled as ClickHouse's,
-- then accepts a connection exactly from the operator's pods to any port, from the Instance's
-- ClickHouse pods to a client port of Keeper, and from the Instance's Keeper pods to a client port
-- or the Raft port.
pub keeper_policy_iff :
    (environment : OperatorEnvironment) (op : Peer) (instance_ : Instance) (chi : Chi) (api : Api)
    (h : History) (from to : ClusterPod) (port : ℕ)
    → operator_peer environment ≡ ok op
    → applied_tls_required chi ≡ true
    → is_replicated_topology instance_ ≡ true
    → applied_policies h ≡ []
    → (reconcile_plaintext_policy environment instance_ chi api h).0 ≡ ok tt
    → to.namespace ≡ instance_.namespace
    → Labelled label_chk_name (keeper_cr_name instance_.name) to
    → ¬ Labelled label_chi_name instance_.name to
    → Connects instance_.namespace
        (applied_policies (reconcile_plaintext_policy environment instance_ chi api h).1)
        from
        to
        port
      ↔ (IsPeer instance_.namespace op from
          ⊎ (IsPeer instance_.namespace (pods label_chi_name instance_.name) from
              × ((port ≡ keeper_port) ⊎ (port ≡ keeper_secure_port)))
          ⊎ (IsPeer instance_.namespace (pods label_chk_name (keeper_cr_name instance_.name)) from
              × ((port ≡ keeper_port) ⊎ (port ≡ keeper_secure_port) ⊎ (port ≡ keeper_raft_port))))
keeper_policy_iff environment op instance_ chi api h from to port is_op required replicated none_
      done there selected other =
    subst
      (λ policies.
        Connects instance_.namespace policies from to port
        ↔ KeeperAccess (λ peer. IsPeer instance_.namespace peer from) port
            (λ s. (to.namespace ≡ instance_.namespace) × Labelled s.0 s.1 to) instance_ op)
      (sym (
        policies_applied environment op api is_op instance_ chi h required none_ done
        ∙ ap (wanted instance_ op) replicated))
      (keeper-Accepts (λ peer. IsPeer instance_.namespace peer from) port
        (λ s. (to.namespace ≡ instance_.namespace) × Labelled s.0 s.1 to) instance_ op
        (there, selected) (λ k. other k.1))
