-- ===== src/NetPol.antt =====
-- internal/provider/netpol.go: the NetworkPolicies that close the plaintext ports and Keeper. What
-- the process finds in its environment is a parameter.
pub mod Connections
pub mod Access
use provider_altinity_clickh.Prelude.{
  ℕ, String, Bool, true, false, ◌&&◌, Option, none, some, List, [], ◌∷◌, if◌then◌else◌, is_some,
}
use provider_altinity_clickh.Prelude.Text.{is_empty, trim_space, ◌<>◌}
use provider_altinity_clickh.Prelude.Result.{failure, Result, ok, err}
use provider_altinity_clickh.Prelude.Result
use provider_altinity_clickh.Common.{
  env_operator_namespace, env_operator_pod_labels, default_operator_pod_labels,
  plaintext_policy_suffix, keeper_policy_suffix, label_chi_name, label_chk_name, http_port,
  tcp_port, https_port, tcp_secure_port, metrics_port, interserver_http_port,
  interserver_https_port, keeper_port, keeper_secure_port, keeper_raft_port,
}
use provider_altinity_clickh.Operator.{Chi}
use provider_altinity_clickh.Instance.{Instance, is_replicated_topology}
use provider_altinity_clickh.Cluster.Objects.{Peer, pods, IngressRule, NetworkPolicy}
use provider_altinity_clickh.Cluster.{
  Object, Exec, pure, lift, ◌>>=◌, ◌>>◌, wrap, wrap_error, optional_result, get_other, apply,
  delete, network_policy_kind,
}
use provider_altinity_clickh.Tls.{keeper_cr_name}
use provider_altinity_clickh.Expose.{applied_tls_required}

unfoldable pub plaintext_policy : Instance → Peer → NetworkPolicy
plaintext_policy instance_ op = record {
  name = instance_.name <> plaintext_policy_suffix;
  pod_selector = (label_chi_name, instance_.name);
  ingress =
      record { from = []; ports = https_port ∷ tcp_secure_port ∷ metrics_port ∷ [] }
      ∷ record {
        from = pods label_chi_name instance_.name ∷ op ∷ [];
        ports = http_port ∷ tcp_port ∷ interserver_http_port ∷ interserver_https_port ∷ [];
      }
      ∷ [];
}

unfoldable pub keeper_policy : Instance → Peer → NetworkPolicy
keeper_policy instance_ op =
    let keeper = pods label_chk_name (keeper_cr_name instance_.name) in
    record {
      name = instance_.name <> keeper_policy_suffix;
      pod_selector = (label_chk_name, keeper_cr_name instance_.name);
      ingress =
          record {
            from = pods label_chi_name instance_.name ∷ [];
            ports = keeper_port ∷ keeper_secure_port ∷ [];
          }
          ∷ record {
            from = keeper ∷ [];
            ports = keeper_port ∷ keeper_secure_port ∷ keeper_raft_port ∷ [];
          }
          ∷ record { from = op ∷ []; ports = [] }
          ∷ [];
    }

-- The two variables of the environment, the file with the Pod's own namespace if it can be read, and
-- labels.ConvertSelectorToLabelsMap.
pub record OperatorEnvironment : Type 0 where
  pub operator_namespace : String
  pub operator_pod_labels : String
  pub namespace_file : Option String
  pub selector_labels : String → Result (List (String × String))

namespace_of : Option String → Result String
namespace_of none = err (failure ("operator namespace unknown: set " <> env_operator_namespace))
namespace_of (some content) = ok (trim_space content)

unfoldable pub resolve_namespace : OperatorEnvironment → Result String
unfolding namespace_of
resolve_namespace environment =
    if is_empty environment.operator_namespace
    then namespace_of environment.namespace_file
    else ok environment.operator_namespace

unfoldable pub operator_selector : OperatorEnvironment → String
operator_selector environment =
    if is_empty environment.operator_pod_labels
    then default_operator_pod_labels
    else environment.operator_pod_labels

-- operatorPeer
unfoldable pub operator_peer : OperatorEnvironment → Result Peer
operator_peer environment = Result.◌>>=◌ (resolve_namespace environment) (λ namespace.
    Result.◌>>=◌
      (wrap_error ("parse " <> env_operator_pod_labels)
        (environment.selector_labels (operator_selector environment)))
      (λ pod_labels. ok (Peer.operator namespace pod_labels)))

module _ (environment : OperatorEnvironment) where
  -- reconcilePolicy: apply the policy when it is wanted, and remove it otherwise.
  unfoldable pub reconcile_policy : String → Bool → (Peer → NetworkPolicy) → Exec (Unit {0})
  reconcile_policy name true build = do
    op ← lift (operator_peer environment)
    wrap ("apply NetworkPolicy " <> name) (apply (Object.network_policy (build op)))
  reconcile_policy name false build = do
    answer ← get_other network_policy_kind name
    found ← lift (optional_result name answer)
    if is_some found then delete network_policy_kind name else pure tt

  unfoldable pub reconcile_plaintext_policy : Instance → Chi → Exec (Unit {0})
  unfolding reconcile_policy
  reconcile_plaintext_policy instance_ chi =
      let required = applied_tls_required chi in
      do
        reconcile_policy (instance_.name <> plaintext_policy_suffix) required
            (plaintext_policy instance_)
        reconcile_policy (instance_.name <> keeper_policy_suffix)
            (required && is_replicated_topology instance_) (keeper_policy instance_)
