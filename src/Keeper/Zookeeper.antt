-- ===== src/Keeper/Zookeeper.antt =====
-- internal/provider/keeper_tls.go: the Keeper endpoints that a CHI is wired to.
use mathlib.Core.Path.{subst}
use provider_altinity_clickh.Sizing.{replicas_count}
use provider_altinity_clickh.Prelude.{
  ℕ, ◌≡◌, refl, sym, ap, if-elim, ◌∙◌, eq_refl, String, Bool, true, none, some, List, [], ◌∷◌, ◌++◌,
  if◌then◌else◌, All, any, arith, ◌||◌,
}
use provider_altinity_clickh.Prelude.Int.{ℤ, pos, ◌==ℤ◌}
use provider_altinity_clickh.Prelude.Text.{str_eq, ◌<>◌}
use provider_altinity_clickh.Common.{keeper_secure_port}
use provider_altinity_clickh.Operator.{Configuration, ZookeeperConfig, ZookeeperNode, Chi}
use provider_altinity_clickh.Instance.{Instance, is_replicated_topology}
use provider_altinity_clickh.Keeper.{chi_keeper_port}
use provider_altinity_clickh.Tls.{
  server_dns_names, trim_cr_name, keeper_cr_name, keeper_client_service_names, keeper_host_names,
  numbered, with_client_suffix, service_dns_names, keeper_dns_names,
}
use provider_altinity_clickh.Tls.Resources.{cluster_dns_names, server_certificate}
use provider_altinity_clickh.Cluster.Objects.{IssuerReference}

nodes_of : List String → String → ℤ → List ZookeeperNode
nodes_of [] namespace port = []
nodes_of (svc ∷ services) namespace port =
    record {
      host = svc <> "." <> namespace <> ".svc.cluster.local";
      port = some port;
      secure = port ==ℤ pos keeper_secure_port;
    }
    ∷ nodes_of services namespace port

-- Port 0 is the operator's Keeper reference. The ports used fit an int32.
unfoldable pub keeper_zookeeper : Instance → ℤ → ZookeeperConfig
unfolding nodes_of
keeper_zookeeper instance_ port =
    if port ==ℤ pos 0
    then record {
      nodes = [];
      keeper = some (keeper_cr_name instance_.name);
      session_timeout_ms = 30000;
      operation_timeout_ms = 10000;
    }
    else record {
      nodes = nodes_of (keeper_client_service_names instance_.name) instance_.namespace port;
      keeper = none;
      session_timeout_ms = 30000;
      operation_timeout_ms = 10000;
    }

-- `chi` wired to Keeper on `port`
abbrev pub wired : Instance → ℤ → Configuration → Chi → Chi
wired instance_ port configuration chi = record chi {
  spec = record (chi.spec) {
    configuration =
        some (record configuration { zookeeper = some (keeper_zookeeper instance_ port) });
  };
}

-- The port read back from a CHI that was wired to Keeper is the port it was wired
-- on, for every port that is not negative.
pub chi_keeper_port-wired :
    (instance_ : Instance) (port : ℕ) (configuration : Configuration) (chi : Chi)
    → chi_keeper_port (wired instance_ (pos port) configuration chi) ≡ pos port
unfolding chi_keeper_port keeper_zookeeper keeper_client_service_names keeper_host_names numbered
    with_client_suffix
chi_keeper_port-wired instance_ port configuration chi = ground arith

abbrev pub IsListed : List String → String → Type 0
IsListed names name = any (λ n. str_eq n name) names ≡ true

any-append : (p : String → Bool) (xs ys : List String) → any p (xs ++ ys) ≡ (any p xs || any p ys)
any-append p [] ys = refl
any-append p (x ∷ xs) ys = let ih = any-append p xs ys in ground arith

service_dns_names-append :
    (xs ys : List String) (namespace : String)
    → service_dns_names (xs ++ ys) namespace
      ≡ service_dns_names xs namespace ++ service_dns_names ys namespace
unfolding service_dns_names
service_dns_names-append [] ys namespace = refl
service_dns_names-append (x ∷ xs) ys namespace =
    ap
      (λ rest.
        x
        ∷ (x <> "." <> namespace)
        ∷ (x <> "." <> namespace <> ".svc")
        ∷ (x <> "." <> namespace <> ".svc.cluster.local")
        ∷ rest)
      (service_dns_names-append xs ys namespace)

Hosts : List String → List ZookeeperNode → Type 0
Hosts names nodes = All (λ node. IsListed names node.host) nodes

Hosts-append :
    (pre names : List String) (nodes : List ZookeeperNode)
    → Hosts names nodes
    → Hosts (pre ++ names) nodes
unfolding Hosts
Hosts-append pre names [] a = tt
Hosts-append pre names (node ∷ nodes) (is_here, rest) = (
  any-append (λ n. str_eq n node.host) pre names ∙ ground arith,
  Hosts-append pre names nodes rest,
)

-- Every node is at the full name of a listed Service.
Hosts-nodes_of :
    (services : List String) (namespace : String) (port : ℤ)
    → Hosts (service_dns_names services namespace) (nodes_of services namespace port)
unfolding Hosts nodes_of service_dns_names
Hosts-nodes_of [] namespace port = tt
Hosts-nodes_of (svc ∷ services) namespace port =
    let full = svc <> "." <> namespace <> ".svc.cluster.local" in
    (
      ground (arith, eq_refl full),
      Hosts-append
          (svc ∷ (svc <> "." <> namespace) ∷ (svc <> "." <> namespace <> ".svc") ∷ full ∷ [])
          (service_dns_names services namespace) (nodes_of services namespace port)
          (Hosts-nodes_of services namespace port),
    )

append-Hosts :
    (names post : List String) (nodes : List ZookeeperNode)
    → Hosts names nodes
    → Hosts (names ++ post) nodes
unfolding Hosts
append-Hosts names post [] a = tt
append-Hosts names post (node ∷ nodes) (is_here, rest) = (
  any-append (λ n. str_eq n node.host) names post ∙ ground arith,
  append-Hosts names post nodes rest,
)

Hosts-keeper_dns_names :
    (instance_ : Instance) (port : ℤ)
    → Hosts
        (keeper_dns_names instance_.name instance_.namespace)
        (nodes_of (keeper_client_service_names instance_.name) instance_.namespace port)
unfolding keeper_dns_names
Hosts-keeper_dns_names instance_ port =
    let clients = keeper_client_service_names instance_.name in
    let namespace = instance_.namespace in
    let others =
      ("keeper-" <> trim_cr_name (keeper_cr_name instance_.name))
      ∷ keeper_host_names instance_.name in
    subst (λ names. Hosts names (nodes_of clients namespace port))
      (sym (service_dns_names-append others clients namespace))
      (Hosts-append (service_dns_names others namespace) (service_dns_names clients namespace)
        (nodes_of clients namespace port) (Hosts-nodes_of clients namespace port))

Hosts-cluster_dns_names :
    (instance_ : Instance) (nodes : List ZookeeperNode)
    → is_replicated_topology instance_ ≡ true
    → Hosts (keeper_dns_names instance_.name instance_.namespace) nodes
    → Hosts (cluster_dns_names instance_) nodes
unfolding cluster_dns_names
Hosts-cluster_dns_names instance_ nodes replicated a =
    if-elim (λ names. Hosts names nodes) (is_replicated_topology instance_)
      (λ e.
        Hosts-append
          (server_dns_names instance_.name instance_.namespace (replicas_count instance_))
          (keeper_dns_names instance_.name instance_.namespace) nodes a)
      (λ e. absurd (ground arith))

-- In the replicated topology the server certificate, whatever its issuer and whatever external
-- addresses it has, lists the host of every Keeper endpoint that ClickHouse is wired to, on every
-- port.
pub server_certificate-keeper_zookeeper :
    (instance_ : Instance) (port : ℕ) (issuer_ref : IssuerReference) (names ips : List String)
    → is_replicated_topology instance_ ≡ true
    → All
        (λ node.
          IsListed (server_certificate instance_ issuer_ref (names, ips)).dns_names node.host)
        (keeper_zookeeper instance_ (pos port)).nodes
unfolding server_certificate keeper_zookeeper Hosts
server_certificate-keeper_zookeeper instance_ port issuer_ref names ips replicated =
    let nodes =
      nodes_of (keeper_client_service_names instance_.name) instance_.namespace (pos port) in
    if-elim (λ (zk : ZookeeperConfig). Hosts (cluster_dns_names instance_ ++ names) zk.nodes)
      (pos port ==ℤ pos 0) (λ e. tt)
      (λ e. append-Hosts (cluster_dns_names instance_) names nodes (
        Hosts-cluster_dns_names instance_ nodes replicated
          (Hosts-keeper_dns_names instance_ (pos port))))
