-- ===== src/Keeper.antt =====
-- internal/provider/keeper_tls.go: how ClickHouse and Keeper are wired, and the next step of
-- switching the wiring to TLS or back.
pub mod Switch
pub mod Live
pub mod Zookeeper
use provider_altinity_clickh.Prelude.{
  Bool, true, false, not, ◌&&◌, ◌||◌, Option, none, some, List, [], ◌∷◌, if◌then◌else◌,
}
use provider_altinity_clickh.Prelude.Int.{ℤ, pos, minus_one, is_negative, is_positive, ◌==ℤ◌}
use provider_altinity_clickh.Common.{keeper_port, keeper_secure_port}
use provider_altinity_clickh.Operator.{
  Configuration, OperatorCluster, ZookeeperConfig, ZookeeperNode, Chi, Chk,
}

-- `port` 0 leaves the port to the operator's Keeper reference, the plaintext port.
pub record KeeperWiring : Type 0 where
  pub secure : Bool
  pub plaintext : Bool
  pub port : ℤ

-- What the operator has rolled out; `chi_port` is 0 for a Keeper reference, -1 without Keeper.
pub record KeeperState : Type 0 where
  pub chk_exists : Bool
  pub chk_rolled_out : Bool
  pub chk_secure : Bool
  pub chk_plaintext : Bool
  pub chi_exists : Bool
  pub chi_rolled_out : Bool
  pub chi_port : ℤ

unfoldable pub target_wiring : Bool → KeeperState → KeeperWiring
target_wiring true s = record { secure = true; plaintext = false; port = pos keeper_secure_port }
target_wiring false s = record {
  secure = false;
  plaintext = true;
  port = if is_positive s.chi_port || s.chk_secure then pos keeper_port else pos 0;
}

-- The switch that moves ClickHouse: it keeps its port until Keeper serves the target one.
unfoldable pub step_port : Bool → KeeperState → ℤ → ℤ
step_port tls s target =
    if is_negative s.chi_port || not s.chi_exists
    then target
    else if not s.chk_rolled_out
    then s.chi_port
    else if tls && s.chk_secure
    then target
    else if not tls && s.chk_plaintext
    then target
    else s.chi_port

-- The ports that Keeper keeps while ClickHouse still uses, or may still use, them.
unfoldable pub step_wiring : Bool → KeeperState → ℤ → KeeperWiring
step_wiring tls s port =
    let settled = s.chi_rolled_out && port ==ℤ s.chi_port in
    let on_secure = s.chi_port ==ℤ pos keeper_secure_port in
    let uses_secure = on_secure || (not settled && s.chk_secure && s.chi_exists) in
    let uses_plaintext =
      s.chi_exists && not (is_negative s.chi_port) && (not on_secure || not settled) in
    record { secure = tls || uses_secure; plaintext = not tls || uses_plaintext; port = port }

-- The step to apply now, and the target that it leads to.
unfoldable pub next_keeper_wiring : Bool → KeeperState → KeeperWiring × KeeperWiring
unfolding target_wiring step_port step_wiring
next_keeper_wiring tls s =
    let target = target_wiring tls s in (step_wiring tls s (step_port tls s target.port), target)

-- The client ports that a CHK serves, the secure one and the plaintext one.
abbrev flag : Bool → Option Bool → Bool
flag unset none = unset
flag unset (some value) = value

cluster_ports : List OperatorCluster → Bool × Bool
cluster_ports [] = (false, true)
cluster_ports (cluster ∷ _) = (flag false cluster.secure, flag true cluster.insecure)

configured_ports : Option Configuration → Bool × Bool
unfolding cluster_ports
configured_ports none = (false, true)
configured_ports (some configuration) = cluster_ports configuration.clusters

unfoldable pub chk_ports : Chk → Bool × Bool
unfolding configured_ports
chk_ports chk = configured_ports chk.spec.configuration

-- The port that a CHI wires ClickHouse to Keeper on.
reference_port : ZookeeperConfig → ℤ
reference_port zk = elim zk.keeper [ none ↦ minus_one | some _ ↦ pos 0 ]

first_port : ZookeeperConfig → List ZookeeperNode → ℤ
unfolding reference_port
first_port zk [] = reference_port zk
first_port zk (node ∷ _) = elim node.port [ none ↦ reference_port zk | some port ↦ port ]

zookeeper_port : Option ZookeeperConfig → ℤ
unfolding first_port
zookeeper_port none = minus_one
zookeeper_port (some zk) = first_port zk zk.nodes

configured_port : Option Configuration → ℤ
unfolding zookeeper_port
configured_port none = minus_one
configured_port (some configuration) = zookeeper_port configuration.zookeeper

unfoldable pub chi_keeper_port : Chi → ℤ
unfolding configured_port
chi_keeper_port chi = configured_port chi.spec.configuration
