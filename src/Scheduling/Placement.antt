-- ===== src/Scheduling/Placement.antt =====
-- Keeper's pods are placed on the nodes of ClickHouse's pods, and spread among themselves.
use provider_altinity_clickh.Prelude.{
  String, ◌≡◌, refl, ◌∙◌, Option, none, some, [], ◌∷◌, ◌≤◌, ◌<◌, arith,
}
use provider_altinity_clickh.Operator.{PodSpec, Affinity, PodAntiAffinity, preferred, WeightedTerm}
use provider_altinity_clickh.Instance.{SchedulingPolicy}
use provider_altinity_clickh.Cluster.Secret.{Data}
use provider_altinity_clickh.Runtime.{Runtime}
use provider_altinity_clickh.Scheduling.{
  default_affinity, or_given, follow_policy, policy_affinity, apply_scheduling_policy,
  engine_node_affinity, apply_keeper_scheduling_policy,
}

abbrev anti_affinity : Option Affinity → Option PodAntiAffinity
anti_affinity none = none
anti_affinity (some affinity) = affinity.pod_anti_affinity

abbrev pod_affinity : Option Affinity → Option String
pod_affinity none = none
pod_affinity (some affinity) = affinity.pod_affinity

abbrev node_affinity : Option Affinity → Option String
node_affinity none = none
node_affinity (some affinity) = affinity.node_affinity

-- The same scheduler, node selector, tolerations and node affinity.
abbrev pub SameNodes : PodSpec → PodSpec → Type 0
SameNodes a b =
    (a.scheduler_name ≡ b.scheduler_name)
    × (a.node_selector ≡ b.node_selector)
    × (a.tolerations ≡ b.tolerations)
    × (node_affinity a.affinity ≡ node_affinity b.affinity)

-- A preference, of a weight that Kubernetes allows, to be in another `topology` than the pods with
-- these labels.
pub record IsApart (pod_labels : Data) (topology : String) (term : WeightedTerm) : Type 0 where
  pub topology_key : term.topology_key ≡ topology
  pub match_labels : term.match_labels ≡ pod_labels
  pub positive : 1 ≤ term.weight
  pub bounded : term.weight ≤ 100

-- Pods that prefer other nodes than those of the pods with these labels, and less so other zones,
-- and follow no pods.
pub record SpreadsOver (pod_labels : Data) (a : PodSpec) : Type 0 where
  pub node : WeightedTerm
  pub zone : WeightedTerm
  pub terms : anti_affinity a.affinity ≡ some (preferred (node ∷ zone ∷ []))
  pub nodes : IsApart pod_labels "kubernetes.io/hostname" node
  pub zones : IsApart pod_labels "topology.kubernetes.io/zone" zone
  pub nodes_first : zone.weight < node.weight
  pub follows_none : pod_affinity a.affinity ≡ none

node_affinity-or_given :
    (pod_labels : Data) (given_ : Option Affinity)
    → (or_given (default_affinity pod_labels) given_).node_affinity ≡ node_affinity given_
unfolding or_given default_affinity
node_affinity-or_given pod_labels none = refl
node_affinity-or_given pod_labels (some affinity) = refl

keeper_spread :
    (keeper : PodSpec) (policy : Option SchedulingPolicy) (keeper_labels : Data)
    → SpreadsOver keeper_labels (apply_keeper_scheduling_policy keeper policy keeper_labels)
unfolding apply_keeper_scheduling_policy default_affinity
keeper_spread keeper policy keeper_labels = record {
  node = record {
    weight = 100;
    match_labels = keeper_labels;
    topology_key = "kubernetes.io/hostname";
  };
  zone = record {
    weight = 50;
    match_labels = keeper_labels;
    topology_key = "topology.kubernetes.io/zone";
  };
  terms = refl;
  nodes = record {
    topology_key = refl;
    match_labels = refl;
    positive = omega arith;
    bounded = omega arith;
  };
  zones = record {
    topology_key = refl;
    match_labels = refl;
    positive = omega arith;
    bounded = omega arith;
  };
  nodes_first = omega arith;
  follows_none = refl;
}

same_node_affinity : (given_ : Option Affinity) → node_affinity given_ ≡ engine_node_affinity given_
unfolding engine_node_affinity
same_node_affinity none = refl
same_node_affinity (some affinity) = refl

-- Two pod specs that are for the same nodes before the engine's scheduling policy is applied are so
-- after it, as ClickHouse's and as Keeper's, whatever the policy is; and Keeper's pods prefer other
-- nodes, and less so other zones, than pods with Keeper's own labels, whatever affinity the policy has.
pub keeper_placement :
    (rt : Runtime) (clickhouse keeper : PodSpec) (policy : Option SchedulingPolicy)
    (engine_labels keeper_labels : Data)
    → SameNodes clickhouse keeper
    → SameNodes
        (apply_scheduling_policy rt clickhouse policy engine_labels)
        (apply_keeper_scheduling_policy keeper policy keeper_labels)
      × SpreadsOver keeper_labels (apply_keeper_scheduling_policy keeper policy keeper_labels)
unfolding apply_scheduling_policy apply_keeper_scheduling_policy default_affinity or_given
    follow_policy policy_affinity engine_node_affinity
keeper_placement rt clickhouse keeper none engine_labels keeper_labels (s, n, t, a) =
    ((s, n, t, refl), keeper_spread keeper none keeper_labels)
keeper_placement rt clickhouse keeper (some policy) engine_labels keeper_labels same = (
  (
    refl,
    refl,
    refl,
    node_affinity-or_given engine_labels policy.affinity ∙ same_node_affinity policy.affinity,
  ),
  keeper_spread keeper (some policy) keeper_labels,
)
