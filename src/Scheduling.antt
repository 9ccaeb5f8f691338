-- ===== src/Scheduling.antt =====
-- internal/provider/scheduling.go: where the pods of ClickHouse and Keeper are placed.
pub mod Placement
use provider_altinity_clickh.Prelude.{String, Option, none, some, [], ◌∷◌}
use provider_altinity_clickh.Common.{anti_affinity_hostname_weight, anti_affinity_zone_weight}
use provider_altinity_clickh.Operator.{PodSpec, Affinity, preferred}
use provider_altinity_clickh.Instance.{SchedulingPolicy}
use provider_altinity_clickh.Cluster.Secret.{Data}
use provider_altinity_clickh.Runtime.{Runtime}

-- corev1.LabelHostname and corev1.LabelTopologyZone
abbrev pub label_hostname : String
label_hostname = "kubernetes.io/hostname"

abbrev pub label_topology_zone : String
label_topology_zone = "topology.kubernetes.io/zone"

unfoldable pub default_affinity : Data → Affinity
default_affinity pod_labels = record {
  node_affinity = none;
  pod_affinity = none;
  pod_anti_affinity = some (
      preferred (
        record {
          weight = anti_affinity_hostname_weight;
          match_labels = pod_labels;
          topology_key = label_hostname;
        }
        ∷ record {
          weight = anti_affinity_zone_weight;
          match_labels = pod_labels;
          topology_key = label_topology_zone;
        }
        ∷ []));
}

unfoldable pub or_given : Affinity → Option Affinity → Affinity
or_given default_ none = default_
or_given default_ (some affinity) = affinity

unfoldable pub follow_policy : PodSpec → Option SchedulingPolicy → PodSpec
follow_policy spec none = spec
follow_policy spec (some policy) = record spec {
  scheduler_name = policy.scheduler_name;
  node_selector = policy.node_selector;
  tolerations = policy.tolerations;
}

policy_affinity : Option SchedulingPolicy → Option Affinity
policy_affinity none = none
policy_affinity (some policy) = policy.affinity

unfoldable pub apply_scheduling_policy :
    Runtime → PodSpec → Option SchedulingPolicy → Data → PodSpec
unfolding default_affinity or_given follow_policy policy_affinity
apply_scheduling_policy rt spec policy pod_labels = record (follow_policy spec policy) {
  affinity = some (or_given (default_affinity pod_labels) (policy_affinity policy));
  spread_constraints = rt.spread_constraints policy pod_labels;
}

-- The engine's node affinity, if its policy has one.
unfoldable pub engine_node_affinity : Option Affinity → Option String
engine_node_affinity none = none
engine_node_affinity (some affinity) = affinity.node_affinity

unfoldable pub apply_keeper_scheduling_policy : PodSpec → Option SchedulingPolicy → Data → PodSpec
unfolding default_affinity follow_policy policy_affinity engine_node_affinity
apply_keeper_scheduling_policy spec engine_policy pod_labels =
    record (follow_policy spec engine_policy) {
      affinity = some (record (default_affinity pod_labels) {
        node_affinity = engine_node_affinity (policy_affinity engine_policy);
      });
    }
