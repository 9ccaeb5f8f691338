-- ===== src/NetPol/Connections.antt =====
-- Which pod may connect to which port of another, under the NetworkPolicies that are applied. A pod
-- that no policy selects accepts every connection, another one those that a policy that selects it
-- admits. A policy admits what one of its rules admits; a rule with no peers admits everyone, and one
-- with no ports every port (Kubernetes' documentation).

use provider_altinity_clickh.Prelude.{ℕ, String, ◌≡◌, ◌⊎◌, some, List, [], ◌∷◌, All}
use provider_altinity_clickh.Cluster.{History, Object, applied}
use provider_altinity_clickh.Cluster.Secret.{Data, lookup}
use provider_altinity_clickh.Cluster.Objects.{Peer, pods, IngressRule, NetworkPolicy}

pub record ClusterPod : Type 0 where
  pub namespace : String
  pub labels : Data

abbrev pub Labelled : String → String → ClusterPod → Type 0
Labelled key value pod = lookup key pod.labels ≡ some value

-- The pods that a peer of a policy in the namespace means: those with a label in that namespace, or
-- the operator's.
abbrev pub IsPeer : String → Peer → ClusterPod → Type 0
IsPeer namespace (pods key value) pod = (pod.namespace ≡ namespace) × Labelled key value pod
IsPeer namespace (Peer.operator other labels) pod =
    (pod.namespace ≡ other) × All (λ l. Labelled l.0 l.1 pod) labels

abbrev OneOf : ℕ → List ℕ → Type 0
OneOf port [] = ⊥
OneOf port (p ∷ ports) = (port ≡ p) ⊎ OneOf port ports

abbrev PortAdmitted : ℕ → List ℕ → Type 0
PortAdmitted port [] = Unit
PortAdmitted port ports = OneOf port ports

module _ (Is : Peer → Type 0) (port : ℕ) where
  abbrev SomePeer : List Peer → Type 0
  SomePeer [] = ⊥
  SomePeer (peer ∷ peers) = Is peer ⊎ SomePeer peers

  abbrev PeerAdmitted : List Peer → Type 0
  PeerAdmitted [] = Unit
  PeerAdmitted peers = SomePeer peers

  abbrev Admits : List IngressRule → Type 0
  Admits [] = ⊥
  Admits (rule ∷ rules) = (PeerAdmitted rule.from × PortAdmitted port rule.ports) ⊎ Admits rules

  -- Policies that select pods as `Selects` says.
  module _ (Selects : String × String → Type 0) where
    abbrev Guarded : List NetworkPolicy → Type 0
    Guarded [] = ⊥
    Guarded (policy ∷ policies) = Selects policy.pod_selector ⊎ Guarded policies

    abbrev Admitted : List NetworkPolicy → Type 0
    Admitted [] = ⊥
    Admitted (policy ∷ policies) =
        (Selects policy.pod_selector × Admits policy.ingress) ⊎ Admitted policies

    abbrev pub Accepts : List NetworkPolicy → Type 0
    Accepts policies = (¬ Guarded policies) ⊎ Admitted policies

-- Under these policies of a namespace the pod `to` accepts a connection of `from` to the port.
abbrev pub Connects : String → List NetworkPolicy → ClusterPod → ClusterPod → ℕ → Type 0
Connects namespace policies from to port =
    Accepts (λ peer. IsPeer namespace peer from) port
      (λ selector. (to.namespace ≡ namespace) × Labelled selector.0 selector.1 to) policies

-- The policies that the calls of a history applied.
abbrev pub applied_policies : History → List NetworkPolicy
applied_policies [] = []
applied_policies (applied (Object.network_policy policy) ∷ h) = policy ∷ applied_policies h
applied_policies (_ ∷ h) = applied_policies h
