-- ===== src/Cluster/Objects.antt =====
-- The objects besides CHI, CHK and Secrets that the provider applies: cert-manager's issuers and
-- certificates, NetworkPolicies and the PodMonitor.
use provider_altinity_clickh.Prelude.{ℕ, String, Bool, List}

pub record IssuerReference : Type 0 where
  pub name : String
  pub kind : String
  pub group : String

pub data IssuerConfig : Type 0 where
  self_signed : IssuerConfig
  ca : String → IssuerConfig

pub record Certificate : Type 0 where
  pub name : String
  pub is_ca : Bool
  pub secret_name : String
  pub common_name : String
  pub dns_names : List String
  pub ip_addresses : List String
  pub issuer_ref : IssuerReference

-- `pods key value` selects the pods of the policy's namespace with that label; `operator` selects
-- pods with labels in a namespace by name.
pub data Peer : Type 0 where
  pods : String → String → Peer
  operator : String → List (String × String) → Peer

-- A rule with no peers admits everyone, one with no ports every port.
pub record IngressRule : Type 0 where
  pub from : List Peer
  pub ports : List ℕ

pub record NetworkPolicy : Type 0 where
  pub name : String
  pub pod_selector : String × String
  pub ingress : List IngressRule

pub record PodMonitor : Type 0 where
  pub name : String
  pub selector : String × String
  pub port : String
  pub path : String
