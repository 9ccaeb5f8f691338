-- ===== src/Watches.antt =====
-- internal/provider/tls.go and provider.go: which changes of watched objects reconcile an Instance.
pub mod Addresses
use provider_altinity_clickh.Prelude.{
  String, Bool, true, false, not, ◌&&◌, ◌||◌, List, [], ◌∷◌, if◌then◌else◌,
}
use provider_altinity_clickh.Prelude.Text.{str_eq, is_empty}
use provider_altinity_clickh.Common.{label_chi_name, provider_name}
use provider_altinity_clickh.Cluster.{Ingress, LiveService}
use provider_altinity_clickh.Cluster.Secret.{Data, get}
use provider_altinity_clickh.Tls.{client_service_name}

-- A Service of the cluster, with what the watch reads of it.
pub record WatchedService : Type 0 where
  pub name : String
  pub namespace : String
  pub labels : Data
  pub live : LiveService

abbrev pub label_operator_service : String
label_operator_service = "clickhouse.altinity.com/Service"

abbrev pub operator_service_cr : String
operator_service_cr = "chi"

-- instanceForClientService: the namespaces and names of the Instances to reconcile.
unfoldable pub instance_for_client_service : WatchedService → List (String × String)
instance_for_client_service service =
    let chi_name = get label_chi_name service.labels in
    if is_empty chi_name
      || not (str_eq (get label_operator_service service.labels) operator_service_cr)
      || not (str_eq service.name (client_service_name chi_name))
    then []
    else (service.namespace, chi_name) ∷ []

abbrev pub is_load_balancer : LiveService → Bool
is_load_balancer service = str_eq service.service_type "LoadBalancer"

abbrev pub same_ingress : List Ingress → List Ingress → Bool
same_ingress [] [] = true
same_ingress (a ∷ as_) (b ∷ bs) =
    str_eq a.hostname b.hostname && str_eq a.ip b.ip && same_ingress as_ bs
same_ingress _ _ = false

-- The four events of a watch.
pub data ServiceEvent : Type 0 where
  created : LiveService → ServiceEvent
  updated : LiveService → LiveService → ServiceEvent
  removed : ServiceEvent
  generic : ServiceEvent

-- loadBalancerAddressChanged
unfoldable pub load_balancer_address_changed : ServiceEvent → Bool
load_balancer_address_changed (created service) = is_load_balancer service
load_balancer_address_changed (updated before after) =
    is_load_balancer after && not (same_ingress before.ingress after.ingress)
load_balancer_address_changed removed = false
load_balancer_address_changed generic = false
