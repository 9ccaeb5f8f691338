-- ===== src/Watches/Addresses.antt =====
-- No change of the addresses that go into the server certificate is passed over.
use provider_altinity_clickh.Prelude.{
  ◌≡◌, refl, String, true, List, [], ◌∷◌, arith, eq_iff, eq_refl, some, ◌≢◌, Bool-cases, inl, inr,
}
use provider_altinity_clickh.Prelude.Text.{is_empty_iff}
use provider_altinity_clickh.Common.{label_chi_name}
use provider_altinity_clickh.Tls.{client_service_name}
use provider_altinity_clickh.Cluster.Secret.{get}
use provider_altinity_clickh.Cluster.{Ingress, LiveService}
use provider_altinity_clickh.Tls.Resources.{service_addresses, ingress_names, ingress_ips}
use provider_altinity_clickh.Watches.{
  WatchedService, label_operator_service, operator_service_cr, instance_for_client_service,
  is_load_balancer, same_ingress, updated, load_balancer_address_changed,
}

same_ingress-names :
    (as_ bs : List Ingress) → same_ingress as_ bs ≡ true → ingress_names as_ ≡ ingress_names bs
unfolding ingress_names
same_ingress-names [] [] e = refl
same_ingress-names [] (b ∷ bs) e = ground arith
same_ingress-names (a ∷ as_) [] e = ground arith
same_ingress-names (a ∷ as_) (b ∷ bs) e =
    let rest = same_ingress-names as_ bs in ground (arith, eq_iff a.hostname b.hostname)

same_ingress-ips :
    (as_ bs : List Ingress) → same_ingress as_ bs ≡ true → ingress_ips as_ ≡ ingress_ips bs
unfolding ingress_ips
same_ingress-ips [] [] e = refl
same_ingress-ips [] (b ∷ bs) e = ground arith
same_ingress-ips (a ∷ as_) [] e = ground arith
same_ingress-ips (a ∷ as_) (b ∷ bs) e =
    let rest = same_ingress-ips as_ bs in
    let hostname = eq_iff a.hostname b.hostname in ground (arith, eq_iff a.ip b.ip)

service_addresses-same :
    (before after : LiveService)
    → is_load_balancer before ≡ true
    → is_load_balancer after ≡ true
    → same_ingress before.ingress after.ingress ≡ true
    → service_addresses (some before) ≡ service_addresses (some after)
unfolding service_addresses
service_addresses-same before after b a e =
    let names = same_ingress-names before.ingress after.ingress e in
    let ips = same_ingress-ips before.ingress after.ingress e in ground arith

passes :
    (before after : LiveService)
    → is_load_balancer before ≡ true
    → is_load_balancer after ≡ true
    → service_addresses (some before) ≢ service_addresses (some after)
    → load_balancer_address_changed (updated before after) ≡ true
unfolding load_balancer_address_changed
passes before after b a changed = elim (Bool-cases (same_ingress before.ingress after.ingress)) [
  | inl same ↦ absurd (changed (service_addresses-same before after b a same))
  | inr differ ↦ ground arith
]

-- Where the operator's client Service of an Instance stays a LoadBalancer and the addresses that go
-- into the server certificate change, the watch passes the change and reconciles that Instance and no
-- other.
pub address_change-reconciles :
    (service : WatchedService) (name : String) (before : LiveService)
    → name ≢ ""
    → get label_chi_name service.labels ≡ name
    → get label_operator_service service.labels ≡ operator_service_cr
    → service.name ≡ client_service_name name
    → is_load_balancer before ≡ true
    → is_load_balancer service.live ≡ true
    → service_addresses (some before) ≢ service_addresses (some service.live)
    → (load_balancer_address_changed (updated before service.live) ≡ true)
      × (instance_for_client_service service ≡ (service.namespace, name) ∷ [])
unfolding instance_for_client_service
address_change-reconciles service name before given chi operator_label named b a changed = (
  passes before service.live b a changed,
  rw (operator_label, chi, named)
      (ground (
        arith,
        is_empty_iff name,
        eq_refl operator_service_cr,
        eq_refl (client_service_name name),
      )),
)
