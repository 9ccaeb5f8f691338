-- ===== src/Examples/Wiring.antt =====
-- Keeper's switch from plaintext to TLS.
use provider_altinity_clickh.Prelude.{arith, ◌≡◌, refl, inl, true, false, [], ◌∷◌}
use provider_altinity_clickh.Prelude.Int.{pos}
use provider_altinity_clickh.Common.{keeper_port}
use provider_altinity_clickh.Prelude.{All}
use provider_altinity_clickh.Cluster.Objects.{IssuerReference}
use provider_altinity_clickh.Keeper.Zookeeper.{
  keeper_zookeeper, IsListed, server_certificate-keeper_zookeeper,
}
use provider_altinity_clickh.Tls.Resources.{server_certificate}
use provider_altinity_clickh.Examples.Data.{shop}
use provider_altinity_clickh.Keeper.Switch.{
  ◌⟶*◌, roll_chi, serves, clickhouse_rolled, Repeats, Switch, initial, reconcile, roll_chk, sync,
  keeper_rolled, set_tls, here, after,
}
use provider_altinity_clickh.Keeper.{next_keeper_wiring}
use provider_altinity_clickh.Keeper.Switch.Invariant.{Served}
use provider_altinity_clickh.Keeper.Switch.Rounds.{plaintext_port, round, rounds}
use provider_altinity_clickh.Keeper.Switch.Progress.{IsSettled, rounds-IsSettled}

-- Renderings that were never applied before.
abbrev new_ : Repeats
new_ = record { chk = false; chi = false }

abbrev repeated : Repeats
repeated = record { chk = true; chi = true }

abbrev plaintext : Switch
plaintext = record {
  tls = true;
  chk_exists = true;
  chk_rolled_out = true;
  chk_ports = record { secure = false; plaintext = true };
  chk_pods = record { secure = false; plaintext = true } ∷ [];
  chi_exists = true;
  chi_rolled_out = true;
  chi_port = pos keeper_port;
  chi_pods = pos keeper_port ∷ [];
}

rounds-IsSettled_example :
    let ended =
      rounds (repeated ∷ []) (rounds (new_ ∷ new_ ∷ repeated ∷ repeated ∷ []) plaintext) in
    (ended.tls ≡ true) × IsSettled ended
rounds-IsSettled_example =
    rounds-IsSettled plaintext plaintext_port new_ new_ repeated repeated (repeated ∷ []) refl

abbrev shop_issuer : IssuerReference
shop_issuer = record { name = "shop-ca"; kind = "Issuer"; group = "cert-manager.io" }

server_certificate-keeper_zookeeper_example :
    All
      (λ node. IsListed (server_certificate shop shop_issuer ([], [])).dns_names node.host)
      (keeper_zookeeper shop (pos 9281)).nodes
server_certificate-keeper_zookeeper_example =
    server_certificate-keeper_zookeeper shop 9281 shop_issuer [] [] refl

cycle : {u w : Switch} → u ⟶* w → u ⟶* round new_ w
unfolding round
cycle r = after (after (after r (sync new_ true true (inl refl))) keeper_rolled) clickhouse_rolled

-- TLS was turned on and the switch ended.
abbrev secured : Switch
secured =
    rounds (new_ ∷ new_ ∷ new_ ∷ new_ ∷ []) (record (round new_ (initial false)) { tls = true })

secured_reached : initial false ⟶* secured
unfolding rounds
secured_reached = cycle (cycle (cycle (cycle (after (cycle here) (set_tls true)))))

-- TLS is turned off again: the first Sync applies the CHK with both ports, which was rolled out
-- before, and the next one moves ClickHouse.
abbrev moved : Switch
moved =
    reconcile new_ true true
      (reconcile (record { chk = true; chi = false }) true true (record secured { tls = false }))

moved_reached : initial false ⟶* moved
moved_reached =
    after
      (after (after secured_reached (set_tls false))
        (sync (record { chk = true; chi = false }) true true (inl refl)))
      (sync new_ true true (inl refl))

-- So without that condition a ClickHouse pod may be left without its Keeper port.
moved_lost : ¬ Served moved
unfolding serves rounds round reconcile roll_chk roll_chi next_keeper_wiring
moved_lost served = ground arith
