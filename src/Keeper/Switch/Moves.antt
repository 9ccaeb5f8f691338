-- ===== src/Keeper/Switch/Moves.antt =====
-- The moves of the switch, one by one, keep its invariant.
use provider_altinity_clickh.Prelude.{
  ◌≡◌, refl, ◌⊎◌, inl, Bool, true, false, ◌&&◌, [], ◌∷◌, arith, if◌then◌else◌, if-elim,
}
use provider_altinity_clickh.Prelude.Int.{ℤ, pos, is_negative, ==ℤ_iff}
use provider_altinity_clickh.Keeper.{
  KeeperWiring, next_keeper_wiring, step_wiring, step_port, target_wiring,
}
use provider_altinity_clickh.Keeper.Switch.{
  Ports, Switch, observe, same_ports, apply_chi, reconcile, connected, serves,
}
use provider_altinity_clickh.Keeper.Switch.Invariant.{ServedBy, PodInv, SwitchInv, All-map, All-zip}

abbrev step_of : Switch → KeeperWiring
step_of w = (next_keeper_wiring w.tls (observe w)).0

abbrev ports_of : KeeperWiring → Ports
ports_of step = record { secure = step.secure; plaintext = step.plaintext }

-- The CHK of the next step serves every port that a ClickHouse pod may be using, ...
step_wiring-serves_pod :
    (w : Switch) (p port : ℤ)
    → serves w.chk_ports w.chi_port ≡ true
    → PodInv w p
    → ServedBy (ports_of (step_wiring w.tls (observe w) port)) p
unfolding step_wiring serves
step_wiring-serves_pod w p port c i =
    ground (arith, ==ℤ_iff port w.chi_port, ==ℤ_iff p (pos 2281), ==ℤ_iff w.chi_port (pos 2281))

-- ... and the port that the CHI states.
step_wiring-serves_current :
    (w : Switch) (port : ℤ)
    → SwitchInv w
    → ServedBy (ports_of (step_wiring w.tls (observe w) port)) w.chi_port
unfolding step_wiring serves
step_wiring-serves_current w port i =
    ground (arith, i.current, i.absent, ==ℤ_iff port w.chi_port, ==ℤ_iff w.chi_port (pos 2281))

abbrev Applicable : Switch → Type 0
Applicable w = (same_ports w.chk_ports (step_of w) ≡ true) ⊎ (connected w ≡ true)

-- The port that ClickHouse moves to is served by the CHK that is rolled out.
step_port_served :
    (w : Switch)
    → SwitchInv w
    → w.chk_rolled_out ≡ true
    → Applicable w
    → serves w.chk_ports (step_of w).port ≡ true
unfolding next_keeper_wiring step_wiring step_port target_wiring serves
step_port_served w i r a = ground (arith, i.current, i.absent)

-- ... and ClickHouse is wired to Keeper from then on.
step_port_wired : (w : Switch) → is_negative (step_of w).port ≡ false
unfolding next_keeper_wiring step_wiring step_port target_wiring
step_port_wired w = ground arith

chk_applied-Inv :
    (w : Switch) (port : ℤ)
    → SwitchInv w
    → let step = step_wiring w.tls (observe w) port in
      let ports = ports_of step in
      SwitchInv (record w {
        chk_exists = true;
        chk_rolled_out = false;
        chk_ports = ports;
        chk_pods = ports ∷ w.chk_pods;
      })
chk_applied-Inv w port i =
    let serving = λ (p : ℤ) (q : PodInv w p). step_wiring-serves_pod w p port i.current q in
    record {
      served = (All-map serving w.chi_pods i.pods, i.served);
      pods =
          All-map
            (λ p q. record {
              served = serving p q;
              settled = q.settled;
              unwired = q.unwired;
              exists = q.exists;
            })
            w.chi_pods i.pods;
      keepers = (
        record { serving = step_wiring-serves_current w port i; rolled = λ e. cc },
        All-map (λ k q. record { serving = q.serving; rolled = λ e. cc }) w.chk_pods i.keepers,
      );
      current = step_wiring-serves_current w port i;
      absent = i.absent;
    }

chi_applied-Inv :
    (w : Switch) (port : ℤ)
    → SwitchInv w
    → w.chk_rolled_out ≡ true
    → serves w.chk_ports port ≡ true
    → is_negative port ≡ false
    → SwitchInv (record w {
      chi_exists = true;
      chi_rolled_out = false;
      chi_port = port;
      chi_pods = port ∷ w.chi_pods;
    })
chi_applied-Inv w port i rolled served wired = record {
  served =
      All-map (λ k (q, all). (rw (q.rolled rolled) served, all)) w.chk_pods
        (All-zip _ _ w.chk_pods i.keepers i.served);
  pods = (
    record { served = served; settled = λ e. refl; unwired = λ e. e; exists = refl },
    All-map
        (λ p q. record { served = q.served; settled = λ e. cc; unwired = λ e. cc; exists = refl })
        w.chi_pods i.pods,
  );
  keepers =
      All-map (λ k q. record { serving = rw (q.rolled rolled) served; rolled = q.rolled })
        w.chk_pods i.keepers;
  current = served;
  absent = λ e. cc;
}

apply_chi-Inv :
    (w : Switch)
    → SwitchInv w
    → w.chk_rolled_out ≡ true
    → Applicable w
    → SwitchInv (apply_chi false (step_of w) w)
unfolding apply_chi
apply_chi-Inv w i r a =
    if-elim SwitchInv _ (λ _. i)
      (λ _. chi_applied-Inv w _ i r (step_port_served w i r a) (step_port_wired w))

-- A Sync that may apply the CHI: the CHK that it read is rolled out.
gated_chi-Inv :
    (w : Switch) (chi_allowed : Bool)
    → SwitchInv w
    → Applicable w
    → SwitchInv (
        if w.chk_exists && w.chk_rolled_out && chi_allowed
        then apply_chi false (step_of w) w
        else w)
gated_chi-Inv w chi_allowed i a =
    if-elim SwitchInv (w.chk_exists && w.chk_rolled_out && chi_allowed)
      (λ go. apply_chi-Inv w i (ground arith) a) (λ _. i)

pub reconcile-Inv :
    (w : Switch) (chk_allowed chi_allowed : Bool)
    → (chk_allowed ≡ true) ⊎ (connected w ≡ true)
    → SwitchInv w
    → SwitchInv (reconcile (record { chk = false; chi = false }) chk_allowed chi_allowed w)
unfolding reconcile next_keeper_wiring
reconcile-Inv w false chi_allowed a i = gated_chi-Inv w chi_allowed i (ground arith)
reconcile-Inv w true chi_allowed a i =
    if-elim
      (λ w'. SwitchInv (
        if w'.chk_exists && w'.chk_rolled_out && chi_allowed
        then apply_chi false (step_of w) w'
        else w'))
      (w.chk_exists && same_ports w.chk_ports (step_of w))
      (λ same. gated_chi-Inv w chi_allowed i (inl (ground arith))) (λ _. chk_applied-Inv w _ i)

pub chk_rolled-Inv :
    (w : Switch)
    → SwitchInv w
    → SwitchInv (record w { chk_rolled_out = true; chk_pods = w.chk_ports ∷ [] })
chk_rolled-Inv w i = record {
  served = (All-map (λ p q. q.served) w.chi_pods i.pods, tt);
  pods =
      All-map
        (λ p q. record {
          served = q.served;
          settled = q.settled;
          unwired = q.unwired;
          exists = q.exists;
        })
        w.chi_pods i.pods;
  keepers = (record { serving = i.current; rolled = λ e. refl }, tt);
  current = i.current;
  absent = i.absent;
}

pub chi_rolled-Inv :
    (w : Switch)
    → SwitchInv w
    → w.chi_exists ≡ true
    → SwitchInv (record w { chi_rolled_out = true; chi_pods = w.chi_port ∷ [] })
chi_rolled-Inv w i there = record {
  served = All-map (λ k q. (q.serving, tt)) w.chk_pods i.keepers;
  pods = (record { served = i.current; settled = λ e. refl; unwired = λ e. e; exists = there }, tt);
  keepers = All-map (λ k q. record { serving = q.serving; rolled = q.rolled }) w.chk_pods i.keepers;
  current = i.current;
  absent = i.absent;
}

-- The operator starts over, or the user turns TLS on or off: nothing that runs changes.
module _ (w : Switch) (tls chk_rolled_out chi_rolled_out : Bool) (i : SwitchInv w) where
  pub resumed-Inv :
      (chk_rolled_out ≡ true → w.chk_rolled_out ≡ true)
      → (chi_rolled_out ≡ true → w.chi_rolled_out ≡ true)
      → SwitchInv
          (record w { tls = tls; chk_rolled_out = chk_rolled_out; chi_rolled_out = chi_rolled_out })
  resumed-Inv f g = record {
    served = i.served;
    pods =
        All-map
          (λ p q. record {
            served = q.served;
            settled = λ e. q.settled (g e);
            unwired = q.unwired;
            exists = q.exists;
          })
          w.chi_pods i.pods;
    keepers =
        All-map (λ k q. record { serving = q.serving; rolled = λ e. q.rolled (f e) }) w.chk_pods
          i.keepers;
    current = i.current;
    absent = i.absent;
  }
