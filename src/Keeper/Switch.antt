-- ===== src/Keeper/Switch.antt =====
-- The switch of Keeper's ports as a system of three parties. The provider applies the next step
-- (syncReplicated of internal/provider/provider.go with nextKeeperWiring), the operator rolls
-- pods, and the user turns TLS on and off.
pub mod Invariant
pub mod Moves
pub mod Safety
pub mod Rounds
pub mod Progress
use provider_altinity_clickh.Prelude.{
  ℕ, zero, suc, ◌≡◌, ◌⊎◌, Bool, true, false, not, ◌&&◌, ◌||◌, List, [], ◌∷◌, if◌then◌else◌,
}
use provider_altinity_clickh.Prelude.Int.{ℤ, pos, minus_one, is_negative, ◌==ℤ◌}
use provider_altinity_clickh.Common.{keeper_port, keeper_secure_port}
use provider_altinity_clickh.Keeper.{KeeperWiring, KeeperState, next_keeper_wiring}

-- A configuration of Keeper's client ports, as the CHK's spec states it.
pub record Ports : Type 0 where
  pub secure : Bool
  pub plaintext : Bool

-- `chk_pods` are the configurations that some Keeper pod may be running, and `chi_pods` the ports
-- that some ClickHouse pod may be connecting to: while the operator rolls, old and new ones.
pub record Switch : Type 0 where
  pub tls : Bool
  pub chk_exists : Bool
  pub chk_rolled_out : Bool
  pub chk_ports : Ports
  pub chk_pods : List Ports
  pub chi_exists : Bool
  pub chi_rolled_out : Bool
  pub chi_port : ℤ
  pub chi_pods : List ℤ

-- liveKeeperState of this system.
abbrev pub observe : Switch → KeeperState
observe w = record {
  chk_exists = w.chk_exists;
  chk_rolled_out = w.chk_rolled_out;
  chk_secure = w.chk_ports.secure;
  chk_plaintext = w.chk_ports.plaintext;
  chi_exists = w.chi_exists;
  chi_rolled_out = w.chi_rolled_out;
  chi_port = w.chi_port;
}

abbrev pub same_ports : Ports → KeeperWiring → Bool
same_ports p step =
    (if p.secure then step.secure else not step.secure)
    && (if p.plaintext then step.plaintext else not step.plaintext)

-- Applying the CHK: nothing runs the changed rendering yet. Its task ID is a fingerprint of it, so
-- what the operator's status says of it, `again`, is its own: a rendering that is new has a task that
-- is not completed, but one that was applied and rolled out before has its old task ID, and reads as
-- rolled out until the operator picks the change up.
unfoldable pub apply_chk : Bool → KeeperWiring → Switch → Switch
apply_chk again step w =
    let ports : Ports = record { secure = step.secure; plaintext = step.plaintext } in
    if w.chk_exists && same_ports w.chk_ports step then w else record w {
      chk_exists = true;
      chk_rolled_out = again;
      chk_ports = ports;
      chk_pods = ports ∷ w.chk_pods;
    }

unfoldable pub apply_chi : Bool → KeeperWiring → Switch → Switch
apply_chi again step w = if w.chi_exists && w.chi_port ==ℤ step.port then w else record w {
  chi_exists = true;
  chi_rolled_out = again;
  chi_port = step.port;
  chi_pods = step.port ∷ w.chi_pods;
}

-- What the operator's status says of a changed CHK and of a changed CHI.
pub record Repeats : Type 0 where
  pub chk : Bool
  pub chi : Bool

-- The operator finishes rolling out what was applied last.
unfoldable pub roll_chk : Switch → Switch
roll_chk w =
    if w.chk_exists then record w { chk_rolled_out = true; chk_pods = w.chk_ports ∷ [] } else w

unfoldable pub roll_chi : Switch → Switch
roll_chi w =
    if w.chi_exists then record w { chi_rolled_out = true; chi_pods = w.chi_port ∷ [] } else w

-- One Sync. The rollout gate may hold either object back; the CHI is applied only once the CHK
-- that was read back is rolled out (waitForCHK).
unfoldable pub reconcile : Repeats → Bool → Bool → Switch → Switch
unfolding apply_chk apply_chi
reconcile again chk_allowed chi_allowed w =
    let step = (next_keeper_wiring w.tls (observe w)).0 in
    let w' = if chk_allowed then apply_chk again.chk step w else w in
    if w'.chk_exists && w'.chk_rolled_out && chi_allowed then apply_chi again.chi step w' else w'

-- The gate never holds back an object that does not exist, and a CHI that is not wired to Keeper
-- yet is not wired while the CHK is held back.
abbrev pub connected : Switch → Bool
connected w = w.chi_exists && not (is_negative w.chi_port)

pub data ◌⟶◌ : Switch → Switch → Type 0 where
  sync :
      {w : Switch} (again : Repeats) (chk_allowed chi_allowed : Bool)
      → (chk_allowed ≡ true) ⊎ (connected w ≡ true)
      → w ⟶ reconcile again chk_allowed chi_allowed w
  keeper_rolled : {w : Switch} → w ⟶ roll_chk w
  clickhouse_rolled : {w : Switch} → w ⟶ roll_chi w
  -- The operator reconciles again on its own, with nothing new applied.
  keeper_resumed : {w : Switch} → w ⟶ record w { chk_rolled_out = false }
  clickhouse_resumed : {w : Switch} → w ⟶ record w { chi_rolled_out = false }
  set_tls : {w : Switch} (tls : Bool) → w ⟶ record w { tls = tls }

infix 40 ◌⟶◌ ◌⟶*◌
pub data ◌⟶*◌ : Switch → Switch → Type 0 where
  here : {w : Switch} → w ⟶* w
  after : {u v w : Switch} → u ⟶* v → v ⟶ w → u ⟶* w

-- No Sync applies a rendering that reads as rolled out already.
abbrev pub IsNew : {u w : Switch} → u ⟶ w → Type 0
IsNew (sync again chk_allowed chi_allowed a) = (again.chk ≡ false) × (again.chi ≡ false)
IsNew _ = Unit

abbrev pub AllNew : {u w : Switch} → u ⟶* w → Type 0
AllNew here = Unit
AllNew (after r s) = AllNew r × IsNew s

-- A Keeper pod serves the port that a ClickHouse pod connects to; a CHI without Keeper needs none.
unfoldable pub serves : Ports → ℤ → Bool
serves p port =
    if is_negative port
    then true
    else if port ==ℤ pos keeper_secure_port
    then p.secure
    else p.plaintext

-- Before an Instance's first Sync nothing exists.
abbrev pub initial : Bool → Switch
initial tls = record {
  tls = tls;
  chk_exists = false;
  chk_rolled_out = false;
  chk_ports = record { secure = false; plaintext = false };
  chk_pods = [];
  chi_exists = false;
  chi_rolled_out = false;
  chi_port = minus_one;
  chi_pods = [];
}
