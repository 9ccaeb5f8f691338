-- ===== src/Keeper/Switch/Rounds.antt =====
-- Rounds of a Sync and the operator's rollout, and tests of every switch by evaluation.
use mathlib.Core.Path.{subst}
use provider_altinity_clickh.Prelude.{
  sym, ◌≡◌, Bool, true, false, not, ◌&&◌, ◌||◌, List, [], ◌∷◌, arith, if◌then◌else◌,
}
use provider_altinity_clickh.Prelude.Int.{ℤ, pos, minus_one, ◌==ℤ◌}
use provider_altinity_clickh.Common.{keeper_port, keeper_secure_port}
use provider_altinity_clickh.Keeper.Switch.{Repeats, Ports, Switch, roll_chk, roll_chi, reconcile}

-- A Sync, and then the operator's rollout of what it applied.
unfoldable pub round : Repeats → Switch → Switch
unfolding reconcile roll_chk roll_chi
round again w = roll_chi (roll_chk (reconcile again true true w))

unfoldable pub rounds : List Repeats → Switch → Switch
rounds [] w = w
rounds (again ∷ later) w = rounds later (round again w)

-- The ports that the provider wires ClickHouse to: none, the Keeper reference, plaintext and TLS.
pub data WiredPort : Type 0 where
  unwired reference plaintext_port secure_port : WiredPort

abbrev pub port_number : WiredPort → ℤ
port_number unwired = minus_one
port_number reference = pos 0
port_number plaintext_port = pos keeper_port
port_number secure_port = pos keeper_secure_port

unfoldable pub is_settled : Switch → Bool
is_settled w =
    w.chk_rolled_out
    && w.chi_rolled_out
    && w.chk_exists
    && w.chi_exists
    && (if w.tls
        then w.chk_ports.secure
          && not w.chk_ports.plaintext
          && w.chi_port ==ℤ pos keeper_secure_port
        else not w.chk_ports.secure
          && w.chk_ports.plaintext
          && (w.chi_port ==ℤ pos 0 || w.chi_port ==ℤ pos keeper_port))

unfoldable pub on_bools : (Bool → Bool) → Bool
on_bools p = p true && p false

on_bools_sound : (p : Bool → Bool) → on_bools p ≡ true → (b : Bool) → p b ≡ true
unfolding on_bools
on_bools_sound p h true = ground arith
on_bools_sound p h false = ground arith

unfoldable pub on_ports : (WiredPort → Bool) → Bool
on_ports p = p unwired && p reference && p plaintext_port && p secure_port

on_ports_sound : (p : WiredPort → Bool) → on_ports p ≡ true → (b : WiredPort) → p b ≡ true
unfolding on_ports
on_ports_sound p h unwired = ground arith
on_ports_sound p h reference = ground arith
on_ports_sound p h plaintext_port = ground arith
on_ports_sound p h secure_port = ground arith

-- A test of every switch whose ClickHouse port is one of the four, by evaluation.
module _ (test : Switch → Bool) (chk_pods : List Ports) (chi_pods : List ℤ) where
  unfoldable pub test_at : Bool → Bool → Bool → Bool → Bool → Bool → Bool → WiredPort → Bool
  test_at tls chk_exists chk_rolled_out secure plaintext chi_exists chi_rolled_out port =
      test (record {
        tls = tls;
        chk_exists = chk_exists;
        chk_rolled_out = chk_rolled_out;
        chk_ports = record { secure = secure; plaintext = plaintext };
        chk_pods = chk_pods;
        chi_exists = chi_exists;
        chi_rolled_out = chi_rolled_out;
        chi_port = port_number port;
        chi_pods = chi_pods;
      })

  unfoldable pub everywhere : Bool
  everywhere = on_bools (λ a. on_bools (λ b. on_bools (λ c. on_bools (λ d.
      on_bools (λ e. on_bools (λ f. on_bools (λ g. on_ports (λ p. test_at a b c d e f g p))))))))

  everywhere_sound :
      everywhere ≡ true → (a b c d e f g : Bool) (p : WiredPort) → test_at a b c d e f g p ≡ true
  unfolding everywhere
  everywhere_sound h a b c d e f g p =
      let ha = on_bools_sound _ h a in
      let hb = on_bools_sound _ ha b in
      let hc = on_bools_sound _ hb c in
      let hd = on_bools_sound _ hc d in
      let he = on_bools_sound _ hd e in
      let hf = on_bools_sound _ he f in on_ports_sound _ (on_bools_sound _ hf g) p

module _ (test : Switch → Bool) (w : Switch) where
  pub everywhere_at :
      everywhere test w.chk_pods w.chi_pods ≡ true
      → (port : WiredPort) → w.chi_port ≡ port_number port
      → test w ≡ true
  unfolding test_at
  everywhere_at h port e =
      subst (λ z. test (record w { chi_port = z }) ≡ true) (sym e)
        (everywhere_sound test w.chk_pods w.chi_pods h w.tls w.chk_exists w.chk_rolled_out
          w.chk_ports.secure w.chk_ports.plaintext w.chi_exists w.chi_rolled_out port)

unfoldable pub on_repeats : (Repeats → Bool) → Bool
unfolding on_bools
on_repeats p = on_bools (λ a. on_bools (λ b. p (record { chk = a; chi = b })))

pub on_repeats_sound : (p : Repeats → Bool) → on_repeats p ≡ true → (r : Repeats) → p r ≡ true
unfolding on_repeats
on_repeats_sound p h r =
    on_bools_sound (λ b. p (record { chk = r.chk; chi = b }))
      (on_bools_sound (λ a. on_bools (λ b. p (record { chk = a; chi = b }))) h r.chk) r.chi
