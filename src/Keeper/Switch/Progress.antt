-- ===== src/Keeper/Switch/Progress.antt =====
-- The switch of Keeper's ports ends: when the operator rolls out what each Sync applies and
-- nothing is held back, the wiring that the TLS setting calls for is reached and kept.

use provider_altinity_clickh.Prelude.{
  Bool-cases, ◌∙◌, ℕ, zero, suc, ◌≡◌, refl, ◌⊎◌, inl, inr, Bool, true, false, not, ◌&&◌, ◌||◌, List,
  [], ◌∷◌, arith,
}
use provider_altinity_clickh.Prelude.Int.{ℤ, pos, minus_one, ◌==ℤ◌, ==ℤ_iff}
use provider_altinity_clickh.Common.{keeper_port, keeper_secure_port}
use provider_altinity_clickh.Keeper.{next_keeper_wiring}
use provider_altinity_clickh.Keeper.Switch.{Repeats, Ports, Switch}
use provider_altinity_clickh.Keeper.Switch.Rounds.{
  round, rounds, WiredPort, unwired, reference, plaintext_port, secure_port, port_number,
  is_settled, on_bools, on_ports, on_repeats, on_repeats_sound, test_at, everywhere, everywhere_at,
}

is_wired : Switch → Bool
is_wired w =
    w.chi_port ==ℤ minus_one
    || w.chi_port ==ℤ pos 0
    || w.chi_port ==ℤ pos keeper_port
    || w.chi_port ==ℤ pos keeper_secure_port

abbrev new_ : Repeats
new_ = record { chk = false; chi = false }

-- What is settled after so many rounds of new renderings.
abbrev after_rounds : ℕ → Switch → Bool
after_rounds zero w = is_settled w
after_rounds (suc n) w = after_rounds n (round new_ w)

ends : Switch → Bool
ends w = after_rounds 4 w

ends-everywhere : (ks : List Ports) (ps : List ℤ) → everywhere ends ks ps ≡ true
unfolding everywhere on_bools on_ports test_at ends is_settled round next_keeper_wiring
ends-everywhere ks ps = refl

-- Whatever the operator's status says, a round brings the end nearer.
nears : ℕ → Switch → Bool
nears n w =
    not (after_rounds (suc n) w)
    || on_repeats (λ r. let v = round r w in after_rounds n v && is_wired v)

nears_0-everywhere : (ks : List Ports) (ps : List ℤ) → everywhere (nears 0) ks ps ≡ true
unfolding everywhere on_bools on_ports test_at nears is_settled is_wired round next_keeper_wiring
    on_repeats
nears_0-everywhere ks ps = refl

nears_1-everywhere : (ks : List Ports) (ps : List ℤ) → everywhere (nears 1) ks ps ≡ true
unfolding everywhere on_bools on_ports test_at nears is_settled is_wired round next_keeper_wiring
    on_repeats
nears_1-everywhere ks ps = refl

nears_2-everywhere : (ks : List Ports) (ps : List ℤ) → everywhere (nears 2) ks ps ≡ true
unfolding everywhere on_bools on_ports test_at nears is_settled is_wired round next_keeper_wiring
    on_repeats
nears_2-everywhere ks ps = refl

nears_3-everywhere : (ks : List Ports) (ps : List ℤ) → everywhere (nears 3) ks ps ≡ true
unfolding everywhere on_bools on_ports test_at nears is_settled is_wired round next_keeper_wiring
    on_repeats
nears_3-everywhere ks ps = refl

stays : Switch → Bool
stays w = not (is_settled w) || on_repeats (λ r. is_settled (round r w))

stays-everywhere : (ks : List Ports) (ps : List ℤ) → everywhere stays ks ps ≡ true
unfolding everywhere on_bools on_ports test_at stays is_settled round next_keeper_wiring on_repeats
stays-everywhere ks ps = refl

-- What the switch is to end in: both objects rolled out, Keeper on the port of the TLS setting
-- alone, and ClickHouse on that port (without TLS by number or by the Keeper reference).
pub record IsSettled (w : Switch) : Type 0 where
  pub keeper_rolled_out : w.chk_rolled_out ≡ true
  pub clickhouse_rolled_out : w.chi_rolled_out ≡ true
  pub keeper_exists : w.chk_exists ≡ true
  pub clickhouse_exists : w.chi_exists ≡ true
  pub keeper_secure : w.chk_ports.secure ≡ w.tls
  pub keeper_plaintext : w.chk_ports.plaintext ≡ not w.tls
  pub with_tls : w.tls ≡ true → w.chi_port ≡ pos keeper_secure_port
  pub without_tls : w.tls ≡ false → (w.chi_port ≡ pos 0) ⊎ (w.chi_port ≡ pos keeper_port)

IsSettled-of : (w : Switch) → is_settled w ≡ true → IsSettled w
unfolding is_settled
IsSettled-of w h = ground (
  arith,
  ==ℤ_iff w.chi_port (pos keeper_secure_port),
  ==ℤ_iff w.chi_port (pos 0),
  ==ℤ_iff w.chi_port (pos keeper_port),
)

settled_port : (w : Switch) → is_settled w ≡ true → (p : WiredPort) × (w.chi_port ≡ port_number p)
unfolding is_settled
settled_port w h = elim (Bool-cases w.tls) [
  | inl on ↦ (secure_port, ground (arith, ==ℤ_iff w.chi_port (pos 2281)))
  | inr off ↦ elim (Bool-cases (w.chi_port ==ℤ pos 0)) [
    | inl zero_port ↦ (reference, (==ℤ_iff w.chi_port (pos 0)).0 zero_port)
    | inr other ↦ (plaintext_port, ground (arith, ==ℤ_iff w.chi_port (pos 2181)))
  ]
]

is_settled-round :
    (again : Repeats) (w : Switch) → is_settled w ≡ true → is_settled (round again w) ≡ true
unfolding stays
is_settled-round again w h =
    let (p, e) = settled_port w h in
    let test = everywhere_at stays w (stays-everywhere w.chk_pods w.chi_pods) p e in
    on_repeats_sound (λ r. is_settled (round r w)) (ground arith) again

is_settled-rounds :
    (later : List Repeats) (w : Switch) → is_settled w ≡ true → is_settled (rounds later w) ≡ true
unfolding rounds
is_settled-rounds [] w h = h
is_settled-rounds (again ∷ later) w h =
    is_settled-rounds later (round again w) (is_settled-round again w h)

tls-round : (again : Repeats) (w : Switch) → (round again w).tls ≡ w.tls
unfolding round
tls-round again w = ground arith

tls-rounds : (later : List Repeats) (w : Switch) → (rounds later w).tls ≡ w.tls
unfolding rounds
tls-rounds [] w = refl
tls-rounds (again ∷ later) w = tls-rounds later (round again w) ∙ tls-round again w

abbrev Wired : Switch → Type 0
Wired w = (p : WiredPort) × (w.chi_port ≡ port_number p)

port-Wired : (w : Switch) → is_wired w ≡ true → Wired w
unfolding is_wired
port-Wired w h = elim (Bool-cases (w.chi_port ==ℤ minus_one)) [
  | inl e ↦ (unwired, (==ℤ_iff w.chi_port minus_one).0 e)
  | inr e ↦ elim (Bool-cases (w.chi_port ==ℤ pos 0)) [
    | inl e' ↦ (reference, (==ℤ_iff w.chi_port (pos 0)).0 e')
    | inr e' ↦ elim (Bool-cases (w.chi_port ==ℤ pos 2181)) [
      | inl e'' ↦ (plaintext_port, (==ℤ_iff w.chi_port (pos 2181)).0 e'')
      | inr e'' ↦ (secure_port, ground (arith, ==ℤ_iff w.chi_port (pos keeper_secure_port)))
    ]
  ]
]

abbrev Within : ℕ → Switch → Type 0
Within n w = Wired w × (after_rounds n w ≡ true)

nearer :
    (n : ℕ) (again : Repeats) (w : Switch)
    → everywhere (nears n) w.chk_pods w.chi_pods ≡ true
    → Within (suc n) w
    → Within n (round again w)
unfolding nears
nearer n again w all_ ((p, e), h) =
    let test = everywhere_at (nears n) w all_ p e in
    let both =
      on_repeats_sound (λ r. let v = round r w in after_rounds n v && is_wired v) (ground arith)
        again in
    (port-Wired (round again w) (ground arith), ground arith)

four_rounds :
    (w : Switch) (a b c d : Repeats)
    → Within 4 w
    → is_settled (rounds (a ∷ b ∷ c ∷ d ∷ []) w) ≡ true
unfolding rounds
four_rounds w a b c d within =
    let u = round a w in
    let v = round b u in
    let x = round c v in
    let near_3 = nearer 3 a w (nears_3-everywhere w.chk_pods w.chi_pods) within in
    let near_2 = nearer 2 b u (nears_2-everywhere u.chk_pods u.chi_pods) near_3 in
    let near_1 = nearer 1 c v (nears_1-everywhere v.chk_pods v.chi_pods) near_2 in
    (nearer 0 d x (nears_0-everywhere x.chk_pods x.chi_pods) near_1).1

-- Whatever is rolled out at first, whichever of the four ways ClickHouse is wired, and whatever the
-- operator's status says of the renderings, four rounds of a Sync that holds nothing back and the
-- operator's rollout end the switch, and every later round leaves it ended, for the TLS setting
-- that held at first.
pub rounds-IsSettled :
    (w : Switch) (port : WiredPort) (a b c d : Repeats) (later : List Repeats)
    → w.chi_port ≡ port_number port
    → let ended = rounds later (rounds (a ∷ b ∷ c ∷ d ∷ []) w) in
      (ended.tls ≡ w.tls) × IsSettled ended
unfolding ends
rounds-IsSettled w port a b c d later e =
    let four = a ∷ b ∷ c ∷ d ∷ [] in
    let within = everywhere_at ends w (ends-everywhere w.chk_pods w.chi_pods) port e in
    (
      tls-rounds later (rounds four w) ∙ tls-rounds four w,
      IsSettled-of _
          (is_settled-rounds later (rounds four w) (four_rounds w a b c d ((port, e), within))),
    )
