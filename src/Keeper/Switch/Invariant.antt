-- ===== src/Keeper/Switch/Invariant.antt =====
-- What holds of the switch of Keeper's ports while no Sync applies a rendering again.
use provider_altinity_clickh.Prelude.{◌≡◌, true, false, List, [], ◌∷◌, All}
use provider_altinity_clickh.Prelude.Int.{ℤ, is_negative}
use provider_altinity_clickh.Keeper.Switch.{Ports, Switch, serves}

abbrev pub ServedBy : Ports → ℤ → Type 0
ServedBy k p = serves k p ≡ true

-- Every ClickHouse pod can connect to every Keeper pod.
abbrev pub Served : Switch → Type 0
Served w = All (λ k. All (ServedBy k) w.chi_pods) w.chk_pods

pub record PodInv (w : Switch) (p : ℤ) : Type 0 where
  pub served : serves w.chk_ports p ≡ true
  pub settled : w.chi_rolled_out ≡ true → p ≡ w.chi_port
  pub unwired : is_negative w.chi_port ≡ true → is_negative p ≡ true
  pub exists : w.chi_exists ≡ true

pub record KeeperInv (w : Switch) (k : Ports) : Type 0 where
  pub serving : serves k w.chi_port ≡ true
  pub rolled : w.chk_rolled_out ≡ true → k ≡ w.chk_ports

pub record SwitchInv (w : Switch) : Type 0 where
  pub served : Served w
  pub pods : All (PodInv w) w.chi_pods
  pub keepers : All (KeeperInv w) w.chk_pods
  pub current : serves w.chk_ports w.chi_port ≡ true
  pub absent : w.chi_exists ≡ false → is_negative w.chi_port ≡ true

pub All-map {ℓ κ} :
    {A : Type ℓ} {P Q : A → Type κ} (f : (a : A) → P a → Q a) (xs : List A) → All P xs → All Q xs
All-map f [] _ = tt
All-map f (x ∷ xs) (p, h) = (f x p, All-map f xs h)

pub All-zip {ℓ κ} :
    {A : Type ℓ} (P Q : A → Type κ) (xs : List A) → All P xs → All Q xs → All (λ a. P a × Q a) xs
All-zip P Q [] _ _ = tt
All-zip P Q (x ∷ xs) (p, h) (q, k) = ((p, q), All-zip P Q xs h k)
