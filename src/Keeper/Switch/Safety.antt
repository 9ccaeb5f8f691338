-- ===== src/Keeper/Switch/Safety.antt =====
-- What runs while Keeper's ports are switched, over every sequence of moves.
use mathlib.Core.Path.{subst}
use provider_altinity_clickh.Prelude.{sym, ◌≡◌, refl, Bool, false, arith, if-elim}
use provider_altinity_clickh.Keeper.Switch.{
  Repeats, IsNew, AllNew, Switch, roll_chk, roll_chi, reconcile, ◌⟶◌, sync, keeper_rolled,
  clickhouse_rolled, keeper_resumed, clickhouse_resumed, set_tls, ◌⟶*◌, here, after, serves,
  initial,
}
use provider_altinity_clickh.Keeper.Switch.Invariant.{SwitchInv}
use provider_altinity_clickh.Keeper.Switch.Moves.{
  reconcile-Inv, chk_rolled-Inv, chi_rolled-Inv, resumed-Inv,
}

new_only :
    (again : Repeats)
    → again.chk ≡ false
    → again.chi ≡ false
    → again ≡ record { chk = false; chi = false }
new_only again k c = ground arith

-- Each move of the provider, the operator and the user keeps the invariant.
pub ⟶-Inv : {u w : Switch} (s : u ⟶ w) → IsNew s → SwitchInv u → SwitchInv w
unfolding roll_chk roll_chi
⟶-Inv {u} (sync again chk_allowed chi_allowed a) (k, c) i =
    subst (λ r. SwitchInv (reconcile r chk_allowed chi_allowed u)) (sym (new_only again k c))
      (reconcile-Inv u chk_allowed chi_allowed a i)
⟶-Inv {u} keeper_rolled n i = if-elim SwitchInv u.chk_exists (λ _. chk_rolled-Inv u i) (λ _. i)
⟶-Inv {u} clickhouse_rolled n i =
    if-elim SwitchInv u.chi_exists (λ there. chi_rolled-Inv u i there) (λ _. i)
⟶-Inv {u} keeper_resumed n i = resumed-Inv u u.tls false u.chi_rolled_out i (λ e. cc) (λ e. e)
⟶-Inv {u} clickhouse_resumed n i = resumed-Inv u u.tls u.chk_rolled_out false i (λ e. e) (λ e. cc)
⟶-Inv {u} (set_tls tls) n i =
    resumed-Inv u tls u.chk_rolled_out u.chi_rolled_out i (λ e. e) (λ e. e)

pub ⟶*-Inv : {u w : Switch} → SwitchInv u → (r : u ⟶* w) → AllNew r → SwitchInv w
⟶*-Inv i here n = i
⟶*-Inv i (after r s) (n, k) = ⟶-Inv s k (⟶*-Inv i r n)

pub initial-Inv : (tls : Bool) → SwitchInv (initial tls)
unfolding serves
initial-Inv tls = record {
  served = tt;
  pods = tt;
  keepers = tt;
  current = refl;
  absent = λ e. refl;
}
