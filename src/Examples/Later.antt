-- ===== src/Examples/Later.antt =====
-- The gates of two Syncs one after the other: a change that is under way, and a rotated password.
use provider_altinity_clickh.Prelude.{◌≡◌, refl, suc, inr, some, none, List, [], ◌∷◌, arith, eq_iff}
use provider_altinity_clickh.Prelude.Result.{ok}
use provider_altinity_clickh.Cluster.Secret.{Data, get, put}
use provider_altinity_clickh.Rollout.{
  Installation, Inputs, Fingerprints, RolloutGate, clickhouse, keeper, gate_live, new_rollout_gate,
  update_record, is_record_key, user_revision,
}
use provider_altinity_clickh.Rollout.Decision.{applications, requests}
use provider_altinity_clickh.Rollout.Later.{change_under_way-unasked, user_change-unasked}
use provider_altinity_clickh.Examples.Data.{shop, shop_chi, shop_chk, cluster}
use provider_altinity_clickh.Examples.Secrets.{stored}
use provider_altinity_clickh.Examples.Environment.{prints}

abbrev rendered : List Installation
rendered = keeper shop_chk ∷ clickhouse shop_chi ∷ []

-- The Keeper was recorded with another rendering.
abbrev recorded : Data
recorded = ("chk.spec", "fedcba9876543210") ∷ ("chk.inputs-v3", "in") ∷ []

abbrev gate_of : Data → RolloutGate
gate_of data_ = record {
  recorded = data_;
  inputs = "in";
  token = "provider-v1-77";
  approved = none;
}

abbrev saved : Data
saved = (update_record (gate_of recorded) "chk" "0123456789abcdef").recorded

first :
    new_rollout_gate prints shop rendered (cluster recorded) []
    ≡ (ok (gate_of recorded), (new_rollout_gate prints shop rendered (cluster recorded) []).1)
unfolding new_rollout_gate is_record_key
first = refl

second :
    new_rollout_gate prints shop rendered (cluster saved) []
    ≡ (ok (gate_of saved), (new_rollout_gate prints shop rendered (cluster saved) []).1)
unfolding new_rollout_gate update_record get put is_record_key
second = refl

change_under_way-unasked_example :
    let r =
      gate_live shop
        (gate_of saved)
        (clickhouse shop_chi)
        "chi"
        "0123456789abcdef"
        (some (clickhouse shop_chi))
        (cluster saved)
        [] in
    (applications r.1 ≡ suc (applications [])) × (requests r.1 ≡ requests [])
unfolding get
change_under_way-unasked_example =
    change_under_way-unasked prints shop rendered (cluster recorded) (cluster saved) []
      (new_rollout_gate prints shop rendered (cluster recorded) []).1 []
      (new_rollout_gate prints shop rendered (cluster saved) []).1 (gate_of recorded)
      (gate_of saved) "chk" "0123456789abcdef" "chi" "0123456789abcdef" (clickhouse shop_chi)
      (some (clickhouse shop_chi)) (cluster saved) [] (inr refl) first
      (ground (arith, eq_iff "fedcba9876543210" "0123456789abcdef")) refl second

-- The CHI was recorded with the credentials before the second one.
abbrev by_credentials : Fingerprints
by_credentials = record prints { inputs_hash = λ inputs. ok inputs.credentials }

abbrev before : Inputs
before = record {
  version = "25.8";
  topology = "replicated";
  engine = shop.engine;
  keeper_component = none;
  credentials = "1";
}

abbrev secrets : Data
secrets = ("chi.spec", "fedcba9876543210") ∷ ("chi.inputs-v3", "1") ∷ stored

abbrev rotated_gate : RolloutGate
rotated_gate = record {
  recorded = ("chi.spec", "fedcba9876543210") ∷ ("chi.inputs-v3", "1") ∷ [];
  inputs = "2";
  token = "provider-v1-77";
  approved = none;
}

rotated :
    new_rollout_gate by_credentials shop rendered (cluster secrets) []
    ≡ (ok rotated_gate, (new_rollout_gate by_credentials shop rendered (cluster secrets) []).1)
unfolding new_rollout_gate get is_record_key
rotated = refl

user_change-unasked_example :
    let r =
      gate_live shop rotated_gate
        (clickhouse shop_chi)
        "chi"
        "0123456789abcdef"
        (some (clickhouse shop_chi))
        (cluster secrets)
        [] in
    (applications r.1 ≡ suc (applications [])) × (requests r.1 ≡ requests [])
unfolding get user_revision
user_change-unasked_example =
    user_change-unasked by_credentials shop rendered (cluster secrets) []
      (new_rollout_gate by_credentials shop rendered (cluster secrets) []).1 rotated_gate shop
      secrets before "chi" "0123456789abcdef" (clickhouse shop_chi) (some (clickhouse shop_chi))
      (cluster secrets) [] (λ i. refl) (λ i. refl) rotated refl (ground (arith, eq_iff "1" ""))
      (λ same. ground (arith, eq_iff "2" "1"))
