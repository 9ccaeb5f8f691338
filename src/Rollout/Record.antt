-- ===== src/Rollout/Record.antt =====
-- The record that the gate keeps: what an apply writes into it, and what a later Sync reads back.
use mathlib.Core.Path.{subst}
use provider_altinity_clickh.Prelude.{
  sym, ◌≡◌, ◌⊎◌, inl, inr, String, none, [], ◌∷◌, arith, eq_iff, if◌then◌else◌, if-elim,
}
use provider_altinity_clickh.Prelude.Text.{◌<>◌}
use provider_altinity_clickh.Cluster.Secret.{Data, get, lookup, get-put, value_or_empty}
use provider_altinity_clickh.Rollout.{
  RolloutGate, target_key, spec_suffix, inputs_suffix, recorded_spec, recorded_inputs, is_unchanged,
  is_record_key, load_record, update_record,
}

-- The keys under which the two objects are recorded.
abbrev pub IsKey : String → Type 0
IsKey key = (key ≡ "chi") ⊎ (key ≡ "chk")

lookup-load_record :
    (k : String) (m : Data)
    → lookup k (load_record m) ≡ (if is_record_key k then lookup k m else none)
unfolding lookup load_record
lookup-load_record k [] = ground arith
lookup-load_record k ((j, v) ∷ m) =
    let e = eq_iff j k in let ih = lookup-load_record k m in ground arith

pub get-load_record :
    (k : String) (m : Data) → get k (load_record m) ≡ (if is_record_key k then get k m else "")
unfolding get value_or_empty
get-load_record k m = let e = lookup-load_record k m in ground arith

abbrev pub Records : RolloutGate → RolloutGate → String → String → Type 0
Records g g' key spec =
    (recorded_spec g' key ≡ spec)
    × (recorded_inputs g' key ≡ g.inputs)
    × ((recorded_spec g key ≡ spec) ⊎ (get target_key g'.recorded ≡ g.token))

update_chi : (g : RolloutGate) (spec : String) → Records g (update_record g "chi" spec) "chi" spec
unfolding update_record
update_chi g spec =
    if-elim (λ m. Records g (record g { recorded = m }) "chi" spec) (is_unchanged g "chi" spec)
      (λ same. (simp get-put, simp get-put, inl ((eq_iff _ _).0 same)))
      (λ _. (simp get-put, simp get-put, inr (simp get-put)))

update_chk : (g : RolloutGate) (spec : String) → Records g (update_record g "chk" spec) "chk" spec
unfolding update_record
update_chk g spec =
    if-elim (λ m. Records g (record g { recorded = m }) "chk" spec) (is_unchanged g "chk" spec)
      (λ same. (simp get-put, simp get-put, inl ((eq_iff _ _).0 same)))
      (λ _. (simp get-put, simp get-put, inr (simp get-put)))

-- After an apply of the CHI or the CHK the record states what was applied under the object's key
-- and from which inputs, and, if the rendering changed, that this token's change is under way.
pub update_record-Records :
    (g : RolloutGate) (key spec : String)
    → IsKey key
    → Records g (update_record g key spec) key spec
update_record-Records g key spec (inl e) =
    subst (λ k. Records g (update_record g k spec) k spec) (sym e) (update_chi g spec)
update_record-Records g key spec (inr e) =
    subst (λ k. Records g (update_record g k spec) k spec) (sym e) (update_chk g spec)

abbrev pub SameEntries : Data → Data → String → Type 0
SameEntries m m' key =
    (get (key <> spec_suffix) m' ≡ get (key <> spec_suffix) m)
    × (get (key <> inputs_suffix) m' ≡ get (key <> inputs_suffix) m)

-- Recording that the CHI or the CHK was applied leaves the entries of the other as they are.
pub update_record_others :
    (g : RolloutGate) (spec : String)
    → SameEntries g.recorded (update_record g "chi" spec).recorded "chk"
      × SameEntries g.recorded (update_record g "chk" spec).recorded "chi"
unfolding update_record
update_record_others g spec = (
  if-elim (λ m. SameEntries g.recorded m "chk") (is_unchanged g "chi" spec)
      (λ _. (simp get-put, simp get-put)) (λ _. (simp get-put, simp get-put)),
  if-elim (λ m. SameEntries g.recorded m "chi") (is_unchanged g "chk" spec)
      (λ _. (simp get-put, simp get-put)) (λ _. (simp get-put, simp get-put)),
)

-- What a Sync saves, the next one reads back: for the CHI and the CHK every entry of this format,
-- and the target. What was
-- recorded under a key of an earlier format is not read.
pub load_record_entries :
    (m : Data) (key : String)
    → IsKey key
    → SameEntries m (load_record m) key
      × (get target_key (load_record m) ≡ get target_key m)
      × (get (key <> ".inputs") (load_record m) ≡ "")
      × (get (key <> ".instance") (load_record m) ≡ "")
unfolding is_record_key
load_record_entries m key (inl e) =
    subst
      (λ k.
        SameEntries m (load_record m) k
        × (get target_key (load_record m) ≡ get target_key m)
        × (get (k <> ".inputs") (load_record m) ≡ "")
        × (get (k <> ".instance") (load_record m) ≡ ""))
      (sym e)
      (
        (get-load_record "chi.spec" m, get-load_record "chi.inputs-v3" m),
        get-load_record target_key m,
        get-load_record "chi.inputs" m,
        get-load_record "chi.instance" m,
      )
load_record_entries m key (inr e) =
    subst
      (λ k.
        SameEntries m (load_record m) k
        × (get target_key (load_record m) ≡ get target_key m)
        × (get (k <> ".inputs") (load_record m) ≡ "")
        × (get (k <> ".instance") (load_record m) ≡ ""))
      (sym e)
      (
        (get-load_record "chk.spec" m, get-load_record "chk.inputs-v3" m),
        get-load_record target_key m,
        get-load_record "chk.inputs" m,
        get-load_record "chk.instance" m,
      )
