-- ===== src/Sync/Effects.antt =====
-- Which parts of a Sync apply no CHI and no CHK and request no maintenance: reading and rendering.
-- Asking the gate about the CHK applies no CHI.
use provider_altinity_clickh.Prelude.{
  ℕ, refl, String, Bool, true, false, Option, none, some, List, [], ◌∷◌, arith, if◌then◌else◌,
  is_some,
}
use provider_altinity_clickh.Operator.{Chk}
use provider_altinity_clickh.Instance.{Instance, ComponentSpec, keeper_of}
use provider_altinity_clickh.Cluster.{
  Event, applied, maintenance_requested, Object, Exec, lift, ◌>>=◌, apply,
}
use provider_altinity_clickh.Cluster.Effects.{Keeps, >>=-Keeps, lift-Keeps, if-Keeps}
use provider_altinity_clickh.Rollout.{
  Fingerprints, RolloutGate, Installation, keeper, read_record, inputs_hash, hash_all,
  new_rollout_gate, gate_apply, gate_live, is_stamped, is_allowed, stamp_task_id, to_object,
  apply_allowed, record_applied, read_live, decide, save, maintenance_decision,
}
use provider_altinity_clickh.Runtime.{Runtime}
use provider_altinity_clickh.Image.{resolve_image}
use provider_altinity_clickh.Common.{component_keeper}
use provider_altinity_clickh.Keeper.{KeeperWiring}
use provider_altinity_clickh.Keeper.Live.{live_keeper_state, plan_keeper_wiring}
use provider_altinity_clickh.Render.{credentials_for_chi}
use provider_altinity_clickh.Render.Chi.{build_chi_wired}
use provider_altinity_clickh.Render.Chk.{
  build_chk_wired, resolve_keeper_storage, keeper_storage_class, undeclared_class,
}

-- One of the calls that change something for the pods: an apply of the CHI, one of the CHK, and a
-- request for maintenance.
pub data Watched : Type 0 where
  chi_apply chk_apply maintenance_request : Watched

abbrev is_chi : Watched → Bool
is_chi chi_apply = true
is_chi chk_apply = false
is_chi maintenance_request = false

abbrev is_chk : Watched → Bool
is_chk chi_apply = false
is_chk chk_apply = true
is_chk maintenance_request = false

abbrev is_maintenance : Watched → Bool
is_maintenance chi_apply = false
is_maintenance chk_apply = false
is_maintenance maintenance_request = true

abbrev pub watched : Watched → Event → Bool
watched w (applied (Object.chi chi)) = is_chi w
watched w (applied (Object.chk chk)) = is_chk w
watched w (maintenance_requested token) = is_maintenance w
watched w _ = false

abbrev pub is_chi_apply : Event → Bool
is_chi_apply = watched chi_apply

-- An action that makes no such call.
abbrev pub Holds : Watched → {A : Type 0} → Exec A → Type 0
Holds w m = Keeps (watched w) m

module _ (w : Watched) where
  abbrev then_ :
      {A B : Type 0} {m : Exec A} {f : A → Exec B}
      → Holds w m
      → ((a : A) → Holds w (f a))
      → Holds w (m >>= f)
  then_ {m = m} {f = f} k l = >>=-Keeps (watched w) m f k l

  pub plan_keeper_wiring-Holds : (instance_ : Instance) → Holds w (plan_keeper_wiring instance_)
  unfolding plan_keeper_wiring live_keeper_state
  plan_keeper_wiring-Holds instance_ = record { keeps = λ api h. ground arith }

  pub build_chi_wired-Holds :
      (rt : Runtime) (instance_ : Instance) (n : ℕ) (wiring : KeeperWiring)
      → Holds w (build_chi_wired rt instance_ n wiring)
  unfolding build_chi_wired credentials_for_chi
  build_chi_wired-Holds rt instance_ n wiring = record { keeps = λ api h. ground arith }

  keeper_storage_class-Holds :
      (instance_ : Instance) (declared : Option String)
      → Holds w (keeper_storage_class instance_ declared)
  unfolding keeper_storage_class undeclared_class
  keeper_storage_class-Holds instance_ none = record { keeps = λ api h. ground arith }
  keeper_storage_class-Holds instance_ (some class) = record { keeps = λ api h. refl }

  resolve_keeper_storage-Holds :
      (instance_ : Instance) (component : ComponentSpec)
      → Holds w (resolve_keeper_storage instance_ component)
  unfolding resolve_keeper_storage
  resolve_keeper_storage-Holds instance_ component =
      then_ (keeper_storage_class-Holds instance_ _) (λ class. record { keeps = λ api h. refl })

  pub build_chk_wired-Holds :
      (rt : Runtime) (instance_ : Instance) (wiring : KeeperWiring)
      → Holds w (build_chk_wired rt instance_ wiring)
  unfolding build_chk_wired
  build_chk_wired-Holds rt instance_ wiring =
      >>=-Keeps (watched w)
        (lift (resolve_image rt instance_ component_keeper (keeper_of instance_))) _
        (lift-Keeps (watched w) _)
        (λ image.
          >>=-Keeps (watched w) _ _ (resolve_keeper_storage-Holds instance_ (keeper_of instance_))
            (λ storage. record { keeps = λ api h. refl }))

  hash_all-Holds :
      (prints : Fingerprints) (rendered : List Installation) → Holds w (hash_all prints rendered)
  unfolding hash_all
  hash_all-Holds prints [] = record { keeps = λ api h. refl }
  hash_all-Holds prints (obj ∷ rendered) =
      >>=-Keeps (watched w) (lift (prints.spec_hash obj)) _ (lift-Keeps (watched w) _) (λ h.
        >>=-Keeps (watched w) _ _ (hash_all-Holds prints rendered)
          (λ hs. record { keeps = λ api h. refl }))

  read_record-Holds : (instance_ : Instance) → Holds w (read_record instance_)
  unfolding read_record
  read_record-Holds instance_ = record { keeps = λ api h. ground arith }

  inputs_hash-Holds :
      (prints : Fingerprints) (instance_ : Instance) → Holds w (inputs_hash prints instance_)
  unfolding inputs_hash
  inputs_hash-Holds prints instance_ = record { keeps = λ api h. ground arith }

  pub new_rollout_gate-Holds :
      (prints : Fingerprints) (instance_ : Instance) (rendered : List Installation)
      → Holds w (new_rollout_gate prints instance_ rendered)
  unfolding new_rollout_gate
  new_rollout_gate-Holds prints instance_ rendered =
      >>=-Keeps (watched w) _ _ (read_record-Holds instance_) (λ recorded.
        >>=-Keeps (watched w) _ _ (inputs_hash-Holds prints instance_) (λ inputs.
          >>=-Keeps (watched w) _ _ (hash_all-Holds prints rendered)
            (λ hashes. record { keeps = λ api h. refl })))

decide-Holds : (g : RolloutGate) (allowed : Bool) → Holds chi_apply (decide g allowed)
unfolding decide maintenance_decision
decide-Holds g true = record { keeps = λ api h. refl }
decide-Holds g false = record { keeps = λ api h. ground arith }

module _ (instance_ : Instance) (chk : Chk) (key spec : String) where
  record_applied-Holds : (g : RolloutGate) → Holds chi_apply (record_applied instance_ g key spec)
  unfolding record_applied save
  record_applied-Holds g = record { keeps = λ api h. ground arith }

  apply_keeper-Holds :
      (stamped : Bool)
      → Holds chi_apply
          (apply (to_object (if stamped then stamp_task_id (keeper chk) spec else keeper chk)))
  unfolding stamp_task_id
  apply_keeper-Holds true = record { keeps = λ api h. refl }
  apply_keeper-Holds false = record { keeps = λ api h. refl }

  apply_allowed-Holds :
      (g : RolloutGate) (live : Option Installation)
      → Holds chi_apply (apply_allowed instance_ g (keeper chk) key spec live)
  unfolding apply_allowed
  apply_allowed-Holds g live =
      >>=-Keeps (watched chi_apply) _ _ (apply_keeper-Holds (is_stamped g key spec live))
        (λ done. record_applied-Holds g)

  gate_live-Holds :
      (g : RolloutGate) (live : Option Installation)
      → Holds chi_apply (gate_live instance_ g (keeper chk) key spec live)
  unfolding gate_live
  gate_live-Holds g live =
      >>=-Keeps (watched chi_apply) _ _ (decide-Holds g (is_allowed g (is_some live) key spec))
        (λ decision.
          if-Keeps (watched chi_apply) decision.1 _ _ (apply_allowed-Holds decision.0 live)
            (record { keeps = λ api h. refl }))

read_live-Holds : (chk : Chk) → Holds chi_apply (read_live (keeper chk))
unfolding read_live
read_live-Holds chk = record { keeps = λ api h. refl }

-- Asking about the CHK applies no CHI, whatever is decided.
pub gate_apply-Holds :
    (prints : Fingerprints) (instance_ : Instance) (g : RolloutGate) (chk : Chk) (key : String)
    → Holds chi_apply (gate_apply prints instance_ g (keeper chk) key)
unfolding gate_apply
gate_apply-Holds prints instance_ g chk key =
    >>=-Keeps (watched chi_apply) (lift (prints.spec_hash (keeper chk))) _
      (lift-Keeps (watched chi_apply) _)
      (λ spec.
        >>=-Keeps (watched chi_apply) _ _ (read_live-Holds chk)
          (λ live. gate_live-Holds instance_ chk key spec g live))
