-- ===== src/Health/Readiness.antt =====
-- Which updates of the health decide whether the daemon is ready.
use apolysis.Common.{◌↔◌, ◌≡◌, refl, ap, ◌∙◌, Bool, true, List, [], ◌∷◌, arith, if◌then◌else◌}
use apolysis.Common.Ordered.{same}
use apolysis.Common.TreeMap.{get-insert}
use apolysis.Health.{
  adapter_ord, ComponentState, ready, AdapterKind, HealthSnapshot, set_event_loop_running, set_ebpf,
  set_storage, set_adapter, adapter, liveness, readiness,
}

pub data Update : Type 0 where
  runs : Bool → Update
  ebpf storage : ComponentState → Update
  adapts : AdapterKind → ComponentState → Update

unfoldable pub update : Update → HealthSnapshot → HealthSnapshot
update (runs b) h = set_event_loop_running b h
update (ebpf s) h = set_ebpf s h
update (storage s) h = set_storage s h
update (adapts k s) h = set_adapter k s h

unfoldable pub update_all : List Update → HealthSnapshot → HealthSnapshot
update_all [] h = h
update_all (u ∷ us) h = update_all us (update u h)

-- The last word of a history on each part, and what is reported where there is none.
abbrev pub last_running : List Update → Bool → Bool
last_running [] b = b
last_running (runs c ∷ us) b = last_running us c
last_running (_ ∷ us) b = last_running us b

abbrev pub last_ebpf : List Update → ComponentState → ComponentState
last_ebpf [] s = s
last_ebpf (ebpf t ∷ us) s = last_ebpf us t
last_ebpf (_ ∷ us) s = last_ebpf us s

abbrev pub last_storage : List Update → ComponentState → ComponentState
last_storage [] s = s
last_storage (storage t ∷ us) s = last_storage us t
last_storage (_ ∷ us) s = last_storage us s

abbrev pub last_adapter : AdapterKind → List Update → ComponentState → ComponentState
last_adapter k [] s = s
last_adapter k (adapts j t ∷ us) s = last_adapter k us (if same k j then t else s)
last_adapter k (_ ∷ us) s = last_adapter k us s

pub record Reports (us : List Update) (h : HealthSnapshot) (h' : HealthSnapshot) : Type 0 where
  pub live : liveness h' ≡ last_running us (liveness h)
  pub ready_iff : (readiness h' ≡ true) ↔ (
      (last_running us (liveness h) ≡ true)
      × (last_ebpf us h.ebpf_state ≡ ready)
      × (last_storage us h.storage_state ≡ ready))
  pub adapters : (k : AdapterKind) → adapter k h' ≡ last_adapter k us (adapter k h)

adapter-set_adapter :
    (j k : AdapterKind) (s : ComponentState) (h : HealthSnapshot)
    → adapter j (set_adapter k s h) ≡ (if same j k then s else adapter j h)
unfolding adapter set_adapter
adapter-set_adapter j k s h = ground (arith, get-insert k j s h.adapters)

-- After any updates the daemon is live as last set, ready exactly if it is live and the last
-- states of the probe and of the storage are ready, and each adapter is in its last state.
pub update_all-Reports : (us : List Update) (h : HealthSnapshot) → Reports us h (update_all us h)
unfolding update_all update set_event_loop_running set_ebpf set_storage set_adapter liveness
    readiness adapter
update_all-Reports [] h = record { live = refl; ready_iff = ground arith; adapters = λ k. refl }
update_all-Reports (runs b ∷ us) h =
    let later = update_all-Reports us (set_event_loop_running b h) in
    record { live = later.live; ready_iff = later.ready_iff; adapters = later.adapters }
update_all-Reports (ebpf s ∷ us) h =
    let later = update_all-Reports us (set_ebpf s h) in
    record { live = later.live; ready_iff = later.ready_iff; adapters = later.adapters }
update_all-Reports (storage s ∷ us) h =
    let later = update_all-Reports us (set_storage s h) in
    record { live = later.live; ready_iff = later.ready_iff; adapters = later.adapters }
update_all-Reports (adapts k s ∷ us) h =
    let later = update_all-Reports us (set_adapter k s h) in
    record {
      live = later.live;
      ready_iff = later.ready_iff;
      adapters = λ j. later.adapters j ∙ ap (last_adapter j us) (adapter-set_adapter j k s h);
    }
