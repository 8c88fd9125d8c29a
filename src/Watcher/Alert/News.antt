-- ===== src/Watcher/Alert/News.antt =====
-- A signal that a tracked unit changed its state, from its arrival to the messages about it.
use mathlib.Core.Path.{subst}
use mathlib.Core.List.{reverse_aux}
use killjoy.Base.{
  String, ◌≡◌, ◌≢◌, refl, ap, ◌∙◌, ℕ, ◌<◌, some, true, arith, ltb, not, ◌&&◌, eq_refl,
}
use killjoy.Base.Dict.{lookup, lookup-insert}
use killjoy.ActiveState.{state_eq, state_eq_iff}
use killjoy.Error.{ok}
use killjoy.Exec.{Outcome, returned, Exec, and_then, settle, attempt, pure, ◌>>=◌}
use killjoy.Unit.Machine.{UnitStateMachine, update}
use killjoy.Unit.Machine.Laws.{update-callback, update-machine}
use killjoy.Dbus.{Dbus}
use killjoy.Timestamp.{UnitProps, get_monotonic_timestamp, get_realtime_timestamp}
use killjoy.Generated.Signals.{PropertiesChanged}
use killjoy.Settings.Regex.{RegexCrate}
use killjoy.Settings.Types.{Settings, Notifier}
use killjoy.Settings.Sound.{IsSound}
use killjoy.Watcher.World.{World, gets}
use killjoy.Watcher.Names.{interface_for_systemd_unit}
use killjoy.Watcher.Rules.{get_active_state}
use killjoy.Watcher.Notify.{gen_on_change}
use killjoy.Watcher.Units.{stored, upsert_machine, upsert_unit_states}
use killjoy.Watcher.Handlers.{get_unit_id, tolerate, handle_properties_changed}
use killjoy.Watcher.Delivery.{Address, HasAddress, IsUp, Sends, sent, gen_on_change-Sends}
use killjoy.Watcher.Machines.Upsert.{observed}
use killjoy.Watcher.Monitor.{Monitor, view, letters}
use killjoy.Watcher.Monitor.Silent.{get_unit_id-Seen}

pub and_then_returned :
    {S A C : Type 0} (x : Outcome A × S) (a : A) (f : A → Exec S C)
    → x.0 ≡ returned a
    → and_then x f ≡ f a x.1
and_then_returned (r, s) a f e = rw e refl

module _ (B : Dbus) (R : RegexCrate) where
  -- What a changed-properties signal says of a unit, and how it was known before.
  pub record IsNews (settings : Settings R) (w : World) (msg : Dbus.Message B)
      (m : PropertiesChanged (Dbus.RefArg B)) (name : String) (usm o : UnitStateMachine) (ts : ℕ)
      : Type 0 where
    pub path : String
    pub interface : m.interface ≡ interface_for_systemd_unit
    pub from : Dbus.message_path B msg ≡ some path
    pub named : (get_unit_id B R settings path w).0 ≡ returned name
    pub state : get_active_state B m.changed_properties ≡ ok o.active_state
    pub real : get_realtime_timestamp B o.active_state m.changed_properties ≡ ok ts
    pub mono : get_monotonic_timestamp B o.active_state m.changed_properties ≡ ok o.mono_ts
    pub known : lookup name w.unit_states ≡ some usm
    pub newer : usm.mono_ts < o.mono_ts
    pub other : usm.active_state ≢ o.active_state

module _ (B : Dbus) (R : RegexCrate) (up : IsUp B) (settings : Settings R)
    (sound : IsSound B R settings) (address : String → Address)
    (reach : (name : String) (n : Notifier)
      → lookup name settings.notifiers ≡ some n
      → HasAddress B n (address name)) where
  -- The action returned, the unit's machine is `o`, and the messages about the change were sent.
  abbrev pub Alerts :
      String
      → UnitStateMachine
      → UnitStateMachine
      → ℕ
      → Monitor
      → Outcome (Unit {0}) × World
      → Type 0
  Alerts name usm o ts before (r, after) =
      (r ≡ returned tt)
      × (lookup name after.unit_states ≡ some o)
      × (sent after.trace
          ≡ reverse_aux (letters B R settings address name ts o (some usm.active_state))
              before.outbox)

  module _ (name : String) (usm o : UnitStateMachine) (ts : ℕ) (newer : usm.mono_ts < o.mono_ts)
      (other : usm.active_state ≢ o.active_state) (w : World) where
    update-Sends :
        Sends
          (letters B R settings address name ts o (some usm.active_state))
          w
          (update usm o.active_state o.mono_ts (gen_on_change B R settings name ts) w).1
    unfolding letters
    update-Sends =
        let fires : ltb usm.mono_ts o.mono_ts && not (state_eq usm.active_state o.active_state)
            ≡ true =
          ground (arith, state_eq_iff usm.active_state o.active_state) in
        rw
          (
            update-callback usm o.active_state o.mono_ts (gen_on_change B R settings name ts) w,
            fires,
          )
          (gen_on_change-Sends B R up settings sound address reach name ts o (some usm.active_state)
            w)

    machine-Alerts :
        lookup name w.unit_states ≡ some usm
        → Alerts name usm o ts (view w) (
            upsert_machine name o.active_state o.mono_ts
              (gen_on_change B R settings name ts)
              (lookup name w.unit_states)
              w)
    unfolding upsert_machine stored observed
    machine-Alerts known =
        let f = gen_on_change B R settings name ts in
        let (ret, _, mail) = update-Sends in
        let is_newer : ltb usm.mono_ts o.mono_ts ≡ true = ground arith in
        let now : (update usm o.active_state o.mono_ts f w).0 ≡ o =
          rw (update-machine usm o.active_state o.mono_ts f w, is_newer) refl in
        rw known (ret, rw (lookup-insert, eq_refl, now) refl, mail)

    upsert-Alerts :
        (props : UnitProps B)
        → get_active_state B props ≡ ok o.active_state
        → get_realtime_timestamp B o.active_state props ≡ ok ts
        → get_monotonic_timestamp B o.active_state props ≡ ok o.mono_ts
        → lookup name w.unit_states ≡ some usm
        → Alerts name usm o ts (view w) (upsert_unit_states B R settings name props w)
    unfolding upsert_unit_states gets ◌>>=◌
    upsert-Alerts props state real mono known = rw (state, real, mono) (machine-Alerts known)

  tolerated :
      (name : String) (usm o : UnitStateMachine) (ts : ℕ) (before : Monitor)
      (x : Outcome (Unit {0}) × World)
      → Alerts name usm o ts before x
      → Alerts name usm o ts before (and_then (settle x) tolerate)
  unfolding tolerate pure
  tolerated name usm o ts before (r, v) (ret, now, mail) = rw ret (refl, now, mail)

  -- The handler, at a world in which the signal is news of a unit.
  pub handle_properties_changed-Alerts :
      (msg : Dbus.Message B) (m : PropertiesChanged (Dbus.RefArg B)) (w : World) (name : String)
      (usm o : UnitStateMachine) (ts : ℕ)
      → IsNews B R settings w msg m name usm o ts
      → Alerts name usm o ts (view w) (handle_properties_changed B R settings msg m w)
  unfolding handle_properties_changed ◌>>=◌
  handle_properties_changed-Alerts msg m w name usm o ts news =
      let asked = get_unit_id B R settings news.path w in
      let same : view asked.1 ≡ view w =
        (get_unit_id-Seen (λ n. n ≡ view w) B R settings news.path).at w refl in
      rw (news.interface, news.from, and_then_returned asked name _ news.named)
        (subst
          (λ (n : Monitor). Alerts name usm o ts n (
            (attempt (upsert_unit_states B R settings name m.changed_properties) >>= tolerate)
              asked.1))
          same
          (tolerated name usm o ts (view asked.1) _ (
            upsert-Alerts name usm o ts news.newer news.other asked.1 m.changed_properties
              news.state news.real news.mono
              (ap (λ (n : Monitor). n.board name) same ∙ news.known))))
