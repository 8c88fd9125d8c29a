-- ===== src/Watcher/Unchanged.antt =====
-- Changes of properties that say nothing of a unit's state.
use mathlib.Core.Path.{subst, sym}
use killjoy.Base.{
  String, ◌≡◌, ◌≢◌, refl, Option, none, some, ◌==◌, true, false, Bool, if◌then◌else◌, arith,
}
use killjoy.Base.Dict.{lookup}
use killjoy.Error.{Error, ok_or}
use killjoy.Exec.{Outcome, raised, Exec, pure, lift, attempt, ◌>>=◌}
use killjoy.Exec.Same.{bind_same}
use killjoy.Dbus.{Dbus}
use killjoy.Timestamp.{UnitProps}
use killjoy.Generated.Signals.{PropertiesChanged}
use killjoy.Settings.Regex.{RegexCrate}
use killjoy.Settings.Types.{Settings}
use killjoy.Watcher.World.{World, invoke}
use killjoy.Watcher.Names.{interface_for_systemd_unit, wrap_bus_name_for_systemd, get_conn_path}
use killjoy.Watcher.Rules.{get_active_state}
use killjoy.Watcher.Units.{upsert_unit_states}
use killjoy.Watcher.Handlers.{tolerate, get_unit_id, handle_properties_changed}

-- The outcome is not the error that a properties message lacks its state, and the machines are these.
abbrev pub IsQuiet : World → Outcome (Unit {0}) × World → Type 0
IsQuiet w (r, after) =
    (r ≢ raised Error.properties_lacks_active_state) × (after.unit_states ≡ w.unit_states)

module _ (B : Dbus) (R : RegexCrate) (settings : Settings R) where
  upsert_tolerated :
      (name : String) (props : UnitProps B)
      → lookup "ActiveState" props ≡ none
      → (attempt (upsert_unit_states B R settings name props) >>= tolerate) ≡ pure tt
  unfolding upsert_unit_states get_active_state tolerate ◌>>=◌
  upsert_tolerated name props e = rw e refl

  id-IsQuiet :
      (path : String) (w : World) → IsQuiet w ((get_unit_id B R settings path >>= λ _. pure tt) w)
  unfolding get_unit_id get_conn_path wrap_bus_name_for_systemd invoke ◌>>=◌
  id-IsQuiet path w = ground arith

  named-IsQuiet :
      (path : Option String) (w : World)
      → IsQuiet w (
          (lift (ok_or Error.message_lacks_path path) >>= λ unit_path.
          get_unit_id B R settings unit_path >>= λ _. pure tt)
            w)
  unfolding ◌>>=◌
  named-IsQuiet none w = (λ h. absurd (ground arith), refl)
  named-IsQuiet (some path) w = id-IsQuiet path w

  if-IsQuiet :
      (b : Bool) (x : World → Outcome (Unit {0}) × World) (w : World)
      → IsQuiet w (x w)
      → IsQuiet w ((if b then x else pure tt) w)
  unfolding pure
  if-IsQuiet true x w h = h
  if-IsQuiet false x w h = (λ e. absurd (ground arith), refl)

  -- A message about changed properties that has no ActiveState among them changes no machine, and
  -- the lack is not an error.
  pub handle_properties_changed-IsQuiet :
      (msg : Dbus.Message B) (m : PropertiesChanged (Dbus.RefArg B)) (w : World)
      → lookup "ActiveState" m.changed_properties ≡ none
      → IsQuiet w (handle_properties_changed B R settings msg m w)
  unfolding handle_properties_changed
  handle_properties_changed-IsQuiet msg m w e =
      let same =
        bind_same (lift (ok_or Error.message_lacks_path (Dbus.message_path B msg)))
          (λ p. get_unit_id B R settings p >>= λ n.
            attempt (upsert_unit_states B R settings n m.changed_properties) >>= tolerate)
          (λ p. get_unit_id B R settings p >>= λ _. pure tt)
          (λ p.
            bind_same (get_unit_id B R settings p) _ _
              (λ n. upsert_tolerated n m.changed_properties e)) in
      subst
        (λ (k : Exec World (Unit {0})).
          IsQuiet w ((if m.interface == interface_for_systemd_unit then k else pure tt) w))
        (sym same)
        (if-IsQuiet (m.interface == interface_for_systemd_unit)
          (lift (ok_or Error.message_lacks_path (Dbus.message_path B msg)) >>= λ p.
            get_unit_id B R settings p >>= λ _. pure tt)
          w (named-IsQuiet (Dbus.message_path B msg) w))
