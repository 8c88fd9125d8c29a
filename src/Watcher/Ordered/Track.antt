-- ===== src/Watcher/Ordered/Track.antt =====
-- The order of the calls when a unit becomes tracked.
use killjoy.Base.{String, ◌≡◌, List, ◌∷◌, inl, inr, arith, ap}
use killjoy.Error.{Error, Result, ok, err, Result-cases}
use killjoy.Exec.{◌>>=◌}
use killjoy.Exec.Keeps.{Keeps}
use killjoy.Dbus.{Dbus, Call, ConnPath, method_call}
use killjoy.Generated.Client.{get_all}
use killjoy.Generated.Trace.{get_all-trace}
use killjoy.Timestamp.{UnitProps}
use killjoy.Settings.Regex.{RegexCrate}
use killjoy.Settings.Types.{Settings}
use killjoy.Watcher.World.{World, ask, invoke}
use killjoy.Watcher.Names.{bus_name_for_systemd, wrap_bus_name_for_systemd, get_conn_path}
use killjoy.Watcher.Manager.{
  call_properties_get_all, subscribe_signal, subscribe_properties_changed,
}
use killjoy.Watcher.Units.{upsert_unit_states}
use killjoy.Watcher.Handlers.{upsert_if_loaded, track}
use killjoy.Watcher.Ordered.Calls.{change_rule, Ordered, add_match-IsQuiet}
use killjoy.Watcher.Ordered.Quiet.{quiet_rules, upsert_machine-Ordered, gen_on_change-Ordered}
use killjoy.Exec.Keeps.{and_then-after, and_then-keeps, settle-keeps}
use killjoy.Exec.{settle}

module _ (B : Dbus) (R : RegexCrate) (settings : Settings R) where
  pub upsert-Ordered :
      (name : String) (props : UnitProps B)
      → Keeps (Ordered B) (upsert_unit_states B R settings name props)
  unfolding upsert_unit_states
  upsert-Ordered name props =
      search (quiet_rules, upsert_machine-Ordered, gen_on_change-Ordered) depth 9

  upsert_if_loaded-Ordered :
      (name : String) (props : Result Error (UnitProps B))
      → Keeps (Ordered B) (upsert_if_loaded B R settings name props)
  unfolding upsert_if_loaded
  upsert_if_loaded-Ordered name (ok props) = upsert-Ordered name props
  upsert_if_loaded-Ordered name (err e) = search quiet_rules

same_conn :
    (c d : ConnPath) (i m : String) (xs ys : List String)
    → method_call c i m xs ≡ method_call d i m ys
    → c ≡ d
same_conn c d i m xs ys e = cc

module _ (B : Dbus) (path : String) where
  abbrev conn : String → ConnPath
  conn n = record { dest = n; path = path; timeout = 1000 }

  abbrev asked : World → Call → World
  asked w call = record w { trace = call ∷ w.trace }

  subscribe-world :
      (w : World) (n : String)
      → Dbus.bus_name_new B bus_name_for_systemd ≡ ok n
      → (subscribe_properties_changed B path w).1 ≡ asked w (change_rule B (conn n))
  unfolding subscribe_properties_changed wrap_bus_name_for_systemd subscribe_signal ask ◌>>=◌
  subscribe-world w n e = ground arith

  get_all-world :
      (w : World) (n : String)
      → Dbus.bus_name_new B bus_name_for_systemd ≡ ok n
      → (call_properties_get_all B path w).1
        ≡ record w { trace = (get_all B (conn n) "org.freedesktop.systemd1.Unit" w.trace).1 }
  unfolding call_properties_get_all get_conn_path wrap_bus_name_for_systemd invoke ◌>>=◌
  get_all-world w n e = ground arith

  get_all-Ordered :
      (w : World) (n : String)
      → Dbus.bus_name_new B bus_name_for_systemd ≡ ok n
      → Ordered B w
      → Ordered B (call_properties_get_all B path (asked w (change_rule B (conn n)))).1
  get_all-Ordered w n e h =
      rw (get_all-world _ n e, get_all-trace)
        (
          λ c (args, q). inl (ap (change_rule B) (same_conn (conn n) c _ _ _ args q)),
          (λ c g. absurd (add_match-IsQuiet _ c g), h),
        )

module _ (B : Dbus) (R : RegexCrate) (settings : Settings R) (name path : String) (w : World)
    (h : Ordered B w) where
  track_valid-Ordered :
      (n : String)
      → Dbus.bus_name_new B bus_name_for_systemd ≡ ok n
      → Ordered B (track B R settings name path w).1
  unfolding track ◌>>=◌
  track_valid-Ordered n e =
      and_then-after (Ordered B) (subscribe_properties_changed B path w) _
        (rw (subscribe-world B path w n e) (λ c g. absurd (add_match-IsQuiet _ c g), h))
        λ _. rw (subscribe-world B path w n e) (
          and_then-keeps (Ordered B)
            (settle
              (call_properties_get_all B path (asked B path w (change_rule B (conn B path n)))))
            _
            (settle-keeps (Ordered B)
              (call_properties_get_all B path (asked B path w (change_rule B (conn B path n))))
              (get_all-Ordered B path w n e h))
            (upsert_if_loaded-Ordered B R settings name))

  track_invalid-Ordered :
      (x : String)
      → Dbus.bus_name_new B bus_name_for_systemd ≡ err x
      → Ordered B (track B R settings name path w).1
  unfolding track ◌>>=◌ subscribe_properties_changed wrap_bus_name_for_systemd
  track_invalid-Ordered x e = rw e h

module _ (B : Dbus) (R : RegexCrate) (settings : Settings R) where
  -- Tracking a unit asks for its properties after subscribing to their changes.
  pub track-Ordered : (name path : String) → Keeps (Ordered B) (track B R settings name path)
  track-Ordered name path = record {
    at = λ w h. elim (Result-cases (Dbus.bus_name_new B bus_name_for_systemd)) [
      | inl (n, e) ↦ track_valid-Ordered B R settings name path w h n e
      | inr (x, e) ↦ track_invalid-Ordered B R settings name path w h x e
    ];
  }
