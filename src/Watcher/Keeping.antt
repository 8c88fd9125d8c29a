-- ===== src/Watcher/Keeping.antt =====
-- The actions of a watcher that read constants or decide on a result leave the world alone, so they
-- keep whatever holds of it.
use killjoy.Base.{String}
use killjoy.Error.{Error, Result, ok, err}
use killjoy.Exec.{◌>>=◌}
use killjoy.Exec.Keeps.{Keeps, keeps_rules}
use killjoy.Dbus.{Dbus}
use killjoy.Watcher.World.{World}
use killjoy.Watcher.Names.{
  wrap_bus_name_for_systemd, wrap_path_for_systemd, get_conn_path,
  wrap_interface_for_killjoy_notifier, wrap_member_for_notify,
}
use killjoy.Watcher.Handlers.{tolerate}

module _ (P : World → Type 0) (B : Dbus) where
  pub bus_name-Keeps : Keeps P (wrap_bus_name_for_systemd B)
  unfolding wrap_bus_name_for_systemd
  bus_name-Keeps = search keeps_rules

  pub path-Keeps : Keeps P (wrap_path_for_systemd B)
  unfolding wrap_path_for_systemd
  path-Keeps = search keeps_rules

  pub interface-Keeps : Keeps P (wrap_interface_for_killjoy_notifier B)
  unfolding wrap_interface_for_killjoy_notifier
  interface-Keeps = search keeps_rules

  pub member-Keeps : Keeps P (wrap_member_for_notify B)
  unfolding wrap_member_for_notify
  member-Keeps = search keeps_rules

  pub conn_path-Keeps : (path : String) → Keeps P (get_conn_path B path)
  unfolding get_conn_path
  conn_path-Keeps path = search (keeps_rules, bus_name-Keeps)

pub tolerate-Keeps : (P : World → Type 0) (r : Result Error (Unit {0})) → Keeps P (tolerate r)
unfolding tolerate ◌>>=◌
tolerate-Keeps P (ok _) = record { at = λ w h. h }
tolerate-Keeps P (err Error.properties_lacks_active_state) = record { at = λ w h. h }
tolerate-Keeps P (err _) = record { at = λ w h. h }

pub ruleset still_rules = (
  keeps_rules, bus_name-Keeps, path-Keeps, interface-Keeps, member-Keeps, conn_path-Keeps,
  tolerate-Keeps,
)
