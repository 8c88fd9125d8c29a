-- ===== src/Watcher/BusTypes.antt =====
-- What the bus types of the rules mean to a watcher.
use mathlib.Core.Path.{fun_ext}
use killjoy.Exec.Same.{bind_same, then_same}
use killjoy.Base.{
  String, ◌≡◌, refl, ℕ, Option, none, some, List, [], ◌∷◌, map, filter, is_empty, ◌==◌, Bool,
  Bool-cases, inl, inr,
}
use killjoy.Dbus.{Dbus, BusType}
use killjoy.Settings.Regex.{RegexCrate}
use killjoy.Settings.Types.{Settings, Rule}
use killjoy.Watcher.Rules.{
  get_rules_matching_name, get_rules_matching_active_state, rules_match_name,
}
use killjoy.Watcher.Notify.{interested, notify_rules, gen_on_change}
use killjoy.Error.{Error, Result, ok, err}
use killjoy.Exec.{pure, attempt}
use killjoy.Timestamp.{UnitProps}
use killjoy.Generated.Signals.{UnitNew, UnitRemoved, PropertiesChanged}
use killjoy.Watcher.Names.{interface_for_systemd_unit}
use killjoy.Watcher.Manager.{call_manager_get_unit}
use killjoy.Watcher.Units.{upsert_unit_states}
use killjoy.Watcher.Handlers.{
  upsert_if_loaded, track, handle_unit_new, handle_unit_removed, handle_properties_changed,
  dispatch, handle_message, get_unit_id,
}
use killjoy.Watcher.Run.{BusWatcher, track_if_loaded, learn_unit, learn_units, serve, run}

module _ (R : RegexCrate) (bus_of : Rule R → BusType) where
  -- A rule with another bus type.
  abbrev pub moved : Rule R → Rule R
  moved rule = record rule { bus_type = bus_of rule }

  abbrev pub all_moved : Settings R → Settings R
  all_moved settings = record settings { rules = map moved settings.rules }

  filter-moved :
      (p : Rule R → Bool)
      → ((r : Rule R) → p (moved r) ≡ p r)
      → (rules : List (Rule R)) → filter p (map moved rules) ≡ map moved (filter p rules)
  filter-moved p same [] = refl
  filter-moved p same (r ∷ rs) = elim (Bool-cases (p r)) [
    | inl e ↦ rw (same r, e, filter-moved p same rs) refl
    | inr e ↦ rw (same r, e, filter-moved p same rs) refl
  ]

  by_name_moved :
      (rules : List (Rule R)) (name : String)
      → get_rules_matching_name R (map moved rules) name
        ≡ map moved (get_rules_matching_name R rules name)
  unfolding get_rules_matching_name
  by_name_moved rules name = filter-moved _ (λ r. refl) rules

  by_state_moved :
      (rules : List (Rule R)) (s : _)
      → get_rules_matching_active_state R (map moved rules) s
        ≡ map moved (get_rules_matching_active_state R rules s)
  unfolding get_rules_matching_active_state
  by_state_moved rules s = filter-moved _ (λ r. refl) rules

  empty_moved : (rules : List (Rule R)) → is_empty (map moved rules) ≡ is_empty rules
  empty_moved [] = refl
  empty_moved (r ∷ rs) = refl

  match_moved :
      (rules : List (Rule R)) (name : String)
      → rules_match_name R (map moved rules) name ≡ rules_match_name R rules name
  unfolding rules_match_name
  match_moved rules name = rw (by_name_moved, empty_moved) refl

  module _ (B : Dbus) where
    notify_moved :
        (notifiers : _) (unit_name : String) (ts : ℕ) (states : List String) (rules : List (Rule R))
        → notify_rules B R notifiers unit_name ts states (map moved rules)
          ≡ notify_rules B R notifiers unit_name ts states rules
    unfolding notify_rules
    notify_moved notifiers unit_name ts states [] = refl
    notify_moved notifiers unit_name ts states (r ∷ rs) =
        rw (notify_moved notifiers unit_name ts states rs) refl

    module _ (settings : Settings R) where
      change_moved :
          (unit_name : String) (ts : ℕ)
          → gen_on_change B R (all_moved settings) unit_name ts
            ≡ gen_on_change B R settings unit_name ts
      unfolding gen_on_change interested
      change_moved unit_name ts = fun_ext λ usm. fun_ext λ old.
          rw
            (
              by_name_moved settings.rules unit_name,
              by_state_moved (get_rules_matching_name R settings.rules unit_name) usm.active_state,
              notify_moved,
            )
            refl

      upsert_moved :
          (unit_name : String) (props : UnitProps B)
          → upsert_unit_states B R (all_moved settings) unit_name props
            ≡ upsert_unit_states B R settings unit_name props
      unfolding upsert_unit_states
      upsert_moved unit_name props = bind_same _ _ _ λ state.
          bind_same _ _ _
            λ ts. bind_same _ _ _ λ mono. bind_same _ _ _ λ found. rw change_moved refl

      loaded_moved :
          (unit_name : String) (r : Result Error (UnitProps B))
          → upsert_if_loaded B R (all_moved settings) unit_name r
            ≡ upsert_if_loaded B R settings unit_name r
      unfolding upsert_if_loaded
      loaded_moved unit_name (ok props) = upsert_moved unit_name props
      loaded_moved unit_name (err e) = refl

      track_moved :
          (unit_name unit_path : String)
          → track B R (all_moved settings) unit_name unit_path
            ≡ track B R settings unit_name unit_path
      unfolding track
      track_moved unit_name unit_path =
          bind_same _ _ _ λ _. bind_same _ _ _ (loaded_moved unit_name)

      dispatch_moved :
          (msg : Dbus.Message B) (n : Option UnitNew) (r : Option UnitRemoved)
          (c : Option (PropertiesChanged (Dbus.RefArg B)))
          → dispatch B R (all_moved settings) msg n r c ≡ dispatch B R settings msg n r c
      unfolding dispatch handle_unit_new handle_unit_removed handle_properties_changed get_unit_id
      dispatch_moved msg (some n) r c = rw (match_moved, track_moved) refl
      dispatch_moved msg none (some r) c = rw match_moved refl
      dispatch_moved msg none none (some c) =
          then_same (c.interface == interface_for_systemd_unit) _ _ _
            (bind_same _ _ _ λ path. bind_same _ _ _ λ name. rw upsert_moved refl)
      dispatch_moved msg none none none = refl

      if_loaded_moved :
          (name : String) (r : Result Error String)
          → track_if_loaded B R (all_moved settings) name r ≡ track_if_loaded B R settings name r
      unfolding track_if_loaded
      if_loaded_moved name (ok path) = track_moved name path
      if_loaded_moved name (err e) = refl

      learn_unit_moved :
          (name : String) → learn_unit B R (all_moved settings) name ≡ learn_unit B R settings name
      unfolding learn_unit
      learn_unit_moved name = rw match_moved (
          then_same (rules_match_name R settings.rules name) _ _ (pure tt)
            (bind_same (attempt (call_manager_get_unit B name)) _ _ (if_loaded_moved name)))

      learn_moved :
          (names : List String)
          → learn_units B R (all_moved settings) names ≡ learn_units B R settings names
      unfolding learn_units
      learn_moved [] = refl
      learn_moved (name ∷ names) = rw (learn_unit_moved, learn_moved names) refl

    module _ (watcher : BusWatcher R) where
      abbrev watcher_moved : BusWatcher R
      watcher_moved = record watcher { settings = all_moved watcher.settings }

      serve_moved :
          (schedule : List (Option (Dbus.Message B)))
          → serve B R watcher_moved schedule ≡ serve B R watcher schedule
      unfolding serve handle_message
      serve_moved [] = refl
      serve_moved (none ∷ schedule) = rw (serve_moved schedule) refl
      serve_moved (some msg ∷ schedule) = rw (serve_moved schedule, dispatch_moved) refl

      -- A watcher makes no use of the rules' bus types: with any others it makes the same run. So each
      -- thread applies every rule, also those that name another bus than the thread's.
      pub run_moved :
          (schedule : List (Option (Dbus.Message B)))
          → run B R watcher_moved schedule ≡ run B R watcher schedule
      unfolding run
      run_moved schedule = rw (serve_moved schedule) (bind_same _ _ _ λ names. rw learn_moved refl)
