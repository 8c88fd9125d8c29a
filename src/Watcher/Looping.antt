-- ===== src/Watcher/Looping.antt =====
-- What the handlers of the three signals keep is kept by the signal loop.
use killjoy.Base.{Option, none, some, List, [], ◌∷◌, ◌≡◌, refl, All}
use killjoy.Exec.Keeps.{Keeps, Keeps-pure, Keeps-bind, Keeps-if}
use killjoy.Dbus.{Dbus, poll}
use killjoy.Generated.Signals.{UnitNew, UnitRemoved, PropertiesChanged, unit_removed_from_message}
use killjoy.Settings.Regex.{RegexCrate}
use killjoy.Settings.Types.{Settings}
use killjoy.Watcher.World.{World, tell}
use killjoy.Watcher.Handlers.{
  handle_unit_new, handle_unit_removed, handle_properties_changed, dispatch, handle_message,
}
use killjoy.Watcher.Run.{BusWatcher, serve}

module _ (P : World → Type 0) (B : Dbus) (R : RegexCrate) where
  module _ (settings : Settings R) (msg : Dbus.Message B) where
    dispatch-Keeps :
        (a : Option UnitNew) (b : Option UnitRemoved)
        (c : Option (PropertiesChanged (Dbus.RefArg B)))
        → ((m : UnitNew) → Keeps P (handle_unit_new B R settings m))
        → ((m : UnitRemoved) → b ≡ some m → Keeps P (handle_unit_removed B R settings m))
        → ((m : PropertiesChanged (Dbus.RefArg B))
            → Keeps P (handle_properties_changed B R settings msg m))
        → Keeps P (dispatch B R settings msg a b c)
    unfolding dispatch
    dispatch-Keeps (some m) b c on_new on_removed on_changed = on_new m
    dispatch-Keeps none (some m) c on_new on_removed on_changed = on_removed m refl
    dispatch-Keeps none none (some m) on_new on_removed on_changed = on_changed m
    dispatch-Keeps none none none on_new on_removed on_changed = Keeps-pure _

    pub message-Keeps :
        ((m : UnitNew) → Keeps P (handle_unit_new B R settings m))
        → ((m : UnitRemoved)
            → unit_removed_from_message B msg ≡ some m
            → Keeps P (handle_unit_removed B R settings m))
        → ((m : PropertiesChanged (Dbus.RefArg B))
            → Keeps P (handle_properties_changed B R settings msg m))
        → Keeps P (handle_message B R settings msg)
    unfolding handle_message
    message-Keeps = dispatch-Keeps _ _ _

  -- The loop handles the next item of its schedule.
  abbrev pub Handles : Settings R → Option (Dbus.Message B) → Type 0
  Handles settings none = Unit
  Handles settings (some msg) = Keeps P (handle_message B R settings msg)

  pub serve-Keeps :
      (watcher : BusWatcher R)
      → Keeps P (tell (poll watcher.loop_timeout))
      → (schedule : List (Option (Dbus.Message B))) → All (Handles watcher.settings) schedule
      → Keeps P (serve B R watcher schedule)
  unfolding serve
  serve-Keeps watcher polls [] h = Keeps-pure _
  serve-Keeps watcher polls (none ∷ schedule) (_, h) =
      let more = serve-Keeps watcher polls schedule h in
      Keeps-bind _ _ polls (λ _. Keeps-if watcher.loop_once _ _ (Keeps-pure _) more)
  serve-Keeps watcher polls (some msg ∷ schedule) (handles, h) =
      let more = serve-Keeps watcher polls schedule h in
      Keeps-bind _ _ polls (λ _. Keeps-bind _ _ handles (λ _. more))

  All-handled :
      (settings : Settings R)
      → ((msg : Dbus.Message B) → Keeps P (handle_message B R settings msg))
      → (schedule : List (Option (Dbus.Message B))) → All (Handles settings) schedule
  All-handled settings handles [] = tt
  All-handled settings handles (none ∷ schedule) = (tt, All-handled settings handles schedule)
  All-handled settings handles (some msg ∷ schedule) =
      (handles msg, All-handled settings handles schedule)

  -- The same, where the handlers keep it for every message.
  pub serve_any-Keeps :
      (watcher : BusWatcher R)
      → Keeps P (tell (poll watcher.loop_timeout))
      → ((msg : Dbus.Message B) → Keeps P (handle_message B R watcher.settings msg))
      → (schedule : List (Option (Dbus.Message B))) → Keeps P (serve B R watcher schedule)
  serve_any-Keeps watcher polls handles schedule =
      serve-Keeps watcher polls schedule (All-handled watcher.settings handles schedule)
