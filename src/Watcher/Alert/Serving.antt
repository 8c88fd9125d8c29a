-- ===== src/Watcher/Alert/Serving.antt =====
-- The signal loop, when its next signal is news of a tracked unit.
use killjoy.Base.{In-reverse_aux, String, ◌≡◌, ℕ, Option, none, some, List, ◌∷◌, In, inl, inr}
use killjoy.Base.Dict.{lookup}
use killjoy.Exec.{◌>>=◌}
use killjoy.Unit.Machine.{UnitStateMachine}
use killjoy.Dbus.{Dbus, poll, BusType, Notification}
use killjoy.Generated.Signals.{
  PropertiesChanged, unit_new_from_message, unit_removed_from_message,
  properties_changed_from_message,
}
use killjoy.Settings.Regex.{RegexCrate}
use killjoy.Settings.Types.{Settings, Notifier}
use killjoy.Settings.Sound.{IsSound}
use killjoy.Watcher.World.{World, tell}
use killjoy.Watcher.Handlers.{handle_properties_changed, dispatch, handle_message}
use killjoy.Watcher.Run.{BusWatcher, serve}
use killjoy.Watcher.Delivery.{Address, HasAddress, IsUp, sent}
use killjoy.Watcher.Monitor.{Monitor, view, letters, Step, enter, change, refresh, leave, here}
use killjoy.Watcher.Monitor.Serving.{serve-Goes}
use killjoy.Watcher.Monitor.Letters.{Steps-keep}
use killjoy.Watcher.Alert.News.{and_then_returned, IsNews, handle_properties_changed-Alerts}

-- The world when the loop has received its next message.
abbrev pub polled : {R : RegexCrate} → BusWatcher R → World → World
polled watcher w = record w { trace = poll watcher.loop_timeout ∷ w.trace }

module _ (B : Dbus) (R : RegexCrate) (settings : Settings R) (address : String → Address) where
  -- What was sent stays sent.
  Step-sent :
      (x : BusType × Notification) (m m' : Monitor)
      → Step B R settings address m m'
      → In x m.outbox
      → In x m'.outbox
  Step-sent x m m' (enter k o ts _ _ _ e) h =
      rw e (In-reverse_aux x (letters B R settings address k ts o none) m.outbox (inl h))
  Step-sent x m m' (change k usm o ts _ _ _ _ _ e) h = rw e (
      In-reverse_aux x (letters B R settings address k ts o (some usm.active_state)) m.outbox
        (inl h))
  Step-sent x m m' (refresh k usm o _ _ _ _ e) h = rw e h
  Step-sent x m m' (leave k _ e) h = rw e h

module _ (B : Dbus) (R : RegexCrate) (up : IsUp B) (watcher : BusWatcher R)
    (sound : IsSound B R watcher.settings) (address : String → Address)
    (reach : (name : String) (n : Notifier)
      → lookup name watcher.settings.notifiers ≡ some n
      → HasAddress B n (address name)) where
  -- A change is reported. With sound settings, valid constants, buses that accept connections and an
  -- address for every notifier, let the next signal say that a unit with a machine has entered another
  -- state at a later time, and let systemd answer with the unit's name. Then the loop sends the
  -- message about the change to the notifier of each label of each rule that it is of interest to,
  -- whatever comes after the signal, and even if the loop then fails.
  pub serve-Alerts :
      (msg : Dbus.Message B) (m : PropertiesChanged (Dbus.RefArg B))
      (schedule : List (Option (Dbus.Message B))) (w : World) (name : String)
      (usm o : UnitStateMachine) (ts : ℕ)
      → unit_new_from_message B msg ≡ none
      → unit_removed_from_message B msg ≡ none
      → properties_changed_from_message B msg ≡ some m
      → IsNews B R watcher.settings (polled watcher w) msg m name usm o ts
      → (x : BusType × Notification)
      → In x (letters B R watcher.settings address name ts o (some usm.active_state))
      → In x (sent (serve B R watcher (some msg ∷ schedule) w).1.trace)
  unfolding serve ◌>>=◌ tell handle_message dispatch
  serve-Alerts msg m schedule w name usm o ts not_new not_removed is_changed news x mail =
      let after = handle_properties_changed B R watcher.settings msg m (polled watcher w) in
      let (ret, _, sent_now) =
        handle_properties_changed-Alerts B R up watcher.settings sound address reach msg m
          (polled watcher w) name usm o ts news in
      let there : In x (sent after.1.trace) = rw sent_now (
        In-reverse_aux x (letters B R watcher.settings address name ts o (some usm.active_state))
          (view (polled watcher w)).outbox (inr mail)) in
      rw (not_new, not_removed, is_changed, and_then_returned after tt _ ret)
        (Steps-keep B R watcher.settings address (λ n. In x n.outbox)
          (Step-sent B R watcher.settings address x)
          ((serve-Goes B R up watcher sound address reach (view after.1) schedule).at after.1 here)
          there)
