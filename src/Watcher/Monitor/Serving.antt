-- ===== src/Watcher/Monitor/Serving.antt =====
-- The signal loop and the whole run take only the specification's steps.
use mathlib.Core.Path.{subst}
use killjoy.Base.{sym, ap, String, ◌≡◌, refl, Option, none, some, List, []}
use killjoy.Base.Dict.{lookup}
use killjoy.Exec.{◌>>=◌}
use killjoy.Exec.Keeps.{Keeps, keeps_rules, Keeps-bind, and_then-keeps}
use killjoy.Dbus.{Dbus}
use killjoy.Settings.Regex.{RegexCrate}
use killjoy.Settings.Types.{Notifier}
use killjoy.Settings.Sound.{IsSound}
use killjoy.Watcher.World.{World, set_unit_states}
use killjoy.Watcher.Run.{BusWatcher, learn_units, serve, start, run}
use killjoy.Watcher.Delivery.{Address, HasAddress, IsUp, sent}
use killjoy.Watcher.Looping.{serve_any-Keeps}
use killjoy.Watcher.Monitor.{Monitor, view, Steps, here}
use killjoy.Watcher.Monitor.Silent.{
  Seen, poll-Seen, subscribe-Seen, list_units-Seen, unit_new-Seen, unit_removed-Seen,
}
use killjoy.Watcher.Monitor.Handling.{message-Reaches, learn_units-Reaches}

module _ (P : Monitor → Type 0) (fixed : (m : Monitor) → P m → P (record m { board = λ k. none }))
    (B : Dbus) (R : RegexCrate) where
  clear-Seen : Keeps (Seen P) (set_unit_states (λ _. []))
  unfolding set_unit_states lookup
  clear-Seen = record { at = λ w h. fixed (view w) h }

  -- Starting sends no message.
  start-Seen : Keeps (Seen P) (start B R)
  unfolding start
  start-Seen =
      search
        (
          keeps_rules, subscribe-Seen, poll-Seen, unit_removed-Seen, unit_new-Seen, clear-Seen,
          list_units-Seen,
        )
        depth 9

module _ (B : Dbus) (R : RegexCrate) (up : IsUp B) (watcher : BusWatcher R)
    (sound : IsSound B R watcher.settings) (address : String → Address)
    (reach : (name : String) (n : Notifier)
      → lookup name watcher.settings.notifiers ≡ some n
      → HasAddress B n (address name)) where
  abbrev pub Goes : Monitor → World → Type 0
  Goes origin w = Steps B R watcher.settings address origin (view w)

  pub serve-Goes :
      (origin : Monitor) (schedule : List (Option (Dbus.Message B)))
      → Keeps (Goes origin) (serve B R watcher schedule)
  serve-Goes origin schedule =
      serve_any-Keeps (Goes origin) B R watcher
        (poll-Seen (Steps B R watcher.settings address origin) watcher.loop_timeout)
        (message-Reaches B R up watcher.settings sound address reach origin) schedule

  learned-Goes :
      (origin : Monitor) (names : List String) (schedule : List (Option (Dbus.Message B)))
      → Keeps
          (Goes origin)
          (learn_units B R watcher.settings names >>= λ _. serve B R watcher schedule)
  learned-Goes origin names schedule =
      Keeps-bind _ _ (learn_units-Reaches B R up watcher.settings sound address reach origin names)
        (λ _. serve-Goes origin schedule)

  -- With sound settings, valid constants, buses that accept connections and an address for every
  -- notifier, a run refines the specification: from a watcher without machines, at every moment of a
  -- run, whatever the signals and the answers, the machines and the messages that were sent are those
  -- that some steps of the specification lead to from the empty board.
  pub run-Steps :
      (schedule : List (Option (Dbus.Message B))) (w : World)
      → w.unit_states ≡ []
      → Steps B R watcher.settings address
          (record { board = λ k. none; outbox = sent w.trace })
          (view (run B R watcher schedule w).1)
  unfolding run ◌>>=◌ lookup
  run-Steps schedule w e =
      let origin : Monitor = record { board = λ k. none; outbox = sent w.trace } in
      let still : view (start B R w).1 ≡ origin =
        (start-Seen (λ m. m ≡ origin)
            (λ m h. ap (λ (n : Monitor). record n { board = λ k. none }) h) B R).at
          w (rw e refl) in
      and_then-keeps (Goes origin) (start B R w) _
        (subst (Steps B R watcher.settings address origin) (sym still) here)
        (λ names. learned-Goes origin names schedule)
