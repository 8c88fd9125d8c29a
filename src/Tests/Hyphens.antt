-- ===== src/Tests/Hyphens.antt =====
-- A notifier whose bus name has a hyphen, on the bus of the tests.
use Prim.Native.Char.{code}
use Prim.Native.String.{[], ◌∷◌}
use mathlib.Core.Logic.{ite}
use mathlib.Core.Path.{subst}
use native.Mathlib.Decide.{ℕ_discrete}
use killjoy.Base.{
  String, ◌≡◌, refl, sym, ◌==◌, ◌<>◌, some, replace_char, arith, inl, inr, eq_iff, Bool-cases, ℕ,
  List,
}
use killjoy.Base.Dict.{Dict, lookup}
use killjoy.Error.{Error, ok, err}
use killjoy.Exec.{raised}
use killjoy.Dbus.{session}
use killjoy.Settings.Types.{Notifier, new_notifier}
use killjoy.Watcher.World.{World}
use killjoy.Watcher.Notify.{notify_one}
use killjoy.Dbus.{poll}
use killjoy.Settings.Regex.{RegexCrate}
use killjoy.Watcher.Handlers.{tolerate, handle_message}
use killjoy.Watcher.Run.{BusWatcher, serve}
use killjoy.Base.{Option, ◌∷◌ as ◌cons◌}
use killjoy.Watcher.Hyphens.{HasHyphen, notify_one-HasHyphen}
use killjoy.Tests.Bus.{demo, Packet, checked_path}

no_hyphen : (s : String) → ¬ HasHyphen (replace_char "-" "_" s)
unfolding replace_char
no_hyphen [] h = h
no_hyphen (c ∷ s) (inl e) =
    (elim (ℕ_discrete (code c) 45) as (λ d. ¬ (code (ite d "_" c) ≡ 45)) [
      | yes p ↦ λ q. absurd (omega arith)
      | no n ↦ n
    ])
      e
no_hyphen (c ∷ s) (inr h) = no_hyphen s h

strict : (s : String) → HasHyphen s → (x : String) × (checked_path s ≡ err x)
strict s h = elim (Bool-cases (replace_char "-" "_" s == s)) [
  | inl e ↦ absurd (no_hyphen s (subst HasHyphen (sym ((eq_iff (replace_char "-" "_" s) s).0 e)) h))
  | inr e ↦ ("Invalid path: " <> s, rw e refl)
]

abbrev notifier : Notifier
notifier = record { bus_name = "a-b.C"; bus_type = session }

notify_one-HasHyphen_example :
    (new_notifier demo "a-b.C" session ≡ ok notifier)
    × ((notifiers : Dict Notifier) (unit_name : String) (ts : ℕ) (states : List String)
          (label : String) (w : World)
        → lookup label notifiers ≡ some notifier
        → (x : String) × (notify_one demo notifiers unit_name ts states label w
            ≡ (raised (Error.cast_str_to_path x), w)))
    × ((x : String) (w : World)
        → tolerate (err (Error.cast_str_to_path x)) w ≡ (raised (Error.cast_str_to_path x), w))
    × ((R : RegexCrate) (watcher : BusWatcher R) (msg : Packet) (schedule : List (Option Packet))
          (x : String) (w w' : World)
        → handle_message demo R watcher.settings msg
            (record w { trace = poll watcher.loop_timeout cons w.trace })
          ≡ (raised (Error.cast_str_to_path x), w')
        → serve demo R watcher (some msg cons schedule) w ≡ (raised (Error.cast_str_to_path x), w'))
notify_one-HasHyphen_example =
    notify_one-HasHyphen demo strict (λ name. refl) notifier (inr (inl refl)) refl
