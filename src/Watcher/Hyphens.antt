-- ===== src/Watcher/Hyphens.antt =====
-- Notifiers whose bus name has a hyphen.
use Prim.Native.Char.{code}
use Prim.Native.String.{[], ◌∷◌, ◌++◌}
use mathlib.Core.Logic.{ite}
use native.Mathlib.Decide.{ℕ_discrete}
use text.Mathlib.TextLemmas.{nil-append, cons-append}
use killjoy.Base.{
  String, ◌≡◌, refl, Option, some, List, ◌∷◌ as ◌cons◌, replace_char, arith, inl, inr, ◌⊎◌, ℕ,
}
use killjoy.Base.Dict.{Dict, lookup}
use killjoy.Error.{Error, ok, err}
use killjoy.Exec.{raise, raised, ◌>>=◌}
use killjoy.Dbus.{Dbus, poll}
use killjoy.Settings.Regex.{RegexCrate}
use killjoy.Watcher.World.{tell}
use killjoy.Watcher.Handlers.{tolerate, handle_message}
use killjoy.Watcher.Run.{BusWatcher, serve}
use killjoy.Settings.Types.{Notifier, get_bus_name, maybe_get_bus_name, new_notifier}
use killjoy.Watcher.World.{World}
use killjoy.Watcher.Names.{cast_bus_name_to_path}
use killjoy.Watcher.Notify.{notify_one}

-- A hyphen stands in the text.
abbrev pub HasHyphen : String → Type 0
HasHyphen [] = ⊥
HasHyphen (c ∷ s) = (code c ≡ 45) ⊎ HasHyphen s

replace_char-HasHyphen : (s : String) → HasHyphen s → HasHyphen (replace_char "." "/" s)
unfolding replace_char
replace_char-HasHyphen [] h = h
replace_char-HasHyphen (c ∷ s) (inl e) =
    inl (elim (ℕ_discrete (code c) 46) as (λ d. code (ite d "/" c) ≡ 45) [
      | yes p ↦ absurd (omega arith)
      | no _ ↦ e
    ])
replace_char-HasHyphen (c ∷ s) (inr h) = inr (replace_char-HasHyphen s h)

module _ (B : Dbus)
    (strict : (s : String) → HasHyphen s → (x : String) × (Dbus.path_new B s ≡ err x))
    (text : (name : String) → Dbus.bus_name_to_str B name ≡ ok name) where
  cast_hyphen :
      (name : String)
      → HasHyphen name
      → (x : String) × (cast_bus_name_to_path B name ≡ err (Error.cast_str_to_path x))
  unfolding cast_bus_name_to_path
  cast_hyphen name h =
      let (x, e) =
        strict ("/" ++ replace_char "." "/" name)
          (rw (cons-append, nil-append) (inr (replace_char-HasHyphen name h))) in
      (x, rw (text name, e) refl)

  -- The object paths that the dbus crate accepts have no hyphens, but the bus names may. Then a
  -- notifier whose bus name has one is accepted with the settings, and yet every attempt to contact
  -- it fails before anything is sent. The handler of PropertiesChanged does not tolerate the error,
  -- and whenever the handling of a message ends with it, so does the signal loop.
  pub notify_one-HasHyphen :
      (n : Notifier)
      → HasHyphen n.bus_name
      → Dbus.bus_name_new B n.bus_name ≡ ok n.bus_name
      → (new_notifier B n.bus_name n.bus_type ≡ ok n)
        × ((notifiers : Dict Notifier) (unit_name : String) (ts : ℕ) (states : List String)
              (label : String) (w : World)
            → lookup label notifiers ≡ some n
            → (x : String) × (notify_one B notifiers unit_name ts states label w
                ≡ (raised (Error.cast_str_to_path x), w)))
        × ((x : String) (w : World)
            → tolerate (err (Error.cast_str_to_path x)) w ≡ (raised (Error.cast_str_to_path x), w))
        × ((R : RegexCrate) (watcher : BusWatcher R) (msg : Dbus.Message B)
              (schedule : List (Option (Dbus.Message B))) (x : String) (w w' : World)
            → handle_message B R watcher.settings msg
                (record w { trace = poll watcher.loop_timeout cons w.trace })
              ≡ (raised (Error.cast_str_to_path x), w')
            → serve B R watcher (some msg cons schedule) w
              ≡ (raised (Error.cast_str_to_path x), w'))
  unfolding new_notifier maybe_get_bus_name notify_one get_bus_name tolerate raise serve tell ◌>>=◌
  notify_one-HasHyphen n h accepted = (
    rw accepted refl,
    λ notifiers unit_name ts states label w listed.
        let (x, e) = cast_hyphen n.bus_name h in (x, rw (listed, accepted, e) refl),
    λ x w. refl,
    λ R watcher msg schedule x w w' failed. rw failed refl,
  )
