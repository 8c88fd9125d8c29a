-- ===== src/Watcher/Loop.antt =====
-- When the signal loop ends.
use mathlib.Core.Path.{subst}
use killjoy.Base.{◌≡◌, ◌≢◌, refl, Option, none, some, List, [], ◌∷◌, ◌++◌, map, true, false}
use killjoy.Error.{Error}
use killjoy.Exec.{Outcome, returned, raised, panicked, Exec, and_then, ◌>>=◌}
use killjoy.Dbus.{Dbus}
use killjoy.Settings.Regex.{RegexCrate}
use killjoy.Watcher.World.{World, tell}
use killjoy.Watcher.Handlers.{handle_message}
use killjoy.Watcher.Run.{BusWatcher, serve}

abbrev LoopOutcome : Type 0
LoopOutcome = Outcome (Option (Unit {0}))

-- Without a value, or still running.
abbrev IsOpen : LoopOutcome → Type 0
IsOpen (returned (some _)) = ⊥
IsOpen _ = Unit

-- No longer running.
abbrev pub HasEnded : LoopOutcome → Type 0
HasEnded (returned none) = ⊥
HasEnded _ = Unit

after_first :
    {A : Type 0} (P : LoopOutcome → Type 0) (x : Outcome A × World)
    (f : A → Exec World (Option (Unit {0})))
    → ((e : Error) → P (raised e))
    → ((m : _) → P (panicked m))
    → ((a : A) (w : World) → P (f a w).0)
    → P (and_then x f).0
after_first P (returned a, w) f r p h = h a w
after_first P (raised e, w) f r p h = r e
after_first P (panicked m, w) f r p h = p m

then_same :
    {A : Type 0} (x : Outcome A × World) (f g : A → Exec World (Option (Unit {0})))
    → ((a : A) (w : World) → f a w ≡ g a w)
    → and_then x f ≡ and_then x g
then_same (returned a, w) f g h = h a w
then_same (raised e, w) f g h = refl
then_same (panicked m, w) f g h = refl

module _ (B : Dbus) (R : RegexCrate) (watcher : BusWatcher R) where
  serve-IsOpen :
      watcher.loop_once ≡ false
      → (schedule : List (Option (Dbus.Message B))) (w : World)
      → IsOpen (serve B R watcher schedule w).0
  unfolding serve ◌>>=◌ tell
  serve-IsOpen e [] w = tt
  serve-IsOpen e (none ∷ schedule) w = rw e (serve-IsOpen e schedule _)
  serve-IsOpen e (some msg ∷ schedule) w =
      after_first IsOpen (handle_message B R watcher.settings msg _) _ (λ x. tt) (λ m. tt)
        (λ a v. serve-IsOpen e schedule v)

  serve_ended :
      watcher.loop_once ≡ true
      → (msgs : List (Dbus.Message B)) (rest : List (Option (Dbus.Message B))) (w : World)
      → HasEnded (serve B R watcher (map some msgs ++ none ∷ rest) w).0
  unfolding serve ◌>>=◌ tell
  serve_ended e [] rest w = rw e tt
  serve_ended e (msg ∷ msgs) rest w =
      after_first HasEnded (handle_message B R watcher.settings msg _) _ (λ x. tt) (λ m. tt)
        (λ a v. serve_ended e msgs rest v)

  serve_rest :
      watcher.loop_once ≡ true
      → (msgs : List (Dbus.Message B)) (rest : List (Option (Dbus.Message B))) (w : World)
      → serve B R watcher (map some msgs ++ none ∷ rest) w
        ≡ serve B R watcher (map some msgs ++ none ∷ []) w
  unfolding serve ◌>>=◌ tell
  serve_rest e [] rest w = rw e refl
  serve_rest e (msg ∷ msgs) rest w =
      then_same (handle_message B R watcher.settings msg _) _ _ (λ a v. serve_rest e msgs rest v)

  -- Without `loop_once`, the loop never returns, whatever the signals: it runs until it fails.
  pub serve_forever :
      watcher.loop_once ≡ false
      → (schedule : List (Option (Dbus.Message B))) (w : World)
      → (serve B R watcher schedule w).0 ≢ returned (some tt)
  serve_forever e schedule w h = subst IsOpen h (serve-IsOpen e schedule w)

  -- With `loop_once`, the loop has ended by the first poll that times out, by then or with an error
  -- or a panic before, and it is the same whatever would have come later.
  pub serve_once :
      watcher.loop_once ≡ true
      → (msgs : List (Dbus.Message B)) (rest : List (Option (Dbus.Message B))) (w : World)
      → HasEnded (serve B R watcher (map some msgs ++ none ∷ rest) w).0
        × (serve B R watcher (map some msgs ++ none ∷ rest) w
            ≡ serve B R watcher (map some msgs ++ none ∷ []) w)
  serve_once e msgs rest w = (serve_ended e msgs rest w, serve_rest e msgs rest w)
