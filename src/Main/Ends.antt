-- ===== src/Main/Ends.antt =====
-- How the main thread and its threads may end.
use killjoy.Base.{none, some, List, [], ◌∷◌, All, ◌⊎◌, inl, inr}
use killjoy.Error.{Error, Result, ok, err}
use killjoy.Exec.{returned, raised, panicked}
use killjoy.Exec.Safe.{Allows}
use killjoy.Dbus.{Dbus}
use killjoy.Watcher.World.{World}
use killjoy.Watcher.Safety.Errors.{IsRuntime, IsRefused}
use killjoy.Main.Threads.{Ending, finished, blocked, aborted, Joined, consed, join_all, report}
use killjoy.Main.Expected.{IsExpected, IsExpected-IsRuntime}

-- A thread that panicked, with the message of a watcher that was refused to remove a match rule, and
-- this in a world in which that was its last call.
abbrev pub IsUnremoved : Dbus → Error → Type 0
IsUnremoved B (Error.monitoring_thread_panicked m) = (w : World) × IsRefused B m w
IsUnremoved B _ = ⊥

abbrev pub IsAdmitted : Dbus → Error → Type 0
IsAdmitted B e = IsExpected e ⊎ IsUnremoved B e

-- The main thread does not panic, and fails only with errors that are expected, or that report a
-- match rule that could not be removed.
abbrev pub EndsWell : Dbus → Ending (Result (List Error) (Unit {0})) → Type 0
EndsWell B (finished (ok _)) = Unit
EndsWell B (finished (err errs)) = All (IsAdmitted B) errs
EndsWell B blocked = Unit
EndsWell B (aborted m) = ⊥

abbrev pub Joins : Dbus → Ending (List Error) → Type 0
Joins B (finished errs) = All (IsAdmitted B) errs
Joins B blocked = Unit
Joins B (aborted m) = ⊥

-- The end of a thread, without its world.
abbrev pub IsEnd : Dbus → Joined → Type 0
IsEnd B (returned a) = Unit
IsEnd B (raised e) = IsRuntime e
IsEnd B (panicked m) = (w : World) × IsRefused B m w

pub Allows-IsEnd : (B : Dbus) (x : Joined × World) → Allows IsRuntime (IsRefused B) x → IsEnd B x.0
Allows-IsEnd B (returned a, w) h = tt
Allows-IsEnd B (raised e, w) h = h
Allows-IsEnd B (panicked m, w) h = (w, h)

module _ (B : Dbus) where
  consed-Joins :
      (e : Error) (r : Ending (List Error)) → IsAdmitted B e → Joins B r → Joins B (consed e r)
  consed-Joins e (finished errs) h k = (h, k)
  consed-Joins e blocked h k = tt
  consed-Joins e (aborted m) h k = k

  pub join_all-Joins : (handles : List Joined) → All (IsEnd B) handles → Joins B (join_all handles)
  unfolding join_all
  join_all-Joins [] h = tt
  join_all-Joins (returned (some _) ∷ handles) (_, h) = join_all-Joins handles h
  join_all-Joins (returned none ∷ handles) h = tt
  join_all-Joins (raised e ∷ handles) (h, hs) =
      consed-Joins e _ (inl (IsExpected-IsRuntime e h)) (join_all-Joins handles hs)
  join_all-Joins (panicked m ∷ handles) (h, hs) =
      consed-Joins _ _ (inr h) (join_all-Joins handles hs)

  pub report-EndsWell : (r : Ending (List Error)) → Joins B r → EndsWell B (report r)
  unfolding report
  report-EndsWell (finished []) h = tt
  report-EndsWell (finished (e ∷ es)) h = h
  report-EndsWell blocked h = tt
  report-EndsWell (aborted m) h = h
