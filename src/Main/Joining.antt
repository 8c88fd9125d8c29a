-- ===== src/Main/Joining.antt =====
-- What the main thread makes of the ends of its threads.
use killjoy.Base.{
  none, some, Bool, true, false, List, [], ◌∷◌, any, if◌then◌else◌, ◌≡◌, ◌≢◌, refl, ◌↔◌, arith, All,
}
use killjoy.Error.{Error, ok}
use killjoy.Exec.{returned, raised, panicked}
use killjoy.Main.Threads.{Ending, finished, blocked, aborted, Joined, consed, join_all, report}

-- A thread that has not ended.
unfoldable pub is_running : Joined → Bool
is_running (returned none) = true
is_running _ = false

-- The error with which a thread ended, before those of the threads after it.
unfoldable pub failures : List Joined → List Error
failures [] = []
failures (returned _ ∷ handles) = failures handles
failures (raised e ∷ handles) = e ∷ failures handles
failures (panicked m ∷ handles) = Error.monitoring_thread_panicked m ∷ failures handles

-- Joining the threads blocks if one of them is still running; if none is, it ends with the errors
-- of those that failed, in the order in which they were spawned.
pub join_all_lem :
    (handles : List Joined)
    → join_all handles ≡ (if any is_running handles then blocked else finished (failures handles))
unfolding join_all is_running failures
join_all_lem [] = refl
join_all_lem (returned (some _) ∷ handles) = join_all_lem handles
join_all_lem (returned none ∷ handles) = refl
join_all_lem (raised e ∷ handles) = let ih = join_all_lem handles in ground arith
join_all_lem (panicked m ∷ handles) = let ih = join_all_lem handles in ground arith

report-consed : (e : Error) (r : Ending (List Error)) → report (consed e r) ≢ finished (ok tt)
unfolding report
report-consed e (finished es) h = absurd (ground arith)
report-consed e blocked h = absurd (ground arith)
report-consed e (aborted m) h = absurd (ground arith)

-- The main thread succeeds exactly when every thread has ended without an error.
pub report-join_all :
    (handles : List Joined)
    → (report (join_all handles) ≡ finished (ok tt)) ↔ All (λ h. h ≡ returned (some tt)) handles
unfolding report join_all
report-join_all [] = (λ h. tt, λ h. refl)
report-join_all (returned (some _) ∷ handles) =
    let (f, g) = report-join_all handles in (λ h. (refl, f h), λ h. g h.1)
report-join_all (returned none ∷ handles) = (λ h. absurd (ground arith), λ h. absurd (ground arith))
report-join_all (raised e ∷ handles) =
    (λ h. absurd (report-consed e (join_all handles) h), λ h. absurd (ground arith))
report-join_all (panicked m ∷ handles) =
    (λ h. absurd (report-consed _ (join_all handles) h), λ h. absurd (ground arith))
