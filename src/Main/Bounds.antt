-- ===== src/Main/Bounds.antt =====
-- How many threads there are, and how many errors they can leave behind.
use killjoy.Base.{
  ℕ, suc, ◌≤◌, ◌≡◌, ◌≢◌, sym, refl, inl, inr, Bool, Option, List, [], ◌∷◌, length, map, arith,
}
use killjoy.Error.{Error, err}
use killjoy.Exec.{returned, raised, panicked}
use killjoy.Dbus.{Dbus, BusType}
use killjoy.Settings.Regex.{RegexCrate}
use killjoy.Settings.Types.{Settings}
use killjoy.Settings.Buses.{IsNodup, get_bus_types, get_bus_types_lem}
use killjoy.Settings.Load.{Files}
use killjoy.Main.Threads.{
  Ending, finished, blocked, aborted, Joined, consed, join_all, report, monitor, watch_buses,
}

-- There are three buses.
pigeonhole : (a b c d : BusType) → a ≢ b → a ≢ c → a ≢ d → b ≢ c → b ≢ d → c ≢ d → ⊥
pigeonhole a b c d = ground arith

three_buses : (bs : List BusType) → IsNodup bs → length bs ≤ 3
three_buses [] h = omega arith
three_buses (a ∷ []) h = omega arith
three_buses (a ∷ b ∷ []) h = omega arith
three_buses (a ∷ b ∷ c ∷ []) h = omega arith
three_buses (a ∷ b ∷ c ∷ d ∷ bs) (fa, (fb, (fc, h))) = absurd (
    pigeonhole a b c d (λ e. fa (inl (sym e))) (λ e. fa (inr (inl (sym e))))
      (λ e. fa (inr (inr (inl (sym e))))) (λ e. fb (inl (sym e))) (λ e. fb (inr (inl (sym e))))
      (λ e. fc (inl (sym e))))

-- No more errors than this.
abbrev AtMost : ℕ → Ending (List Error) → Type 0
AtMost n (finished errs) = length errs ≤ n
AtMost n blocked = Unit
AtMost n (aborted m) = Unit

AtMost-weaken : (n : ℕ) (r : Ending (List Error)) → AtMost n r → AtMost (suc n) r
AtMost-weaken n (finished errs) h = omega arith
AtMost-weaken n blocked h = tt
AtMost-weaken n (aborted m) h = tt

AtMost-consed :
    (n : ℕ) (e : Error) (r : Ending (List Error)) → AtMost n r → AtMost (suc n) (consed e r)
AtMost-consed n e (finished errs) h = omega arith
AtMost-consed n e blocked h = tt
AtMost-consed n e (aborted m) h = tt

join_all-AtMost : (handles : List Joined) → AtMost (length handles) (join_all handles)
unfolding join_all
join_all-AtMost [] = omega arith
join_all-AtMost (returned (Option.some _) ∷ handles) = AtMost-weaken _ _ (join_all-AtMost handles)
join_all-AtMost (returned Option.none ∷ handles) = tt
join_all-AtMost (raised e ∷ handles) = AtMost-consed _ e _ (join_all-AtMost handles)
join_all-AtMost (panicked m ∷ handles) = AtMost-consed _ _ _ (join_all-AtMost handles)

length-map : {A C : Type 0} (f : A → C) (xs : List A) → length (map f xs) ≡ length xs
length-map f [] = refl
length-map f (x ∷ xs) = let ih = length-map f xs in omega arith

report-AtMost :
    (n : ℕ) (r : Ending (List Error)) (errs : List Error)
    → AtMost n r
    → report r ≡ finished (err errs)
    → (1 ≤ length errs) × (length errs ≤ n)
unfolding report
report-AtMost n (finished []) errs h e = absurd (ground arith)
report-AtMost n (finished (x ∷ xs)) errs h e = ground arith
report-AtMost n blocked errs h e = absurd (ground arith)
report-AtMost n (aborted m) errs h e = absurd (ground arith)

module _ (F : Files) (B : Dbus) (R : RegexCrate)
    (schedule : BusType → List (Option (Dbus.Message B))) where
  -- However many rules there are, a run of the watchers that ends with errors ends with at least one
  -- and with at most three, one for each bus.
  pub watch_buses-errors :
      (settings : Settings R) (loop_once : Bool) (loop_timeout : ℕ) (errs : List Error)
      → watch_buses F B R schedule settings loop_once loop_timeout ≡ finished (err errs)
      → (1 ≤ length errs) × (length errs ≤ 3)
  unfolding watch_buses
  watch_buses-errors settings loop_once loop_timeout errs e =
      let buses = get_bus_types R settings.rules in
      let handles = map (monitor F B R schedule settings loop_once loop_timeout) buses in
      let (some_error, bound) = report-AtMost _ _ errs (join_all-AtMost handles) e in
      let same = length-map (monitor F B R schedule settings loop_once loop_timeout) buses in
      let three = three_buses buses (get_bus_types_lem R settings.rules).0 in
      (some_error, omega arith)
