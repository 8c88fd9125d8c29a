-- ===== src/Watcher/Monitor/Observing.antt =====
-- An observation of a unit takes the specification's step.
use mathlib.Core.Path.{fun_ext, subst}
use killjoy.Base.{
  String, ◌==◌, ◌≡◌, refl, sym, ◌∙◌, ap, ℕ, Option, none, some, inl, inr, true, false, arith,
  eq_iff, Bool-cases, Option-cases, ltb,
}
use killjoy.Base.Dict.{lookup, insert, lookup-insert}
use killjoy.ActiveState.{ActiveState, state_eq, state_eq_iff}
use killjoy.Exec.{Outcome, returned, pure, ◌>>=◌, and_then}
use killjoy.Unit.Machine.{UnitStateMachine, OnChange, new, update}
use killjoy.Unit.Machine.Laws.{update-machine, update-callback}
use killjoy.Dbus.{Dbus}
use killjoy.Settings.Regex.{RegexCrate}
use killjoy.Settings.Types.{Settings, Notifier}
use killjoy.Settings.Sound.{IsSound}
use killjoy.Watcher.World.{World, set_unit_states}
use killjoy.Watcher.Notify.{gen_on_change}
use killjoy.Watcher.Units.{stored, upsert_machine}
use killjoy.Watcher.Delivery.{Address, HasAddress, IsUp, Sends, sent, gen_on_change-Sends}
use killjoy.Watcher.Monitor.{
  Monitor, view, put, IsRead, letters, enter, change, refresh, Steps, next,
}

-- Equal monitors from equal parts.
pub Monitor-eq :
    (m n : Monitor) → ((j : String) → m.board j ≡ n.board j) → m.outbox ≡ n.outbox → m ≡ n
Monitor-eq m n h e = λ i. record { board = fun_ext h i; outbox = e i }

-- Storing the machine that is already there changes nothing.
put_same :
    (k j : String) (usm : UnitStateMachine) (board : String → Option UnitStateMachine)
    → board k ≡ some usm
    → put k (some usm) board j ≡ board j
put_same k j usm board e = elim (Bool-cases (k == j)) [
  | inl same ↦ rw same (sym e ∙ ap board ((eq_iff k j).0 same))
  | inr other ↦ rw other refl
]

module _ (B : Dbus) (R : RegexCrate) (up : IsUp B) (settings : Settings R)
    (sound : IsSound B R settings) (address : String → Address)
    (reach : (name : String) (n : Notifier)
      → lookup name settings.notifiers ≡ some n
      → HasAddress B n (address name)) where
  -- What was reached before stays reached after at most one step more.
  module _ (start : Monitor) (k : String) (state : ActiveState) (mono_ts real_ts : ℕ)
      (mono : IsRead B mono_ts) (real : IsRead B real_ts) (w : World)
      (so_far : Steps B R settings address start (view w)) where
    abbrev observation : UnitStateMachine
    observation = record { active_state = state; mono_ts = mono_ts }

    sends :
        (o : UnitStateMachine) (old : Option ActiveState)
        → Sends
            (letters B R settings address k real_ts o old)
            w
            (gen_on_change B R settings k real_ts o old w)
    unfolding letters
    sends o old = gen_on_change-Sends B R up settings sound address reach k real_ts o old w

    -- What is left once a machine is stored after the callback.
    after_storing :
        (usm : UnitStateMachine) (v : World)
        → v.unit_states ≡ w.unit_states
        → view (record v { unit_states = insert k usm v.unit_states })
          ≡ record { board = put k (some usm) (view w).board; outbox = sent v.trace }
    after_storing usm v same = Monitor-eq _ _ (λ j. rw (lookup-insert, same) refl) refl

    enter_then :
        (x : Outcome (Unit {0}) × World)
        → lookup k w.unit_states ≡ none
        → Sends (letters B R settings address k real_ts observation none) w x
        → Steps B R settings address start (
            view
              (and_then
                (and_then x (λ _. pure observation))
                (λ usm. set_unit_states (insert k usm))).1)
    unfolding pure set_unit_states
    enter_then (r, v) e (ret, same, mail) = rw ret (
        next so_far (
          enter k observation real_ts real mono e
            (rw (after_storing observation v same, mail) refl)))

    store_then :
        (usm : UnitStateMachine) (u : UnitStateMachine × (Outcome (Unit {0}) × World))
        → u.0 ≡ usm
        → u.1.1.unit_states ≡ w.unit_states
        → view (stored k u).1
          ≡ record { board = put k (some usm) (view w).board; outbox = sent u.1.1.trace }
    unfolding stored
    store_then usm (usm', (r, v)) e same = rw e (after_storing usm v same)

    -- The callback of the observation.
    abbrev on_change : OnChange World
    on_change = gen_on_change B R settings k real_ts

    newer_then :
        (usm : UnitStateMachine)
        → lookup k w.unit_states ≡ some usm
        → ltb usm.mono_ts mono_ts ≡ true
        → Steps B R settings address start
            (view (stored k (update usm state mono_ts on_change w)).1)
    newer_then usm e newer =
        let u = update usm state mono_ts on_change w in
        let now : u.0 ≡ observation =
          rw (update-machine usm state mono_ts on_change w, newer) refl in
        elim (Bool-cases (state_eq usm.active_state state)) [
          | inl same ↦
              let quiet : u.1 ≡ (returned tt, w) =
                rw (update-callback usm state mono_ts on_change w, newer, same) refl in
              next so_far (
                refresh k usm observation mono e (ground arith)
                  ((state_eq_iff usm.active_state state).0 same)
                  (store_then observation u now (ap (λ x. x.1.unit_states) quiet)
                    ∙ ap
                        (λ x. record {
                          board = put k (some observation) (view w).board;
                          outbox = sent x.1.trace;
                        })
                        quiet))
          | inr other ↦
              let (ret, still, mail) : Sends
                  (letters B R settings address k real_ts observation (some usm.active_state)) w
                  u.1 =
                rw (update-callback usm state mono_ts on_change w, newer, other)
                  (sends observation (some usm.active_state)) in
              next so_far (
                change k usm observation real_ts real mono e (ground arith)
                  (ground (arith, state_eq_iff usm.active_state state))
                  (store_then observation u now still ∙ rw mail refl))
        ]

    stale_then :
        (usm : UnitStateMachine)
        → lookup k w.unit_states ≡ some usm
        → ltb usm.mono_ts mono_ts ≡ false
        → Steps B R settings address start
            (view (stored k (update usm state mono_ts on_change w)).1)
    stale_then usm e old =
        let u = update usm state mono_ts on_change w in
        let quiet : u.1 ≡ (returned tt, w) =
          rw (update-callback usm state mono_ts on_change w, old) refl in
        let now : u.0 ≡ usm = rw (update-machine usm state mono_ts on_change w, old) refl in
        subst (Steps B R settings address start)
          (sym (
            store_then usm u now (ap (λ x. x.1.unit_states) quiet)
            ∙ Monitor-eq _ _ (λ j. put_same k j usm (view w).board e)
                (ap (λ x. sent x.1.trace) quiet)))
          so_far

    pub upsert_machine-Steps :
        Steps B R settings address start
          (view (upsert_machine k state mono_ts on_change (lookup k w.unit_states) w).1)
    unfolding upsert_machine new ◌>>=◌
    upsert_machine-Steps = elim (Option-cases (lookup k w.unit_states)) [
      | inl e ↦ rw e (enter_then (on_change observation none w) e (sends observation none))
      | inr (usm, e) ↦ rw e (elim (Bool-cases (ltb usm.mono_ts mono_ts)) [
        | inl newer ↦ newer_then usm e newer
        | inr old ↦ stale_then usm e old
      ])
    ]
