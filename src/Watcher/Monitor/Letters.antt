-- ===== src/Watcher/Monitor/Letters.antt =====
-- What every step of the specification preserves, and so every run of a watcher.
use killjoy.Base.{
  String, ◌≡◌, ◌≢◌, refl, ℕ, Option, none, some, List, [], ◌∷◌, All, All-reverse_aux, All-map, In,
  In-append, inl, inr, arith,
}
use killjoy.Base.Dict.{lookup}
use killjoy.ActiveState.{ActiveState}
use killjoy.Unit.Machine.{UnitStateMachine}
use killjoy.Dbus.{Dbus, BusType, Notification}
use killjoy.Settings.Regex.{RegexCrate}
use killjoy.Settings.Types.{Rule, Settings, Notifier}
use killjoy.Settings.Sound.{IsSound}
use killjoy.Settings.Matching.{Denotes}
use killjoy.Watcher.World.{World}
use killjoy.Watcher.Interest.{In-interested}
use killjoy.Watcher.Notify.{interested}
use killjoy.Watcher.Run.{BusWatcher, run}
use killjoy.Watcher.Newest.{newest_first}
use killjoy.Watcher.Delivery.{Address, HasAddress, IsUp, letter, labels, sent}
use killjoy.Watcher.Monitor.{
  Monitor, IsRead, letters, Step, enter, change, refresh, leave, Steps, here, next,
}
use killjoy.Watcher.Monitor.Serving.{run-Steps}

-- A label that some rules name is one that one of them names.
In-labels :
    {R : RegexCrate} (rules : List (Rule R)) (name : String)
    → In name (labels rules)
    → (rule : Rule R) × In rule rules × In name rule.notifiers
unfolding labels
In-labels [] name m = absurd m
In-labels (rule ∷ rules) name m = elim ((In-append name rule.notifiers (labels rules)).0 m) [
  | inl asked ↦ (rule, inl refl, asked)
  | inr later ↦ let (found, among, asked) = In-labels rules name later in (found, inr among, asked)
]

module _ (B : Dbus) (R : RegexCrate) (settings : Settings R) (address : String → Address) where
  -- An invariant of the steps is one of all that they lead to.
  pub Steps-keep :
      (P : Monitor → Type 0)
      → ((m m' : Monitor) → Step B R settings address m m' → P m → P m')
      → {m n : Monitor} → Steps B R settings address m n
      → P m
      → P n
  Steps-keep P keeps here p = p
  Steps-keep P keeps (next steps step) p = keeps _ _ step (Steps-keep P keeps steps p)

  -- A message that is due: a rule is about the unit that it names and wants the state that it names
  -- first, the label of a notifier is one of the rule's, and the message is the one for the address
  -- of that label, about a change from another state or about no known state.
  pub record IsDue (x : BusType × Notification) : Type 0 where
    pub rule : Rule R
    pub name : String
    pub state : ActiveState
    pub old : Option ActiveState
    pub ts : ℕ
    pub listed : In rule settings.rules
    pub about : Denotes R rule.expression x.1.unit_name
    pub wanted : In state rule.active_states
    pub asked : In name rule.notifiers
    pub turned : old ≢ some state
    pub read : IsRead B ts
    pub same : x ≡ letter x.1.unit_name ts (newest_first state old) (address name)

  letters-IsDue :
      (k : String) (ts : ℕ) (o : UnitStateMachine) (old : Option ActiveState)
      → IsRead B ts
      → old ≢ some o.active_state
      → All IsDue (letters B R settings address k ts o old)
  unfolding letters letter
  letters-IsDue k ts o old read turned = All-map IsDue _ _ λ name m.
      let (rule, among, asked) = In-labels (interested R settings k o.active_state) name m in
      let (listed, about, wanted) = (In-interested R settings k o.active_state rule).0 among in
      record {
        rule = rule;
        name = name;
        state = o.active_state;
        old = old;
        ts = ts;
        listed = listed;
        about = about;
        wanted = wanted;
        asked = asked;
        turned = turned;
        read = read;
        same = refl;
      }

  Step-IsDue :
      (m m' : Monitor) → Step B R settings address m m' → All IsDue m.outbox → All IsDue m'.outbox
  Step-IsDue m m' (enter k o ts read _ _ e) h =
      rw e
        (All-reverse_aux IsDue _ _ (letters-IsDue k ts o none read (λ q. absurd (ground arith))) h)
  Step-IsDue m m' (change k usm o ts read _ _ _ turned e) h = rw e (
      All-reverse_aux IsDue _ _
        (letters-IsDue k ts o (some usm.active_state) read (λ q. absurd (turned (ground arith)))) h)
  Step-IsDue m m' (refresh k usm o _ _ _ _ e) h = rw e h
  Step-IsDue m m' (leave k _ e) h = rw e h

module _ (B : Dbus) (R : RegexCrate) (up : IsUp B) (watcher : BusWatcher R)
    (sound : IsSound B R watcher.settings) (address : String → Address)
    (reach : (name : String) (n : Notifier)
      → lookup name watcher.settings.notifiers ≡ some n
      → HasAddress B n (address name)) where
  -- No notification comes from nothing. With sound settings, valid constants, buses that accept
  -- connections and an address for every notifier, a watcher that starts without machines and without
  -- messages has sent only messages that are due, at every moment of a run: each is about a unit and a
  -- state that one rule asks for, goes to a notifier of that rule, has a timestamp that was read, and
  -- reports a first state or a change from another one.
  pub run-IsDue :
      (schedule : List (Option (Dbus.Message B))) (w : World)
      → w.unit_states ≡ []
      → sent w.trace ≡ []
      → All (IsDue B R watcher.settings address) (sent (run B R watcher schedule w).1.trace)
  run-IsDue schedule w fresh unsent =
      Steps-keep B R watcher.settings address
        (λ m. All (IsDue B R watcher.settings address) m.outbox)
        (Step-IsDue B R watcher.settings address)
        (run-Steps B R up watcher sound address reach schedule w fresh) (rw unsent tt)
