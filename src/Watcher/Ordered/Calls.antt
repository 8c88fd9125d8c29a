-- ===== src/Watcher/Ordered/Calls.antt =====
-- The invariant on the trace, and the actions that keep it because they ask for no properties.
use killjoy.Base.{String, ◌≡◌, ◌≢◌, ℕ, List, [], ◌∷◌, In, ap}
use killjoy.Base.Dict.{Dict}
use killjoy.Error.{Error, ExternResult, ExternError}
use killjoy.Exec.Keeps.{Keeps}
use killjoy.Dbus.{
  Dbus, Call, Trace, ConnPath, connect, add_match, remove_match, poll, method_call, send, eprint,
  BusType, Notification,
}
use killjoy.Generated.Client.{properties_interface}
use killjoy.Generated.Signals.{properties_changed_match_str}
use killjoy.Unit.Machine.{UnitStateMachine}
use killjoy.Generated.Wire.{Wire}
use killjoy.Watcher.World.{World, ask, tell, gets, set_unit_states, invoke}

-- A call of GetAll on an object.
abbrev pub IsGetAll : Call → ConnPath → Type 0
IsGetAll call c = (args : List String) × (call ≡ method_call c properties_interface "GetAll" args)

-- Any other call.
abbrev pub IsQuiet : Call → Type 0
IsQuiet call = (c : ConnPath) → ¬ IsGetAll call c

module _ (B : Dbus) where
  -- The match rule for the changes of an object's properties.
  abbrev pub change_rule : ConnPath → Call
  change_rule c = add_match (properties_changed_match_str B c.dest c.path)

  -- Below each GetAll stands a subscription to the changes of the same object.
  abbrev pub IsOrdered : Trace → Type 0
  IsOrdered [] = Unit
  IsOrdered (call ∷ t) = ((c : ConnPath) → IsGetAll call c → In (change_rule c) t) × IsOrdered t

  abbrev pub Ordered : World → Type 0
  Ordered w = IsOrdered w.trace

  pub Keeps-tell : (call : Call) → IsQuiet call → Keeps Ordered (tell call)
  unfolding tell
  Keeps-tell call q = record { at = λ w h. (λ c g. absurd (q c g), h) }

  pub Keeps-ask :
      {A : Type 0} (call : Call) (answer : Trace → ExternResult A) (f : ExternError → Error)
      → IsQuiet call
      → Keeps Ordered (ask call answer f)
  unfolding ask
  Keeps-ask call answer f q = record { at = λ w h. (λ c g. absurd (q c g), h) }

  pub Keeps-invoke :
      {A : Type 0} (call : Call) (m : Wire A) (f : ExternError → Error)
      → ((t : Trace) → (m t).1 ≡ call ∷ t)
      → IsQuiet call
      → Keeps Ordered (invoke m f)
  unfolding invoke
  Keeps-invoke call m f adds q = record { at = λ w h. rw (adds w.trace) (λ c g. absurd (q c g), h) }

  pub Keeps-gets : {A : Type 0} (f : World → A) → Keeps Ordered (gets f)
  unfolding gets
  Keeps-gets f = record { at = λ w h. h }

  pub Keeps-set_unit_states :
      (f : Dict UnitStateMachine → Dict UnitStateMachine) → Keeps Ordered (set_unit_states f)
  unfolding set_unit_states
  Keeps-set_unit_states f = record { at = λ w h. h }

pub connect-IsQuiet : (b : BusType) → IsQuiet (connect b)
connect-IsQuiet b c (args, e) = cc

pub add_match-IsQuiet : (s : String) → IsQuiet (add_match s)
add_match-IsQuiet s c (args, e) = cc

pub remove_match-IsQuiet : (s : String) → IsQuiet (remove_match s)
remove_match-IsQuiet s c (args, e) = cc

pub poll-IsQuiet : (n : ℕ) → IsQuiet (poll n)
poll-IsQuiet n c (args, e) = cc

pub send-IsQuiet : (b : BusType) (msg : Notification) (n : ℕ) → IsQuiet (send b msg n)
send-IsQuiet b msg n c (args, e) = cc

pub eprint-IsQuiet : (s : String) → IsQuiet (eprint s)
eprint-IsQuiet s c (args, e) = cc

member_of : Call → String
member_of (method_call c interface member args) = member
member_of _ = ""

pub method_call-IsQuiet :
    (c : ConnPath) (interface member : String) (args : List String)
    → member ≢ "GetAll"
    → IsQuiet (method_call c interface member args)
unfolding member_of
method_call-IsQuiet c interface member args h c' (args', e) = h (ap member_of e)
