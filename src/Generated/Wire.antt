-- ===== src/Generated/Wire.antt =====
-- A client method: it reads the answer to one call and adds the call to the trace.
use killjoy.Base.{String, List, ◌∷◌}
use killjoy.Error.{ExternResult, ok, err}
use killjoy.Dbus.{Dbus, ConnPath, Trace, method_call}

abbrev pub Wire : Type 0 → Type 0
Wire A = Trace → ExternResult A × Trace

abbrev pub pure : {A : Type 0} → A → Wire A
pure a t = (ok a, t)

-- A step that makes no call.
abbrev pub given : {A : Type 0} → ExternResult A → Wire A
given r t = (r, t)

abbrev pub and_then :
    {A B : Type 0} → ExternResult A × Trace → (A → Wire B) → ExternResult B × Trace
and_then (ok a, t) f = f a t
and_then (err e, t) f = (err e, t)

infixl 5 ◌>>=◌ ◌>>◌
abbrev pub ◌>>=◌ : {A B : Type 0} → Wire A → (A → Wire B) → Wire B
◌>>=◌ m f t = and_then (m t) f

abbrev pub ◌>>◌ : {B : Type 0} → Wire (Unit {0}) → Wire B → Wire B
m >> k = m >>= λ _. k

-- `ConnPath::method_call_with_args`, with the arguments that the closure appends.
abbrev pub call : (B : Dbus) → ConnPath → String → String → List String → Wire (Dbus.Message B)
call B c interface member args t = (
  Dbus.method_call_with_args B t c interface member args,
  method_call c interface member args ∷ t,
)
