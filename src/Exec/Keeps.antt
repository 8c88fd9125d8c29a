-- ===== src/Exec/Keeps.antt =====
-- Invariants of actions: what holds of the state before holds after, whatever the outcome.
use killjoy.Base.{◌≡◌, refl, String, Bool, true, false, if◌then◌else◌}
use killjoy.Error.{Error, Result, ok, err}
use killjoy.Exec.{
  Outcome, returned, raised, panicked, Exec, pure, raise, panic, conclude, expect, lift, attempt,
  and_then, settle, ◌>>=◌,
}

pub record Keeps {S A : Type 0} (P : S → Type 0) (m : Exec S A) : Type 0 where
  pub at : (s : S) → P s → P (m s).1

module _ {S : Type 0} {P : S → Type 0} where
  pub Keeps-conclude : {A : Type 0} (r : Outcome A) → Keeps P (conclude r)
  unfolding conclude
  Keeps-conclude r = record { at = λ s p. p }

  pub Keeps-pure : {A : Type 0} (a : A) → Keeps P (pure a)
  unfolding pure
  Keeps-pure a = record { at = λ s p. p }

  pub Keeps-raise : {A : Type 0} (e : Error) → Keeps P (raise {A = A} e)
  unfolding raise
  Keeps-raise e = record { at = λ s p. p }

  pub Keeps-panic : {A : Type 0} (m : String) → Keeps P (panic {A = A} m)
  unfolding panic
  Keeps-panic m = record { at = λ s p. p }

  pub Keeps-lift : {A : Type 0} (r : Result Error A) → Keeps P (lift r)
  unfolding lift
  Keeps-lift (ok a) = record { at = λ s p. p }
  Keeps-lift (err e) = record { at = λ s p. p }

  pub Keeps-expect : {E A : Type 0} (r : Result E A) (message : String) → Keeps P (expect r message)
  unfolding expect
  Keeps-expect (ok a) message = record { at = λ s p. p }
  Keeps-expect (err e) message = record { at = λ s p. p }

  pub Keeps-if :
      {A : Type 0} (b : Bool) (m n : Exec S A)
      → Keeps P m
      → Keeps P n
      → Keeps P (if b then m else n)
  Keeps-if true m n k h = k
  Keeps-if false m n k h = h

module _ {S : Type 0} (P : S → Type 0) where
  pub and_then-keeps :
      {A B : Type 0} (x : Outcome A × S) (f : A → Exec S B)
      → P x.1
      → ((a : A) → Keeps P (f a))
      → P (and_then x f).1
  and_then-keeps (returned a, s) f h k = (k a).at s h
  and_then-keeps (raised e, s) f h k = h
  and_then-keeps (panicked m, s) f h k = h

  -- The same, where the rest is known at the one state that it starts from.
  pub and_then-after :
      {A B : Type 0} (x : Outcome A × S) (f : A → Exec S B)
      → P x.1
      → ((a : A) → P (f a x.1).1)
      → P (and_then x f).1
  and_then-after (returned a, s) f h k = k a
  and_then-after (raised e, s) f h k = h
  and_then-after (panicked m, s) f h k = h

  pub settle-keeps : {A : Type 0} (x : Outcome A × S) → P x.1 → P (settle x).1
  settle-keeps (returned a, s) h = h
  settle-keeps (raised e, s) h = h
  settle-keeps (panicked m, s) h = h

module _ {S : Type 0} {P : S → Type 0} where
  pub Keeps-bind :
      {A B : Type 0} (first : Exec S A) (next : A → Exec S B)
      → Keeps P first
      → ((value : A) → Keeps P (next value))
      → Keeps P (first >>= next)
  unfolding ◌>>=◌
  Keeps-bind m f k h = record { at = λ s p. and_then-keeps P (m s) f (k.at s p) h }

  -- What follows a known result may use that it is a success.
  pub Keeps-lift_then :
      {A B : Type 0} (result : Result Error A) (next : A → Exec S B)
      → ((value : A) → result ≡ ok value → Keeps P (next value))
      → Keeps P (lift result >>= next)
  unfolding ◌>>=◌
  Keeps-lift_then (err problem) next known = record { at = λ s before. before }
  Keeps-lift_then (ok value) next known = record { at = λ s before. (known value refl).at s before }

  pub Keeps-attempt : {A : Type 0} (m : Exec S A) → Keeps P m → Keeps P (attempt m)
  unfolding attempt
  Keeps-attempt m k = record { at = λ s p. settle-keeps P (m s) (k.at s p) }

pub ruleset keeps_rules = (
  Keeps-pure, Keeps-raise, Keeps-panic, Keeps-conclude, Keeps-lift, Keeps-expect, Keeps-if,
  Keeps-bind, Keeps-attempt,
)
