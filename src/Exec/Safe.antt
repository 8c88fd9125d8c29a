-- ===== src/Exec/Safe.antt =====
-- Actions that fail only with errors of a given kind, and panic only in a given way.
use mathlib.Core.Path.{subst}
use killjoy.Base.{String, Bool, true, false, if◌then◌else◌, ◌≡◌, refl, arith}
use killjoy.Error.{Error, Result, ok, err}
use killjoy.Exec.{
  Outcome, returned, raised, panicked, Exec, pure, raise, conclude, expect, lift, attempt, and_then,
  settle, ◌>>=◌,
}

-- How an action may end: with any value, with an error as told, or with a panic as told of its
-- message and the state.
abbrev pub Allows :
    {S A : Type 0} → (Error → Type 0) → (String → S → Type 0) → Outcome A × S → Type 0
Allows E P (returned a, s) = Unit
Allows E P (raised e, s) = E e
Allows E P (panicked m, s) = P m s

pub record Safe {S A : Type 0} (E : Error → Type 0) (P : String → S → Type 0) (m : Exec S A)
    : Type 0 where
  pub at : (s : S) → Allows E P (m s)

module _ {S A : Type 0} {P : String → S → Type 0} where
  and_then-safe :
      {B : Type 0} (E : Error → Type 0) (x : Outcome A × S) (f : A → Exec S B)
      → Allows E P x
      → ((a : A) → Safe E P (f a))
      → Allows E P (and_then x f)
  and_then-safe E (returned a, s) f h k = (k a).at s
  and_then-safe E (raised e, s) f h k = h
  and_then-safe E (panicked m, s) f h k = h

  settle_then-safe :
      {B : Type 0} (D E : Error → Type 0) (x : Outcome A × S) (f : Result Error A → Exec S B)
      → Allows D P x
      → ((r : Result Error A) → ((e : Error) → r ≡ err e → D e) → Safe E P (f r))
      → Allows E P (and_then (settle x) f)
  settle_then-safe D E (returned a, s) f h k = (k (ok a) (λ e q. absurd (ground arith))).at s
  settle_then-safe D E (raised e, s) f h k = (k (err e) (λ e' q. subst D (ground arith) h)).at s
  settle_then-safe D E (panicked m, s) f h k = h

-- No panic.
abbrev pub Never : {S : Type 0} → String → S → Type 0
Never m s = ⊥

-- What does not panic may be followed by any change of the state.
pub Allows-calm :
    {S A : Type 0} (E : Error → Type 0) (P : String → S → Type 0) (r : Outcome A × S) (s' : S)
    → Allows E Never r
    → Allows E P (r.0, s')
Allows-calm E P (returned a, s) s' h = tt
Allows-calm E P (raised e, s) s' h = h
Allows-calm E P (panicked m, s) s' h = absurd h

pub Safe-calm :
    {S A : Type 0} {E : Error → Type 0} {P : String → S → Type 0} (m : Exec S A)
    → Safe E Never m
    → Safe E P m
Safe-calm m h = record { at = λ s. Allows-calm _ _ (m s) (m s).1 (h.at s) }

module _ {S : Type 0} {E : Error → Type 0} {P : String → S → Type 0} where
  pub Safe-pure : {A : Type 0} (a : A) → Safe {S = S} E P (pure a)
  unfolding pure
  Safe-pure a = record { at = λ s. tt }

  pub Safe-raise : {A : Type 0} (e : Error) → E e → Safe {S = S} E P (raise {A = A} e)
  unfolding raise
  Safe-raise e h = record { at = λ s. h }

  pub Safe-conclude :
      {A : Type 0} (r : Outcome A) → ((s : S) → Allows E P (r, s)) → Safe {S = S} E P (conclude r)
  unfolding conclude
  Safe-conclude r h = record { at = h }

  pub Safe-lift :
      {A : Type 0} (r : Result Error A)
      → ((e : Error) → r ≡ err e → E e)
      → Safe {S = S} E P (lift r)
  unfolding lift
  Safe-lift (ok a) h = record { at = λ s. tt }
  Safe-lift (err e) h = record { at = λ s. h e refl }

  pub Safe-expect :
      {D A : Type 0} (r : Result D A) (message : String) (a : A)
      → r ≡ ok a
      → Safe {S = S} E P (expect r message)
  unfolding expect
  Safe-expect r message a e = record { at = λ s. rw (e, expect) tt }

  pub Safe-if :
      {A : Type 0} (b : Bool) (m n : Exec S A)
      → Safe E P m
      → Safe E P n
      → Safe E P (if b then m else n)
  Safe-if true m n k h = k
  Safe-if false m n k h = h

  pub Safe-bind :
      {A B : Type 0} (m : Exec S A) (f : A → Exec S B)
      → Safe E P m
      → ((a : A) → Safe E P (f a))
      → Safe E P (m >>= f)
  unfolding ◌>>=◌
  Safe-bind m f k h = record { at = λ s. and_then-safe E (m s) f (k.at s) h }

  -- The rest may use that the result is there.
  pub Safe-bind-lift :
      {A B : Type 0} (r : Result Error A) (f : A → Exec S B)
      → ((e : Error) → r ≡ err e → E e)
      → ((a : A) → r ≡ ok a → Safe E P (f a))
      → Safe E P (lift r >>= f)
  unfolding ◌>>=◌
  Safe-bind-lift (ok a) f h k = record { at = λ s. (k a refl).at s }
  Safe-bind-lift (err e) f h k = record { at = λ s. h e refl }

  -- The rest may use that an error is of the caught kind.
  pub Safe-bind-attempt :
      {A B : Type 0} (D : Error → Type 0) (m : Exec S A) (f : Result Error A → Exec S B)
      → Safe D P m
      → ((r : Result Error A) → ((e : Error) → r ≡ err e → D e) → Safe E P (f r))
      → Safe E P (attempt m >>= f)
  unfolding ◌>>=◌
  Safe-bind-attempt D m f k h = record { at = λ s. settle_then-safe D E (m s) f (k.at s) h }

pub ruleset safe_rules = (Safe-pure, Safe-if, Safe-bind)
