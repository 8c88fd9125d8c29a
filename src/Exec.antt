-- ===== src/Exec.antt =====
-- Actions that change a state and may fail with an error of the program, or panic.
pub mod Keeps
pub mod Safe
pub mod Same
use killjoy.Base.{String, ◌≡◌, refl}
use killjoy.Error.{Error, Result, ok, err}

pub data Outcome (A : Type 0) : Type 0 where
  returned : A → Outcome A
  raised : Error → Outcome A
  panicked : String → Outcome A

-- The state is kept when the action fails: what was mutated stays mutated.
abbrev pub Exec : Type 0 → Type 0 → Type 0
Exec S A = S → Outcome A × S

module _ {S A : Type 0} where
  unfoldable pub pure : A → Exec S A
  pure a s = (returned a, s)

  unfoldable pub raise : Error → Exec S A
  raise e s = (raised e, s)

  unfoldable pub panic : String → Exec S A
  panic message s = (panicked message, s)

  -- A value that is known, or a failure that is, with the state left alone.
  unfoldable pub conclude : Outcome A → Exec S A
  conclude r s = (r, s)

  -- The `?` operator on a plain result.
  unfoldable pub lift : Result Error A → Exec S A
  lift (ok a) s = (returned a, s)
  lift (err e) s = (raised e, s)

  -- `X::new(…).expect(message)`: a panic keeps the message.
  unfoldable pub expect : {E : Type 0} → Result E A → String → Exec S A
  expect (ok a) message s = (returned a, s)
  expect (err e) message s = (panicked message, s)

  abbrev pub settle : Outcome A × S → Outcome (Result Error A) × S
  settle (returned a, s) = (returned (ok a), s)
  settle (raised e, s) = (returned (err e), s)
  settle (panicked m, s) = (panicked m, s)

  -- `match … { Ok(a) => …, Err(e) => … }` on the result of an action. A panic is not caught.
  unfoldable pub attempt : Exec S A → Exec S (Result Error A)
  attempt m s = settle (m s)

module _ {S A B : Type 0} where
  abbrev pub and_then : Outcome A × S → (A → Exec S B) → Outcome B × S
  and_then (returned a, s) f = f a s
  and_then (raised e, s) f = (raised e, s)
  and_then (panicked m, s) f = (panicked m, s)

  -- Opening this opens all that is above.
  infixl 5 ◌>>=◌
  unfoldable pub ◌>>=◌ : Exec S A → (A → Exec S B) → Exec S B
  unfolding pure raise panic conclude lift expect attempt
  ◌>>=◌ m f s = and_then (m s) f

module _ {S B : Type 0} where
  infixl 5 ◌>>◌
  abbrev pub ◌>>◌ : Exec S (Unit {0}) → Exec S B → Exec S B
  m >> k = m >>= λ _. k
