-- ===== src/Exec/Same.antt =====
-- Equal actions from equal parts.
use mathlib.Core.Path.{fun_ext}
use killjoy.Base.{Bool, if◌then◌else◌, ◌≡◌, ap}
use killjoy.Exec.{Exec, ◌>>=◌}

-- Chains with the same first step and the same continuations.
pub bind_same :
    {S A B : Type 0} (m : Exec S A) (f g : A → Exec S B)
    → ((a : A) → f a ≡ g a)
    → (m >>= f) ≡ (m >>= g)
bind_same m f g h = ap (λ k. m >>= k) (fun_ext h)

pub then_same :
    {S A : Type 0} (b : Bool) (x y z : Exec S A)
    → x ≡ y
    → (if b then x else z) ≡ (if b then y else z)
then_same b x y z h = ap (λ k. if b then k else z) h
