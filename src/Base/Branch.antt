-- ===== src/Base/Branch.antt =====
-- Properties of the two branches of a test.
use corekit.Base.{◌≡◌, sym, subst, refl, Bool, true, false, if◌then◌else◌}

-- A property of both branches.
pub if-both {ℓ} :
    {A : Type ℓ} (P : A → Type 0) (b : Bool) {x y : A}
    → (b ≡ true → P x)
    → (b ≡ false → P y)
    → P (if b then x else y)
if-both P true f g = f refl
if-both P false f g = g refl

pub if-then {ℓ} :
    {A : Type ℓ} (P : A → Type 0) (b : Bool) {x : A} (y : A)
    → b ≡ true
    → P x
    → P (if b then x else y)
if-then P b {x} y e h = subst (λ c. P (if c then x else y)) (sym e) h
