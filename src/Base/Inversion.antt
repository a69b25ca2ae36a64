-- ===== src/Base/Inversion.antt =====
-- What a value that is there says of the steps it came from.
use mathlib.Core.Path.{◌≡◌, refl}
use devops_platform.Base.Outcomes.{Result, ok, err, panic, bind}

module _ {ℓ κ} {A : Type ℓ} {B : Type κ} where
  pub bind-ok :
      (r : Result A) (f : A → Result B) (b : B)
      → bind r f ≡ ok b
      → (a : A) × ((r ≡ ok a) × (f a ≡ ok b))
  bind-ok (ok a) f b h = (a, (refl, h))
  bind-ok (err e) f b h = cc
  bind-ok panic f b h = cc
