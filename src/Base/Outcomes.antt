-- ===== src/Base/Outcomes.antt =====
-- How a Go function ends: with a value, with an error (its text), or with a run-time panic. `Exec`
-- adds a state that a method mutates: what it wrote before an error stays written. Its combinators are
-- shut, so that a proof can follow the shape of a method by rules.
use Prim.Native.String.{String}

pub data Result {ℓ} (A : Type ℓ) : Type ℓ where
  ok : A → Result A
  err : String → Result A
  panic : Result A

abbrev pub bind {ℓ κ} : {A : Type ℓ} {B : Type κ} → Result A → (A → Result B) → Result B
bind (ok a) f = f a
bind (err e) f = err e
bind panic f = panic

-- fmt.Errorf(context + "%w", err)
abbrev pub map_err {κ} : {A : Type κ} → (String → String) → Result A → Result A
map_err f (ok a) = ok a
map_err f (err e) = err (f e)
map_err f panic = panic

abbrev pub Exec {ℓ κ} : Type ℓ → Type κ → Type (ℓ ⊔ κ)
Exec S A = S → Result A × S

module _ {ℓ} {S : Type ℓ} where
  abbrev pub pure {κ} : {A : Type κ} → A → Exec S A
  pure a s = (ok a, s)

  abbrev pub raise {κ} : {A : Type κ} → String → Exec S A
  raise e s = (err e, s)

  -- if err := m; err != nil { handler(err); return err }
  abbrev pub rescue_with {κ} : {A : Type κ} → (String → Exec S (Unit {0})) → Result A → Exec S A
  rescue_with h (ok a) s = (ok a, s)
  rescue_with h (err e) s = let (r, s') = h e s in elim r [ panic ↦ (panic, s') | _ ↦ (err e, s') ]
  rescue_with h panic s = (panic, s)

  unfoldable pub on_error {κ} : {A : Type κ} → Exec S A → (String → Exec S (Unit {0})) → Exec S A
  on_error m h s = let (r, s') = m s in rescue_with h r s'

  -- An error that is logged and dropped.
  unfoldable pub ignore_error : Exec S (Unit {0}) → Exec S (Unit {0})
  ignore_error m s = let (r, s') = m s in elim r [ panic ↦ (panic, s') | _ ↦ (ok tt, s') ]

  unfoldable pub wrap_error {κ} : {A : Type κ} → Exec S A → (String → String) → Exec S A
  wrap_error m f s = let (r, s') = m s in (map_err f r, s')

  abbrev pub continue {κ μ} : {A : Type κ} {B : Type μ} → Result A → (A → Exec S B) → Exec S B
  continue (ok a) f s = f a s
  continue (err e) f s = (err e, s)
  continue panic f s = (panic, s)

  infixl 5 ◌>>=◌ ◌>>◌
  unfoldable pub ◌>>=◌ {κ μ} : {A : Type κ} {B : Type μ} → Exec S A → (A → Exec S B) → Exec S B
  ◌>>=◌ m f s = let (r, s') = m s in continue r f s'

  abbrev pub ◌>>◌ {κ} : {B : Type κ} → Exec S (Unit {0}) → Exec S B → Exec S B
  m >> k = m >>= λ _. k
