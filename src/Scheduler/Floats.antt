-- ===== src/Scheduler/Floats.antt =====
-- What the schedulers and the docker pool use of Go's float64 and of package math, as an interface.
use devops_platform.Base.{ℕ, ◌≡◌, Bool, true, false}

pub record Float (F : Type 0) : Type 0 where
  pub zero : F
  pub one : F
  pub tenth : F
  pub lieb : F
  pub max_jobs : F
  -- math.Pow(2, 0.8)
  pub capacity : F
  pub add : F → F → F
  pub sub : F → F → F
  pub mul : F → F → F
  pub div : F → F → F
  pub pow : F → F → F
  pub lt : F → F → Bool
  -- float64 of a uint64, of an int64 by its pattern, and of a small int
  pub of_uint64 : ℕ → F
  pub of_int64 : ℕ → F
  pub of_int : ℕ → F
  -- uint64 of a float64
  pub to_uint64 : F → ℕ

-- What IEEE 754 says of `<`, also where NaN is compared, and of the two constants.
pub record IsOrdered {F : Type 0} (f : Float F) : Type 0 where
  pub lt_irrefl : (a : F) → f.lt a a ≡ false
  pub lt_trans : (a b c : F) → f.lt a b ≡ true → f.lt b c ≡ true → f.lt a c ≡ true
  pub tenth-lt-one : f.lt f.tenth f.one ≡ true
