-- ===== src/Base/Results.antt =====
-- How a call ends: with a value, with an exception, or with a loop's fuel used up (which is no
-- behaviour of the code: theorems say when it cannot be).

-- What the code's callees throw: `boost::json::object::at` on a missing key, `as_object` or
-- `value_to<std::string>` at a value of another kind, and an await without `redirect_error`.
pub data Exception : Type 0 where
  missing_key wrong_kind await_failed : Exception

pub data Outcome {ℓ} (A : Type ℓ) : Type ℓ where
  returned : A → Outcome A
  threw : Exception → Outcome A
  exhausted : Outcome A

infixl 5 ◌>>=◌
abbrev pub ◌>>=◌ {ℓ κ} : {A : Type ℓ} {B : Type κ} → Outcome A → (A → Outcome B) → Outcome B
returned a >>= f = f a
threw e >>= f = threw e
exhausted >>= f = exhausted
