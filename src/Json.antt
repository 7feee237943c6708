-- ===== src/Json.antt =====
-- Boost.JSON, as far as lib/include/hacpp/entity.h uses it: a parameter of the model, with the laws
-- that its documentation states.
use hacpp.Base.{◌≡◌, String, Option, none, some, List, str_eq, if◌then◌else◌}

pub record Json : Type 1 where
  pub Object : Type 0
  pub Value : Type 0
  -- `object{}`, `if_contains` and `operator[]` with an assignment.
  pub empty : Object
  pub find : Object → String → Option Value
  pub assign : Object → String → Value → Object
  -- The kinds of values that are stored.
  pub null : Value
  pub string : String → Value
  pub array : List Value → Value
  pub object : Object → Value
  -- `value_to<std::string>` and `as_object`; `none` where they throw.
  pub as_string : Value → Option String
  pub as_object : Value → Option Object
  pub serialize : Object → String

pub record IsJson (J : Json) : Type 0 where
  pub find-empty : (k : String) → J.find J.empty k ≡ none
  pub find-assign :
      (o : J.Object) (k : String) (v : J.Value) (j : String)
      → J.find (J.assign o k v) j ≡ (if str_eq k j then some v else J.find o j)
  pub as_string-string : (s : String) → J.as_string (J.string s) ≡ some s
  pub as_string-null : J.as_string J.null ≡ none
  pub as_object-object : (o : J.Object) → J.as_object (J.object o) ≡ some o
  pub as_object-null : J.as_object J.null ≡ none
