-- ===== src/Config/Laws.antt =====
-- lib/include/hacpp/entity.h: setting and reading a configuration.
use hacpp.Base.{
  ◌≡◌, String, true, false, none, some, returned, threw, wrong_kind, Outcome, exhausted, is_empty,
}
use hacpp.Config.{Property, at, contains}
use hacpp.Json.{Json}

-- How setting a property to a text ends: it is there and reads back, or the code throws, which is
-- when the property's object key holds a value that is no object.
abbrev pub Sets : (J : Json) → Property → String → J.Object → Outcome J.Object → Type 0
Sets J p v o (returned o') = (at J p o' ≡ returned v) × (contains J p o' ≡ returned true)
Sets J p v o (threw e) =
    (e ≡ wrong_kind)
    × (is_empty p.obj_key ≡ false)
    × (x : J.Value) × (J.find o p.obj_key ≡ some x)
    × (J.as_object x ≡ none)
Sets J p v o exhausted = ⊥
