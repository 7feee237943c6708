-- ===== src/Config/Devices.antt =====
-- lib/include/hacpp/entity.h: the JSON object of a device.
use hacpp.Base.{
  ◌≡◌, refl, inl, inr, String, Option, none, some, List, [], ◌∷◌, map, is_empty, str_eq,
  if◌then◌else◌, Bool-cases, All,
}
use hacpp.Config.{Device, set_string, set_string_array, json_device}
use hacpp.Json.{Json, IsJson}

module _ (J : Json) where
  -- What a field of a device is stored as: an empty one is not stored.
  abbrev pub text_value : String → Option J.Value
  text_value s = if is_empty s then none else some (J.string s)

  abbrev pub list_value : List String → Option J.Value
  list_value [] = none
  list_value (v ∷ vs) = some (J.array (map J.string (v ∷ vs)))

  abbrev or_else : Option J.Value → Option J.Value → Option J.Value
  or_else none old = old
  or_else (some v) old = some v

  -- The keys, and the value under each.
  abbrev pub entries : Device → List (String × Option J.Value)
  entries d =
      ("configuration_url", text_value d.configuration_url)
      ∷ ("connections", list_value d.connections)
      ∷ ("hw_version", text_value d.hw_version)
      ∷ ("identifiers", list_value d.identifiers)
      ∷ ("manufacturer", text_value d.manufacturer)
      ∷ ("model", text_value d.model)
      ∷ ("model_id", text_value d.model_id)
      ∷ ("name", text_value d.name)
      ∷ ("serial_number", text_value d.serial_number)
      ∷ ("suggested_area", text_value d.suggested_area)
      ∷ ("sw_version", text_value d.sw_version)
      ∷ ("via_device", text_value d.via_device)
      ∷ []

  module _ (laws : IsJson J) where
    find-set_string :
        (k v : String) (o : J.Object) (j : String)
        → J.find (set_string J k v o) j
          ≡ (if str_eq k j then or_else (text_value v) (J.find o j) else J.find o j)
    unfolding set_string
    find-set_string k v o j = elim (Bool-cases (is_empty v)) [
      | inl empty ↦ elim (Bool-cases (str_eq k j)) [
        | inl hit ↦ rw (empty, hit) refl
        | inr miss ↦ rw (empty, miss) refl
      ]
      | inr filled ↦ rw (filled, laws.find-assign) refl
    ]

    find-set_string_array :
        (k : String) (vs : List String) (o : J.Object) (j : String)
        → J.find (set_string_array J k vs o) j
          ≡ (if str_eq k j then or_else (list_value vs) (J.find o j) else J.find o j)
    unfolding set_string_array
    find-set_string_array k [] o j = elim (Bool-cases (str_eq k j)) [
      | inl hit ↦ rw hit refl
      | inr miss ↦ rw miss refl
    ]
    find-set_string_array k (v ∷ vs) o j = rw laws.find-assign refl

    or_else-none : (o : Option J.Value) → or_else o none ≡ o
    or_else-none none = refl
    or_else-none (some v) = refl

-- With JSON as documented, the object built for a device holds, under each of its twelve keys, the
-- field of that name, and nothing under the key of an empty field.
pub json_device-entries :
    (J : Json) (d : Device) → IsJson J → All (λ e. J.find (json_device J d) e.0 ≡ e.1) (entries J d)
unfolding json_device
json_device-entries J d laws =
    simp
      (find-set_string J laws, find-set_string_array J laws, laws.find-empty, or_else-none J laws)
      (
        refl,
        (refl, (refl, (refl, (refl, (refl, (refl, (refl, (refl, (refl, (refl, (refl, tt))))))))))),
      )
