-- ===== src/Config.antt =====
-- lib/include/hacpp/entity.h: the configuration of an entity, a JSON object with at most one level
-- of nesting.
pub mod Laws
pub mod Frame
pub mod Devices
pub mod Settings
use hacpp.Base.{
  ◌≡◌, String, Bool, true, false, Option, none, some, is_some, List, [], ◌∷◌, map, Outcome,
  returned, threw, exhausted, missing_key, wrong_kind, is_empty, if◌then◌else◌, ◌>>=◌,
}
use hacpp.Json.{Json}

pub record Property : Type 0 where
  pub key : String
  pub obj_key : String

-- `Property{key}`: the object's key is empty.
abbrev pub property : String → Property
property key = record { key = key; obj_key = "" }

pub record Device : Type 0 where
  pub configuration_url : String
  pub connections : List String
  pub hw_version : String
  pub identifiers : List String
  pub manufacturer : String
  pub model : String
  pub model_id : String
  pub name : String
  pub serial_number : String
  pub suggested_area : String
  pub sw_version : String
  pub via_device : String

-- `Availability::Opt` and `Availability::Defs`.
abbrev pub availability_topic : Property
availability_topic = record { key = "topic"; obj_key = "availability" }

abbrev pub availability_payload_available : Property
availability_payload_available = record { key = "payload_available"; obj_key = "availability" }

abbrev pub availability_payload_not_available : Property
availability_payload_not_available = record {
  key = "payload_not_available";
  obj_key = "availability";
}

abbrev pub availability_value_template : Property
availability_value_template = record { key = "value_template"; obj_key = "availability" }

abbrev pub default_payload_available : String
default_payload_available = "online"

abbrev pub default_payload_not_available : String
default_payload_not_available = "offline"

-- The value of a callee that throws `e` where it has none.
abbrev pub or_throw {ℓ} : {A : Type ℓ} → Option A → hacpp.Base.Exception → Outcome A
or_throw none e = threw e
or_throw (some a) e = returned a

module _ (J : Json) where
  open J use {Object, Value, find, assign, null, string, array, object, as_string, as_object}

  -- `EntityCfg::set(prop, nullptr)`.
  unfoldable pub set_null : Property → Object → Object
  set_null prop obj =
      if is_empty prop.obj_key
      then assign obj prop.key null
      else if is_some (find obj prop.obj_key)
      then obj
      else assign obj prop.obj_key null

  -- `if (!obj_.contains(key)) obj_[key] = object{}`.
  abbrev pub ensure_object : String → Object → Object
  ensure_object key obj = if is_some (find obj key) then obj else assign obj key (object J.empty)

  -- `obj_[key].as_object()`, for a key that is there.
  abbrev pub object_at : String → Object → Outcome Object
  object_at key obj = do
    value ← or_throw (find obj key) missing_key
    or_throw (as_object value) wrong_kind

  -- `EntityCfg::set(prop, value)`.
  unfoldable pub set : Property → String → Object → Outcome Object
  set prop value obj =
      if is_empty prop.obj_key then returned (assign obj prop.key (string value)) else do
        let ensured = ensure_object prop.obj_key obj
        inner ← object_at prop.obj_key ensured
        returned (assign ensured prop.obj_key (object (assign inner prop.key (string value))))

  -- `value_to<std::string>(obj.at(key))`.
  abbrev pub string_at : String → Object → Outcome String
  string_at key obj = do
    value ← or_throw (find obj key) missing_key
    or_throw (as_string value) wrong_kind

  unfoldable pub at : Property → Object → Outcome String
  at prop obj =
      if is_empty prop.obj_key
      then string_at prop.key obj
      else do inner ← object_at prop.obj_key obj; string_at prop.key inner

  unfoldable pub contains : Property → Object → Outcome Bool
  contains prop obj =
      if is_empty prop.obj_key
      then returned (is_some (find obj prop.key))
      else if is_some (find obj prop.obj_key)
      then (do inner ← object_at prop.obj_key obj; returned (is_some (find inner prop.key)))
      else returned false

  -- The constructor from a list of settings.
  unfoldable pub init : List (Property × String) → Object → Outcome Object
  unfolding set
  init [] obj = returned obj
  init ((prop, value) ∷ rest) obj = do obj ← set prop value obj; init rest obj

  unfoldable pub set_string : String → String → Object → Object
  set_string key value device = if is_empty value then device else assign device key (string value)

  unfoldable pub set_string_array : String → List String → Object → Object
  set_string_array key [] device = device
  set_string_array key (v ∷ vs) device = assign device key (array (map string (v ∷ vs)))

  -- The object that `EntityCfg::set(device)` builds.
  unfoldable pub json_device : Device → Object
  unfolding set_string set_string_array
  json_device d =
      let o = set_string "configuration_url" d.configuration_url J.empty in
      let o = set_string_array "connections" d.connections o in
      let o = set_string "hw_version" d.hw_version o in
      let o = set_string_array "identifiers" d.identifiers o in
      let o = set_string "manufacturer" d.manufacturer o in
      let o = set_string "model" d.model o in
      let o = set_string "model_id" d.model_id o in
      let o = set_string "name" d.name o in
      let o = set_string "serial_number" d.serial_number o in
      let o = set_string "suggested_area" d.suggested_area o in
      let o = set_string "sw_version" d.sw_version o in set_string "via_device" d.via_device o

  unfoldable pub set_device : Device → Object → Object
  unfolding json_device
  set_device d obj = assign obj "device" (object (json_device d))

  -- `EntityCfg::json`.
  abbrev pub json : Object → String
  json obj = J.serialize obj
