-- ===== src/Error/Mapping.antt =====
-- lib/include/hacpp/error.h: what the mapping of foreign errors keeps and what it never yields.
use mathlib.Core.Option.{some-injective}
use hacpp.Base.{
  ℕ, ◌%◌, ◌^◌, String, ◌≡◌, refl, ap, ◌≢◌, ◌↔◌, ◌⊎◌, Bool, true, ==_iff, Option, none, some, ◌==◌,
  List, [], ◌∷◌, arith, str_eq, if◌then◌else◌,
}
use hacpp.Error.{
  ErrorCode, success, not_authorized, host_not_found, connection_refused,
  packet_not_allowed_to_send, not_connected, invalid_config, disconnected, session_reset,
  internal_error, invalid_packet, unknown_error, Error, foreign, Platform, failed, to_int,
  make_error_code, Category, hacpp_mqtt, is_code, message, map_err, map_code,
}

-- What Boost.Asio and async_mqtt document: their categories are different objects, and none of
-- the values that are mapped is the value of success.
pub record IsPlatform (P : Platform) : Type 0 where
  pub netdb-connect : P.netdb_category ≢ P.connect_reason_code_category
  pub misc-connect : P.misc_category ≢ P.connect_reason_code_category
  pub misc-netdb : P.misc_category ≢ P.netdb_category
  pub system-connect : P.system_category ≢ P.connect_reason_code_category
  pub system-netdb : P.system_category ≢ P.netdb_category
  pub system-misc : P.system_category ≢ P.misc_category
  pub mqtt-connect : P.mqtt_error_category ≢ P.connect_reason_code_category
  pub mqtt-netdb : P.mqtt_error_category ≢ P.netdb_category
  pub mqtt-misc : P.mqtt_error_category ≢ P.misc_category
  pub mqtt-system : P.mqtt_error_category ≢ P.system_category
  pub not_authorized-ne : P.reason_not_authorized ≢ 0
  pub host-ne : P.netdb_host_not_found ≢ 0
  pub try_again-ne : P.netdb_host_not_found_try_again ≢ 0
  pub eof-ne : P.misc_eof ≢ 0
  pub refused-ne : P.system_connection_refused ≢ 0
  pub not_connected-ne : P.system_not_connected ≢ 0
  pub refused-not_connected : P.system_not_connected ≢ P.system_connection_refused
  pub packet-ne : P.mqtt_packet_not_allowed_to_send ≢ 0

module _ (P : Platform) (ec : Error) where
  -- The foreign error that a code stands for. No foreign error becomes one of the last four.
  abbrev pub Stands : ErrorCode → Type 0
  Stands success = ec.value ≡ 0
  Stands not_authorized =
      (ec.category ≡ foreign P.connect_reason_code_category)
      × (ec.value % 2 ^ 8 ≡ P.reason_not_authorized)
  Stands host_not_found =
      (ec.category ≡ foreign P.netdb_category)
      × ((ec.value ≡ P.netdb_host_not_found) ⊎ (ec.value ≡ P.netdb_host_not_found_try_again))
  Stands disconnected = (ec.category ≡ foreign P.misc_category) × (ec.value ≡ P.misc_eof)
  Stands connection_refused =
      (ec.category ≡ foreign P.system_category) × (ec.value ≡ P.system_connection_refused)
  Stands not_connected =
      (ec.category ≡ foreign P.system_category) × (ec.value ≡ P.system_not_connected)
  Stands packet_not_allowed_to_send =
      (ec.category ≡ foreign P.mqtt_error_category) × (ec.value ≡ P.mqtt_packet_not_allowed_to_send)
  Stands unknown_error =
      (ec.value ≢ 0)
      × ¬ (
          (ec.category ≡ foreign P.connect_reason_code_category)
          × (ec.value % 2 ^ 8 ≡ P.reason_not_authorized))
      × ¬ (
          (ec.category ≡ foreign P.netdb_category)
          × ((ec.value ≡ P.netdb_host_not_found) ⊎ (ec.value ≡ P.netdb_host_not_found_try_again)))
      × ¬ ((ec.category ≡ foreign P.misc_category) × (ec.value ≡ P.misc_eof))
      × ¬ ((ec.category ≡ foreign P.system_category) × (ec.value ≡ P.system_connection_refused))
      × ¬ ((ec.category ≡ foreign P.system_category) × (ec.value ≡ P.system_not_connected))
      × ¬ (
          (ec.category ≡ foreign P.mqtt_error_category)
          × (ec.value ≡ P.mqtt_packet_not_allowed_to_send))
  Stands invalid_config = ⊥
  Stands session_reset = ⊥
  Stands internal_error = ⊥
  Stands invalid_packet = ⊥

  Stands-map_code : IsPlatform P → (e : ErrorCode) → map_code P ec ≡ e → Stands e
  unfolding map_code
  Stands-map_code h success s = ground arith
  Stands-map_code h _ s = ground arith

  map_code-Stands : IsPlatform P → (e : ErrorCode) → Stands e → map_code P ec ≡ e
  unfolding map_code
  map_code-Stands h success s = ground arith
  map_code-Stands h _ s = ground arith

all_codes : List ErrorCode
all_codes =
    success ∷ not_authorized ∷ host_not_found ∷ connection_refused ∷ packet_not_allowed_to_send
    ∷ not_connected ∷ invalid_config ∷ disconnected ∷ session_reset ∷ internal_error
    ∷ invalid_packet ∷ unknown_error ∷ []

find_code : (ErrorCode → Bool) → List ErrorCode → Option ErrorCode
find_code p [] = none
find_code p (e ∷ es) = if p e then some e else find_code p es

of_int : ℕ → Option ErrorCode
of_int v = find_code (λ e. to_int e == v) all_codes

of_int-to_int : (e : ErrorCode) → of_int (to_int e) ≡ some e
unfolding of_int find_code all_codes
of_int-to_int success = refl
of_int-to_int _ = refl

-- Different codes are different errors, so a test for one code holds of no other.
pub make_error_code-injective : (e f : ErrorCode) → make_error_code e ≡ make_error_code f → e ≡ f
unfolding make_error_code
make_error_code-injective e f h =
    some-injective e f
      (cc (ap (λ (err : Error). of_int err.value) h, of_int-to_int e, of_int-to_int f))

-- A code of this library is told by its value and by its category.
pub is_code-eq : (err : Error) (e : ErrorCode) → is_code err e ≡ true → err ≡ make_error_code e
unfolding is_code make_error_code
is_code-eq err e = same err.value err.category
  where
    same :
        (value : ℕ) (category : Category)
        → is_code (record { value = value; category = category }) e ≡ true
        → record { value = value; category = category } ≡ make_error_code e
    same value hacpp_mqtt h =
        ap (λ v. record { value = v; category = hacpp_mqtt }) ((==_iff value (to_int e)).0 h)
    same value (foreign id) h = absurd (cc)

-- On a platform as documented, where the categories differ, the two mapped system errors differ,
-- and no mapped value is that of success: a foreign error is mapped to a code exactly when it is
-- one of the errors that the code stands for, a connect reason by its low 8 bits. Each foreign value is told apart by its category,
-- what is not listed becomes `UnknownError`, only success becomes success, and no foreign error
-- becomes `InvalidConfig`, `SessionReset`, `InternalError` or `InvalidPacket`.
pub map_err-eq_iff :
    (P : Platform) (ec : Error) (e : ErrorCode)
    → IsPlatform P
    → (map_err P ec ≡ make_error_code e) ↔ Stands P ec e
unfolding map_err
map_err-eq_iff P ec e h = (
  λ eq. Stands-map_code P ec h e (make_error_code-injective _ e eq),
  λ s. ap make_error_code (map_code-Stands P ec h e s),
)

-- A mapped error fails exactly when the original fails.
pub failed-map_err : (P : Platform) (ec : Error) → failed (map_err P ec) ≡ failed ec
unfolding map_err make_error_code map_code
failed-map_err P ec = ground arith

of_message : String → Option ErrorCode
of_message s = find_code (λ e. str_eq (message (to_int e)) s) all_codes

of_message-message : (e : ErrorCode) → of_message (message (to_int e)) ≡ some e
unfolding of_message find_code all_codes message
of_message-message success = refl
of_message-message _ = refl

-- The texts of two codes differ, so a logged message identifies its code.
pub message-injective : (e f : ErrorCode) → message (to_int e) ≡ message (to_int f) → e ≡ f
message-injective e f h =
    some-injective e f (cc (ap of_message h, of_message-message e, of_message-message f))
