-- ===== src/Error.antt =====
-- lib/include/hacpp/error.h: the error codes, their category, and the mapping of foreign errors.
pub mod Mapping
pub mod Tests
use hacpp.Base.{
  ℕ, ◌%◌, ◌^◌, String, Bool, true, not, Option, none, some, ◌==◌, ◌||◌, ◌&&◌, if◌then◌else◌,
}

pub data ErrorCode : Type 0 where
  success not_authorized host_not_found connection_refused packet_not_allowed_to_send : ErrorCode
  not_connected invalid_config disconnected session_reset internal_error : ErrorCode
  invalid_packet unknown_error : ErrorCode

-- The enumerators in their order, as `static_cast<int>` gives them.
abbrev pub to_int : ErrorCode → ℕ
to_int success = 0
to_int not_authorized = 1
to_int host_not_found = 2
to_int connection_refused = 3
to_int packet_not_allowed_to_send = 4
to_int not_connected = 5
to_int invalid_config = 6
to_int disconnected = 7
to_int session_reset = 8
to_int internal_error = 9
to_int invalid_packet = 10
to_int unknown_error = 11

-- A category is an object compared by its identity: this library's, or a foreign one by its number.
pub data Category : Type 0 where
  hacpp_mqtt : Category
  foreign : ℕ → Category

abbrev pub is_foreign : Category → ℕ → Bool
is_foreign hacpp_mqtt id = Bool.false
is_foreign (foreign other) id = other == id

abbrev pub is_hacpp : Category → Bool
is_hacpp hacpp_mqtt = true
is_hacpp (foreign id) = Bool.false

-- `boost::system::error_code`. The value is the `int`'s bit pattern: it is compared with constants,
-- once after a cast that keeps its low 8 bits, and never computed with.
pub record Error : Type 0 where
  pub value : ℕ
  pub category : Category

-- `if (err)`: every category here keeps the default `failed`, a value other than 0.
abbrev pub failed : Error → Bool
failed err = not (err.value == 0)

unfoldable pub make_error_code : ErrorCode → Error
make_error_code e = record { value = to_int e; category = hacpp_mqtt }

-- `err == ErrorCode::e`.
unfoldable pub is_code : Error → ErrorCode → Bool
is_code err e = is_hacpp err.category && err.value == to_int e

-- What Boost.Asio and async_mqtt define: the identities of their categories and the values of
-- their enumerators.
pub record Platform : Type 0 where
  pub connect_reason_code_category : ℕ
  pub netdb_category : ℕ
  pub misc_category : ℕ
  pub system_category : ℕ
  pub mqtt_error_category : ℕ
  pub reason_not_authorized : ℕ
  pub netdb_host_not_found : ℕ
  pub netdb_host_not_found_try_again : ℕ
  pub misc_eof : ℕ
  pub system_connection_refused : ℕ
  pub system_not_connected : ℕ
  pub mqtt_packet_not_allowed_to_send : ℕ

unfoldable pub category_name : String
category_name = "hacpp::mqtt"

-- `ErrorCategory::message`, which casts any `int`.
unfoldable pub message : ℕ → String
message ev =
    if ev == 0
    then "success"
    else if ev == 1
    then "not_authorized"
    else if ev == 2
    then "host_not_found"
    else if ev == 3
    then "connection_refused"
    else if ev == 4
    then "packet_not_allowed_to_send"
    else if ev == 5
    then "not_connected"
    else if ev == 6
    then "invalid_config"
    else if ev == 7
    then "disconnected"
    else if ev == 8
    then "session_reset"
    else if ev == 9
    then "internal_error"
    else if ev == 10
    then "invalid_packet"
    else if ev == 11
    then "unknown_error"
    else "TODO(pbiel): Handle error"

module _ (P : Platform) where
  -- The enumeration of async_mqtt that the value is cast to has 8 bits.
  map_connect_error : ℕ → ErrorCode
  map_connect_error ev =
      if ev % 2 ^ 8 == P.reason_not_authorized then not_authorized else unknown_error

  map_netdb_error : ℕ → ErrorCode
  map_netdb_error ev =
      if ev == P.netdb_host_not_found || ev == P.netdb_host_not_found_try_again
      then host_not_found
      else unknown_error

  map_misc_error : ℕ → ErrorCode
  map_misc_error ev = if ev == P.misc_eof then disconnected else unknown_error

  map_system_error : ℕ → ErrorCode
  map_system_error ev =
      if ev == P.system_connection_refused
      then connection_refused
      else if ev == P.system_not_connected
      then not_connected
      else unknown_error

  map_mqtt_error : ℕ → ErrorCode
  map_mqtt_error ev =
      if ev == P.mqtt_packet_not_allowed_to_send then packet_not_allowed_to_send else unknown_error

  -- The code that `map_err` returns, which every path turns into an error of this category.
  unfoldable pub map_code : Error → ErrorCode
  unfolding map_connect_error map_netdb_error map_misc_error map_system_error map_mqtt_error
  map_code ec =
      if not (failed ec)
      then success
      else if is_foreign ec.category P.connect_reason_code_category
      then map_connect_error ec.value
      else if is_foreign ec.category P.netdb_category
      then map_netdb_error ec.value
      else if is_foreign ec.category P.misc_category
      then map_misc_error ec.value
      else if is_foreign ec.category P.system_category
      then map_system_error ec.value
      else if is_foreign ec.category P.mqtt_error_category
      then map_mqtt_error ec.value
      else unknown_error

  -- `Error{}`, the default error code: the value 0 in the system category.
  unfoldable pub no_error : Error
  no_error = record { value = 0; category = foreign P.system_category }

  unfoldable pub map_err : Error → Error
  unfolding map_code make_error_code
  map_err ec = make_error_code (map_code ec)
