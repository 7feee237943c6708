-- ===== src/Error/Tests.antt =====
-- lib/include/hacpp/error.h at concrete inputs: the platform's numbers are those of Linux.
use hacpp.Base.{◌≡◌, refl, ◌↔◌, arith}
use hacpp.Error.{
  Platform, Error, foreign, make_error_code, map_err, map_code, connection_refused, unknown_error,
}
use hacpp.Error.Mapping.{IsPlatform, Stands, map_err-eq_iff}

abbrev pub linux : Platform
linux = record {
  connect_reason_code_category = 1;
  netdb_category = 2;
  misc_category = 3;
  system_category = 4;
  mqtt_error_category = 5;
  reason_not_authorized = 135;
  netdb_host_not_found = 1;
  netdb_host_not_found_try_again = 2;
  misc_eof = 2;
  system_connection_refused = 111;
  system_not_connected = 107;
  mqtt_packet_not_allowed_to_send = 258;
}

linux-IsPlatform : IsPlatform linux
linux-IsPlatform = record {
  netdb-connect = omega arith;
  misc-connect = omega arith;
  misc-netdb = omega arith;
  system-connect = omega arith;
  system-netdb = omega arith;
  system-misc = omega arith;
  mqtt-connect = omega arith;
  mqtt-netdb = omega arith;
  mqtt-misc = omega arith;
  mqtt-system = omega arith;
  not_authorized-ne = omega arith;
  host-ne = omega arith;
  try_again-ne = omega arith;
  eof-ne = omega arith;
  refused-ne = omega arith;
  not_connected-ne = omega arith;
  refused-not_connected = omega arith;
  packet-ne = omega arith;
}

abbrev pub refused : Error
refused = record { value = 111; category = foreign 4 }

-- The same number, under the category of the resolver.
abbrev elsewhere : Error
elsewhere = record { value = 111; category = foreign 2 }

map_err-refused : map_err linux refused ≡ make_error_code connection_refused
unfolding map_err map_code make_error_code
map_err-refused = refl

map_err-elsewhere : map_err linux elsewhere ≡ make_error_code unknown_error
unfolding map_err map_code make_error_code
map_err-elsewhere = refl

map_err-eq_iff_example :
    (map_err linux refused ≡ make_error_code connection_refused)
    ↔ Stands linux refused connection_refused
map_err-eq_iff_example = map_err-eq_iff linux refused connection_refused linux-IsPlatform
