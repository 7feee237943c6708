-- ===== src/Factory.antt =====
-- lib/include/hacpp/factory.h: the setters that a factory with this base class passes on.
use hacpp.Base.{String, Outcome, returned}
use hacpp.Config.{
  Property, Device, set as set_property, set_null as set_property_null,
  set_device as set_property_device,
}
use hacpp.Json.{Json}

module _ (J : Json) where
  abbrev pub set_null : Property → J.Object → Outcome J.Object
  set_null key cfg = returned (set_property_null J key cfg)

  abbrev pub set_device : Device → J.Object → Outcome J.Object
  set_device device cfg = returned (set_property_device J device cfg)

  abbrev pub set : Property → String → J.Object → Outcome J.Object
  set key value cfg = set_property J key value cfg
