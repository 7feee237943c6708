-- ===== src/Button/Announced.antt =====
-- lib/include/hacpp/button.h: the setup of a button that the user configured with settings.
use hacpp.Base.{◌≡◌, refl, ◌∙◌, String, List, [], ◌∷◌, Option, none, true, returned}
use hacpp.Api.{Operation, publishing, subscribing}
use hacpp.Config.{json}
use hacpp.Config.Settings.{Setting, AreFlat, latest, find-unset}
use hacpp.Entity.{
  Spawned, Handler, wait, bind, co_return, async_publish, async_setup, async_update_availability,
  topic_of,
}
use hacpp.Entity.Setup.{Issues, setup_requests-Issues, available-eq}
use hacpp.Error.{Error, make_error_code, success}
use hacpp.Json.{Json, IsJson}
use hacpp.Mqtt.{at_least_once}
use hacpp.Button.{
  Config, Factory, create, component, base, async_discovery_impl, async_subscribe_impl,
}
use hacpp.Button.Laws.{factory_cfg}
use hacpp.Button.Configured.{
  customised, configured_cfg, factory_with, customised-eq, at-command, command_topic,
}

module _ (J : Json) (laws : IsJson J) (unique_id : String) (ss : List Setting)
    (reports : latest "availability" ss ≡ none) (handler : Option Handler) where
  open laws use {find-empty, find-assign}

  abbrev pub button : Config J
  button = create J (factory_with J laws unique_id ss handler)

  abbrev pub announced_operations : List Operation
  announced_operations =
      publishing (topic_of component unique_id "config")
        (json J (configured_cfg J laws unique_id ss)) at_least_once true
      ∷ subscribing (record { topic = command_topic unique_id ss; qos = at_least_once } ∷ [])
      ∷ publishing (topic_of component unique_id "availability") "online" at_least_once true
      ∷ []

  update-eq :
      (s : Spawned)
      → async_update_availability J (base J button) true s
        ≡ async_publish (topic_of component unique_id "availability") "online" at_least_once true s
  unfolding base create
  update-eq s =
      available-eq J laws (base J button) (topic_of component unique_id "availability") s (
        find-unset J laws "availability" ss (factory_cfg J laws unique_id) refl reports
        ∙ simp (find-assign, find-empty))

  subscribe-eq :
      (s : Spawned)
      → async_subscribe_impl J button s
        ≡ wait s
            (subscribing (record { topic = command_topic unique_id ss; qos = at_least_once } ∷ []))
            (λ err t. co_return err t)
  unfolding async_subscribe_impl create bind
  subscribe-eq s = rw (at-command J laws unique_id ss) refl

  pub announced-Issues :
      (last : Error) (s : Spawned)
      → Issues last s announced_operations (async_setup J (base J button) s)
  unfolding base async_discovery_impl create
  announced-Issues =
      setup_requests-Issues J (base J button) (topic_of component unique_id "config")
        (json J (configured_cfg J laws unique_id ss))
        (record { topic = command_topic unique_id ss; qos = at_least_once } ∷ [])
        (topic_of component unique_id "availability") "online" at_least_once (λ s. refl)
        subscribe-eq update-eq

-- With JSON as documented, the factory of a button returns, with any text and device settings that are not nested and
-- do not replace the availability, and the setup of the button that it makes publishes its
-- configuration to `homeassistant/button/<id>/config`, subscribes to the command topic that was set
-- last, or to `homeassistant/button/<id>/set`, and publishes `online` to
-- `homeassistant/button/<id>/availability`, in this order up to the first failure, whose error is
-- returned. All are sent at least once, and the publishes are retained.
pub button_factory_publishes :
    (J : Json) (unique_id : String) (ss : List Setting) (s : Spawned)
    → IsJson J
    → AreFlat ss
    → latest "availability" ss ≡ none
    → (f : Factory J) × (customised J unique_id ss ≡ returned f)
      × Issues
          (make_error_code success)
          s
          (publishing (topic_of "button" unique_id "config") (json J f.cfg) at_least_once true
            ∷ subscribing (record { topic = command_topic unique_id ss; qos = at_least_once } ∷ [])
            ∷ publishing (topic_of "button" unique_id "availability") "online" at_least_once true
            ∷ [])
          (async_setup J (base J (create J f)) s)
button_factory_publishes J unique_id ss s laws flat reports = (
  factory_with J laws unique_id ss none,
  customised-eq J laws unique_id ss flat,
  announced-Issues J laws unique_id ss reports none (make_error_code success) s,
)
