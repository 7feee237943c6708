-- ===== src/Cover/Announced.antt =====
-- lib/include/hacpp/cover.h: what a cover that the user configured with settings requests.
use hacpp.Base.{◌≡◌, refl, ◌∙◌, String, List, [], ◌∷◌, Option, none, some, true, returned}
use hacpp.Api.{Operation, publishing, subscribing}
use hacpp.Config.{at, contains, json}
use hacpp.Config.Settings.{Setting, AreFlat, latest, get_or, find-set, find-unset, at-set, at-text}
use hacpp.Entity.{Spawned, Handler, wait, bind, co_return, async_publish, async_setup, topic_of}
use hacpp.Entity.Setup.{Issues, setup_requests-Issues, available-eq}
use hacpp.Error.{Error, make_error_code, success}
use hacpp.Json.{Json, IsJson}
use hacpp.Mqtt.{at_least_once}
use hacpp.Cover.{
  Config, Factory, create, component, base, async_discovery_impl, async_subscribe_impl,
  async_update_state, opt_command_topic,
}
use hacpp.Cover.Laws.{factory_cfg}
use hacpp.Cover.Configured.{
  configured_cfg, configured_factory, find-configured, at-command, commands, customised, set_cfg,
  customised_factory, customised-eq,
}

-- What the setup of a cover with this configuration and this command topic requests.
abbrev setup_operations : (J : Json) → String → J.Object → String → List Operation
setup_operations J unique_id cfg topic =
    publishing (topic_of component unique_id "config") (json J cfg) at_least_once true
    ∷ subscribing (record { topic = topic; qos = at_least_once } ∷ [])
    ∷ publishing (topic_of component unique_id "availability") "online" at_least_once true
    ∷ []

module _ (J : Json) (laws : IsJson J) (unique_id topic : String) (cfg : J.Object)
    (opens closes stops : Option Handler) where
  abbrev announcer : Config J
  announcer = create J (record {
    unique_id = unique_id;
    cfg = cfg;
    qos = at_least_once;
    on_open = opens;
    on_close = closes;
    on_stop = stops;
  })

  subscribe-eq :
      at J opt_command_topic cfg ≡ returned topic
      → (s : Spawned)
      → async_subscribe_impl J announcer s
        ≡ wait s
            (subscribing (record { topic = topic; qos = at_least_once } ∷ []))
            (λ err t. co_return err t)
  unfolding async_subscribe_impl create bind
  subscribe-eq commanded s = rw commanded refl

  setup-Issues :
      at J opt_command_topic cfg ≡ returned topic
      → J.find cfg "availability"
        ≡ some (
            J.object
              (J.assign J.empty "topic" (J.string (topic_of component unique_id "availability"))))
      → (last : Error) (s : Spawned)
      → Issues last s (setup_operations J unique_id cfg topic) (async_setup J (base J announcer) s)
  unfolding base async_discovery_impl create
  setup-Issues commanded there =
      setup_requests-Issues J (base J announcer) (topic_of component unique_id "config")
        (json J cfg) (record { topic = topic; qos = at_least_once } ∷ [])
        (topic_of component unique_id "availability") "online" at_least_once (λ s. refl)
        (subscribe-eq commanded)
        (λ s.
          available-eq J laws (base J announcer) (topic_of component unique_id "availability") s
            there)

module _ (J : Json) (laws : IsJson J) (unique_id : String) (ss : List Setting)
    (reports : latest "availability" ss ≡ none) (opens closes stops : Handler) where
  open laws use {find-empty, find-assign}

  abbrev pub cover : Config J
  cover = create J (configured_factory J laws unique_id ss opens closes stops)

  abbrev pub announced_operations : List Operation
  announced_operations =
      setup_operations J unique_id (configured_cfg J laws unique_id ss)
        (commands unique_id ss).topic

  pub announced-Issues :
      (last : Error) (s : Spawned)
      → Issues last s announced_operations (async_setup J (base J cover) s)
  announced-Issues =
      setup-Issues J laws unique_id (commands unique_id ss).topic
        (configured_cfg J laws unique_id ss) (some opens) (some closes) (some stops)
        (at-command J laws unique_id ss)
        (find-configured J laws unique_id ss "availability" refl refl refl refl
          ∙ rw reports (simp (find-assign, find-empty)))

-- The topic of states: what was set last, or the default.
abbrev pub state_topic : String → List Setting → String
state_topic unique_id ss = get_or (topic_of component unique_id "state") (latest "state_topic" ss)

module _ (J : Json) (laws : IsJson J) (unique_id : String) (ss : List Setting) where
  open J use {find, string}
  open laws use {find-empty, find-assign}

  customised-Issues :
      latest "availability" ss ≡ none
      → (last : Error) (s : Spawned)
      → Issues last s
          (setup_operations J unique_id (set_cfg J laws unique_id ss) (commands unique_id ss).topic)
          (async_setup J (base J (create J (customised_factory J laws unique_id ss))) s)
  customised-Issues reports =
      setup-Issues J laws unique_id (commands unique_id ss).topic (set_cfg J laws unique_id ss) none
        none none
        (at-set J laws "command_topic" (topic_of component unique_id "set") ss
          (factory_cfg J laws unique_id) refl (simp (find-assign, find-empty)))
        (find-unset J laws "availability" ss (factory_cfg J laws unique_id) refl reports
          ∙ simp (find-assign, find-empty))

  state-eq :
      (state : String) (s : Spawned)
      → async_update_state J (create J (customised_factory J laws unique_id ss)) state s
        ≡ async_publish (state_topic unique_id ss) state at_least_once true s
  unfolding async_update_state contains create bind make_error_code
  state-eq state s =
      let there : find (set_cfg J laws unique_id ss) "state_topic"
          ≡ some (string (state_topic unique_id ss)) =
        find-set J laws "state_topic" (topic_of component unique_id "state") ss
          (factory_cfg J laws unique_id) refl (simp (find-assign, find-empty)) in
      rw there (
        rw
          (at-text J laws "state_topic" (state_topic unique_id ss) (set_cfg J laws unique_id ss)
            there)
          refl)

-- With JSON as documented, the factory of a cover returns, with any text and device settings that are not nested and do
-- not replace the availability. The setup of the cover that it makes publishes its configuration to
-- `homeassistant/cover/<id>/config`, subscribes to the command topic that was set last, or to
-- `homeassistant/cover/<id>/set`, and publishes `online` to `homeassistant/cover/<id>/availability`, in
-- this order up to the first failure, whose error is returned; and a state is published to the state
-- topic that was set last, or to `homeassistant/cover/<id>/state`. All are sent at least once, and the
-- publishes are retained.
pub cover_factory_publishes :
    (J : Json) (unique_id : String) (ss : List Setting) (state : String) (s : Spawned)
    → IsJson J
    → AreFlat ss
    → latest "availability" ss ≡ none
    → (f : Factory J) × (customised J unique_id ss ≡ returned f)
      × Issues
          (make_error_code success)
          s
          (publishing (topic_of "cover" unique_id "config") (json J f.cfg) at_least_once true
            ∷ subscribing
                (record { topic = (commands unique_id ss).topic; qos = at_least_once } ∷ [])
            ∷ publishing (topic_of "cover" unique_id "availability") "online" at_least_once true
            ∷ [])
          (async_setup J (base J (create J f)) s)
      × (async_update_state J (create J f) state s
          ≡ async_publish (state_topic unique_id ss) state at_least_once true s)
cover_factory_publishes J unique_id ss state s laws flat reports = (
  customised_factory J laws unique_id ss,
  customised-eq J laws unique_id ss flat,
  customised-Issues J laws unique_id ss reports (make_error_code success) s,
  state-eq J laws unique_id ss state s,
)
