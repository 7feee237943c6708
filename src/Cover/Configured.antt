-- ===== src/Cover/Configured.antt =====
-- lib/include/hacpp/cover.h: a cover that the user configured with settings and a handler for each
-- command.
use hacpp.Base.{
  ◌≡◌, refl, ap, ◌∙◌, String, false, Option, none, some, is_some, List, Outcome, is_empty, true,
  returned, threw, wrong_kind, ◌>>=◌, str_eq, Bool-cases, inl, inr,
}
use hacpp.Config.{
  Property, at, property, Device, set as set_property, set_device as set_property_device,
}
use hacpp.Config.Settings.{
  Setting, AreFlat, set_all, set_all-flat, latest, get_or, assigned, defaulted, text_or,
  find-assigned, find-default, find-defaulted_other, at-text, at-null, contains-flat, set-flat,
  text_or-text,
}
use hacpp.Entity.{topic_of, Handler}
use hacpp.Json.{Json, IsJson}
use hacpp.Mqtt.{at_least_once}
use hacpp.Cover.{
  Factory, set_device, factory, set, component, opt_command_topic, opt_payload_open,
  opt_payload_close, opt_payload_stop, on_open, on_close, on_stop, set_default,
}
use hacpp.Cover.Laws.{made, factory_cfg, factory-eq}

module _ (J : Json) where
  abbrev pub customised : String → List Setting → Outcome (Factory J)
  customised unique_id ss = factory J unique_id >>= λ f. set_all (set J) (set_device J) ss f

  -- With a handler for each command.
  abbrev pub configured : String → List Setting → Handler → Handler → Handler → Outcome (Factory J)
  configured unique_id ss opens closes stops = do
    f ← customised unique_id ss
    f ← on_open J opens f
    f ← on_close J closes f
    on_stop J stops f

-- The commands of such a cover: what the user set last, or the default. There is no default to stop.
pub record Commands : Type 0 where
  pub topic : String
  pub open_payload : String
  pub close_payload : String
  pub stop_payload : Option String

abbrev pub commands : String → List Setting → Commands
commands unique_id ss = record {
  topic = get_or (topic_of component unique_id "set") (latest "command_topic" ss);
  open_payload = get_or "OPEN" (latest "payload_open" ss);
  close_payload = get_or "CLOSE" (latest "payload_close" ss);
  stop_payload = latest "payload_stop" ss;
}

abbrev pub stop_text : Option String → Outcome String
stop_text none = threw wrong_kind
stop_text (some v) = returned v

module _ (J : Json) (laws : IsJson J) (unique_id : String) (ss : List Setting) where
  open J use {assign, null, string, find}
  open laws use {find-empty, find-assign}

  abbrev pub set_cfg : J.Object
  set_cfg = assigned J ss (factory_cfg J laws unique_id)

  abbrev open_cfg : J.Object
  open_cfg = defaulted J "payload_open" "OPEN" set_cfg

  abbrev close_cfg : J.Object
  close_cfg = defaulted J "payload_close" "CLOSE" open_cfg

  abbrev pub configured_cfg : J.Object
  configured_cfg = defaulted J "payload_stop" "STOP" close_cfg

  abbrev pub configured_factory : Handler → Handler → Handler → Factory J
  configured_factory opens closes stops = record {
    unique_id = unique_id;
    cfg = configured_cfg;
    qos = at_least_once;
    on_open = some opens;
    on_close = some closes;
    on_stop = some stops;
  }

  -- Without handlers.
  abbrev pub customised_factory : Factory J
  customised_factory = record (made J laws unique_id) { cfg = set_cfg }

  -- A key without default: it is as the settings left it.
  pub find-configured :
      (k : String)
      → str_eq "device" k ≡ false
      → str_eq "payload_open" k ≡ false
      → str_eq "payload_close" k ≡ false
      → str_eq "payload_stop" k ≡ false
      → find configured_cfg k ≡ text_or J (latest k ss) (find (factory_cfg J laws unique_id) k)
  find-configured k no_device no_open no_close no_stop =
      find-defaulted_other J laws "payload_stop" "STOP" k close_cfg no_stop
      ∙ find-defaulted_other J laws "payload_close" "CLOSE" k open_cfg no_close
      ∙ find-defaulted_other J laws "payload_open" "OPEN" k set_cfg no_open
      ∙ find-assigned J laws k ss (factory_cfg J laws unique_id) no_device

  pub at-command : at J opt_command_topic configured_cfg ≡ returned (commands unique_id ss).topic
  at-command = at-text J laws "command_topic" _ configured_cfg (
      find-configured "command_topic" refl refl refl refl
      ∙ text_or-text J laws (topic_of component unique_id "set") (latest "command_topic" ss)
          (find (factory_cfg J laws unique_id) "command_topic") (simp (find-assign, find-empty)))

  pub at-open : at J opt_payload_open configured_cfg ≡ returned (commands unique_id ss).open_payload
  at-open = at-text J laws "payload_open" _ configured_cfg (
      find-defaulted_other J laws "payload_stop" "STOP" "payload_open" close_cfg refl
      ∙ find-defaulted_other J laws "payload_close" "CLOSE" "payload_open" open_cfg refl
      ∙ find-default J laws "payload_open" "OPEN" (latest "payload_open" ss) set_cfg (
          find-assigned J laws "payload_open" ss (factory_cfg J laws unique_id) refl
          ∙ ap (text_or J (latest "payload_open" ss)) (simp (find-assign, find-empty))))

  pub at-close :
      at J opt_payload_close configured_cfg ≡ returned (commands unique_id ss).close_payload
  at-close = at-text J laws "payload_close" _ configured_cfg (
      find-defaulted_other J laws "payload_stop" "STOP" "payload_close" close_cfg refl
      ∙ find-default J laws "payload_close" "CLOSE" (latest "payload_close" ss) open_cfg (
          find-defaulted_other J laws "payload_open" "OPEN" "payload_close" set_cfg refl
          ∙ find-assigned J laws "payload_close" ss (factory_cfg J laws unique_id) refl
          ∙ ap (text_or J (latest "payload_close" ss)) (simp (find-assign, find-empty))))

  -- The factory's null is there unless the user set a text.
  find-stop : find configured_cfg "payload_stop" ≡ text_or J (latest "payload_stop" ss) (some null)
  find-stop =
      let there : find close_cfg "payload_stop" ≡ text_or J (latest "payload_stop" ss) (some null) =
        find-defaulted_other J laws "payload_close" "CLOSE" "payload_stop" open_cfg refl
        ∙ find-defaulted_other J laws "payload_open" "OPEN" "payload_stop" set_cfg refl
        ∙ find-assigned J laws "payload_stop" ss (factory_cfg J laws unique_id) refl
        ∙ ap (text_or J (latest "payload_stop" ss)) (simp (find-assign, find-empty)) in
      kept (latest "payload_stop" ss) there
    where
      kept :
          (l : Option String)
          → find close_cfg "payload_stop" ≡ text_or J l (some null)
          → find configured_cfg "payload_stop" ≡ text_or J l (some null)
      kept none there = rw there there
      kept (some v) there = rw there there

  pub at-stop : at J opt_payload_stop configured_cfg ≡ stop_text (latest "payload_stop" ss)
  at-stop = read (latest "payload_stop" ss) find-stop
    where
      read :
          (l : Option String)
          → find configured_cfg "payload_stop" ≡ text_or J l (some null)
          → at J opt_payload_stop configured_cfg ≡ stop_text l
      read none there = at-null J laws "payload_stop" configured_cfg there
      read (some v) there = at-text J laws "payload_stop" v configured_cfg there

  set_device-eq :
      (d : Device) (f : Factory J)
      → set_device J d f ≡ returned (record f { cfg = set_property_device J d f.cfg })
  unfolding set_device
  set_device-eq d f = refl

  set-eq :
      (p : Property) (v : String) (f : Factory J)
      → is_empty p.obj_key ≡ true
      → set J p v f ≡ returned (record f { cfg = assign f.cfg p.key (string v) })
  unfolding set set_property
  set-eq p v f flat = rw flat refl

  pub customised-eq : AreFlat ss → customised J unique_id ss ≡ returned customised_factory
  customised-eq flat = rw (factory-eq J laws unique_id) (
      set_all-flat J (set J) (set_device J) (λ o. record (made J laws unique_id) { cfg = o })
        (λ p v o. set-eq p v (record (made J laws unique_id) { cfg = o }))
        (λ d o. set_device-eq d (record (made J laws unique_id) { cfg = o })) ss
        (factory_cfg J laws unique_id) flat)

  set_default-eq :
      (k v : String) (o : J.Object) → set_default J (property k) v o ≡ returned (defaulted J k v o)
  unfolding set_default
  set_default-eq k v o = rw (contains-flat J k o) (elim (Bool-cases (is_some (find o k))) [
    | inl there ↦ rw there refl
    | inr absent ↦ rw (absent, set-flat J k v o) refl
  ])

  pub configured-eq :
      (opens closes stops : Handler)
      → AreFlat ss
      → configured J unique_id ss opens closes stops
        ≡ returned (configured_factory opens closes stops)
  unfolding on_open on_close on_stop
  configured-eq opens closes stops flat = rw (customised-eq flat) (
      rw
        (
          set_default-eq "payload_open" "OPEN" set_cfg,
          set_default-eq "payload_close" "CLOSE" open_cfg,
          set_default-eq "payload_stop" "STOP" close_cfg,
        )
        refl)
