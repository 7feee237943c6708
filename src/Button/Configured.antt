-- ===== src/Button/Configured.antt =====
-- lib/include/hacpp/button.h: a button that the user configured with settings and a handler.
use hacpp.Base.{
  ◌≡◌, refl, String, true, Option, none, some, List, ◌∷◌, Outcome, is_empty, returned, ◌>>=◌,
  str_eq, if◌then◌else◌, Bool-cases, inl, inr,
}
use hacpp.Config.{Property, at, Device, set as set_property, set_device as set_property_device}
use hacpp.Config.Settings.{
  Setting, AreFlat, set_all, set_all-flat, latest, get_or, assigned, at-set,
}
use hacpp.Entity.{topic_of, Spawned, Handler, done, bind}
use hacpp.Json.{Json, IsJson}
use hacpp.Mqtt.{at_least_once, Packet, publish, other}
use hacpp.Button.{
  Factory, set_device, factory, create, set, component, opt_command_topic, opt_payload_press,
  on_press, on_packet,
}
use hacpp.Button.Laws.{made, factory_cfg, factory-eq}

module _ (J : Json) where
  abbrev pub customised : String → List Setting → Outcome (Factory J)
  customised unique_id ss = factory J unique_id >>= λ f. set_all (set J) (set_device J) ss f

  abbrev pub configured : String → List Setting → Handler → Outcome (Factory J)
  configured unique_id ss handler = do f ← customised unique_id ss; returned (on_press J handler f)

-- The command of such a button: what the user set last, or the default.
abbrev pub command_topic : String → List Setting → String
command_topic unique_id ss = get_or (topic_of component unique_id "set") (latest "command_topic" ss)

abbrev pub press_payload : List Setting → String
press_payload ss = get_or "PRESS" (latest "payload_press" ss)

-- What a packet does to the handlers started.
abbrev pub answered : String → List Setting → Handler → Packet → Spawned → Spawned
answered unique_id ss handler (other kind) s = s
answered unique_id ss handler (publish p) s =
    if str_eq p.topic (command_topic unique_id ss)
    then (if str_eq p.payload (press_payload ss) then handler ∷ s else s)
    else s

module _ (J : Json) (laws : IsJson J) (unique_id : String) (ss : List Setting) where
  open J use {assign, string}
  open laws use {find-empty, find-assign}

  abbrev pub configured_cfg : J.Object
  configured_cfg = assigned J ss (factory_cfg J laws unique_id)

  abbrev pub factory_with : Option Handler → Factory J
  factory_with handler = record {
    unique_id = unique_id;
    cfg = configured_cfg;
    qos = at_least_once;
    handler = handler;
  }

  abbrev pub configured_factory : Handler → Factory J
  configured_factory handler = factory_with (some handler)

  pub at-command : at J opt_command_topic configured_cfg ≡ returned (command_topic unique_id ss)
  at-command =
      at-set J laws "command_topic" (topic_of component unique_id "set") ss
        (factory_cfg J laws unique_id) refl (simp (find-assign, find-empty))

  at-press : at J opt_payload_press configured_cfg ≡ returned (press_payload ss)
  at-press =
      at-set J laws "payload_press" "PRESS" ss (factory_cfg J laws unique_id) refl
        (simp (find-assign, find-empty))

  set_device-eq :
      (d : Device) (f : Factory J)
      → set_device J d f ≡ returned (record f { cfg = set_property_device J d f.cfg })
  unfolding set_device
  set_device-eq d f = refl

  set-eq :
      (p : Property) (v : String) (f : Factory J)
      → is_empty p.obj_key ≡ true
      → set J p v f ≡ returned (record f { cfg = assign f.cfg p.key (string v) })
  unfolding set set_property
  set-eq p v f flat = rw flat refl

  pub customised-eq : AreFlat ss → customised J unique_id ss ≡ returned (factory_with none)
  customised-eq flat = rw (factory-eq J laws unique_id) (
      set_all-flat J (set J) (set_device J) (λ o. record (made J laws unique_id) { cfg = o })
        (λ p v o. set-eq p v (record (made J laws unique_id) { cfg = o }))
        (λ d o. set_device-eq d (record (made J laws unique_id) { cfg = o })) ss _ flat)

  pub configured-eq :
      (handler : Handler)
      → AreFlat ss
      → configured J unique_id ss handler ≡ returned (configured_factory handler)
  unfolding on_press
  configured-eq handler flat = rw (customised-eq flat) refl

  pub packet-answered :
      (handler : Handler) (p : Packet) (s : Spawned)
      → on_packet J (create J (configured_factory handler)) p s
        ≡ done (returned tt) (answered unique_id ss handler p s)
  unfolding on_packet create bind
  packet-answered handler (other kind) s = refl
  packet-answered handler (publish p) s =
      rw (at-command, at-press)
        (elim (Bool-cases (str_eq p.topic (command_topic unique_id ss))) [
          | inl hit ↦ elim (Bool-cases (str_eq p.payload (press_payload ss))) [
            | inl press ↦ rw (hit, press) refl
            | inr differ ↦ rw (hit, differ) refl
          ]
          | inr miss ↦ rw miss refl
        ])

-- With JSON as documented, the factory of a button with any text and device settings that are not nested and a handler
-- makes a button that starts the handler once for a publish of the press payload on the command topic,
-- and nothing for any other packet.
pub button_presses :
    (J : Json) (unique_id : String) (ss : List Setting) (handler : Handler) (p : Packet)
    (s : Spawned)
    → IsJson J
    → AreFlat ss
    → (f : Factory J) × (configured J unique_id ss handler ≡ returned f)
      × (on_packet J (create J f) p s ≡ done (returned tt) (answered unique_id ss handler p s))
button_presses J unique_id ss handler p s laws flat = (
  configured_factory J laws unique_id ss handler,
  configured-eq J laws unique_id ss handler flat,
  packet-answered J laws unique_id ss handler p s,
)
