-- ===== src/Tests.antt =====
-- lib/include/hacpp/entity.h and the entities at concrete inputs, with a small implementation of
-- JSON: an object is the list of its assignments, the latest first.
mod Factories
mod Running
use hacpp.Base.{
  ℕ, zero, suc, ◌-◌, String, ◌<>◌, ◌≡◌, refl, true, false, Option, none, some, List, [], ◌∷◌,
  returned, threw, wrong_kind, str_eq, All, inr, if◌then◌else◌, inl, arith,
}
use hacpp.Api.{Operation, publishing, subscribing, receiving, closing, Result}
use hacpp.Config.{
  Device, json_device, set, set_null, availability_topic, availability_payload_available, json,
  contains,
}
use hacpp.Config.Frame.{Leaves, set-Leaves}
use hacpp.Config.Devices.{entries, json_device-entries}
use hacpp.Coroutine.Run.{Env, run}
use hacpp.Entity.{
  topic_of, Spawned, Impl, bind, async_publish, async_setup, async_recv, done,
  async_update_availability,
}
use hacpp.Entity.Setup.{Issues}
use hacpp.Entity.Receiving.{async_recv-settles}
use hacpp.Error.{no_error, make_error_code, success, session_reset, disconnected, is_code}
use hacpp.Error.Tests.{linux}
use hacpp.Json.{Json, IsJson}
use hacpp.Mqtt.{
  Packet, PublishPacket, RecvResult, packet, publish, unexpected, at_most_once, at_least_once,
}
use hacpp.Sensor
use hacpp.BinarySensor
use hacpp.Button
use hacpp.Cover

mutual
  pub data Tree : Type 0 where
    null_tree : Tree
    text : String → Tree
    trees : Trees → Tree
    fields : Fields → Tree

  pub data Trees : Type 0 where
    no_trees : Trees
    item : Tree → Trees → Trees

  pub data Fields : Type 0 where
    no_fields : Fields
    field : String → Tree → Fields → Fields

abbrev find_field : Fields → String → Option Tree
find_field no_fields j = none
find_field (field k v o) j = if str_eq k j then some v else find_field o j

abbrev to_trees : List Tree → Trees
to_trees [] = no_trees
to_trees (v ∷ vs) = item v (to_trees vs)

abbrev tree_text : Tree → Option String
tree_text (text s) = some s
tree_text _ = none

abbrev tree_fields : Tree → Option Fields
tree_fields (fields o) = some o
tree_fields _ = none

abbrev keys : Fields → String
keys no_fields = ""
keys (field k v o) = k <> ";" <> keys o

abbrev pub sample : Json
sample = record {
  Object = Fields;
  Value = Tree;
  empty = no_fields;
  find = find_field;
  assign = λ o k v. field k v o;
  null = null_tree;
  string = text;
  array = λ vs. trees (to_trees vs);
  object = fields;
  as_string = tree_text;
  as_object = tree_fields;
  serialize = keys;
}

pub sample-IsJson : IsJson sample
sample-IsJson = record {
  find-empty = λ k. refl;
  find-assign = λ o k v j. refl;
  as_string-string = λ s. refl;
  as_string-null = refl;
  as_object-object = λ o. refl;
  as_object-null = refl;
}

set-Leaves_example :
    Leaves sample availability_payload_available no_fields
      (set sample availability_topic "t" no_fields)
set-Leaves_example =
    set-Leaves sample availability_topic availability_payload_available "t" no_fields sample-IsJson
      (inr (refl, refl, refl))

abbrev pub lamp : Device
lamp = record {
  configuration_url = "";
  connections = [];
  hw_version = "2";
  identifiers = "lamp-1" ∷ [];
  manufacturer = "";
  model = "";
  model_id = "";
  name = "Lamp";
  serial_number = "";
  suggested_area = "";
  sw_version = "";
  via_device = "";
}

json_device-entries_example :
    All (λ e. find_field (json_device sample lamp) e.0 ≡ e.1) (entries sample lamp)
json_device-entries_example = json_device-entries sample lamp sample-IsJson

-- A nested property that was set to null can no longer be set.
set-set_null :
    set sample availability_topic "t" (set_null sample availability_topic no_fields)
    ≡ threw wrong_kind
unfolding set set_null
set-set_null = refl

abbrev pub to : String → String → PublishPacket
to topic payload = record {
  packet_id = 0;
  topic = topic;
  payload = payload;
  qos = at_least_once;
  retain = false;
}

-- An entity without availability, whose two requests succeed.
abbrev plain : Impl sample
plain = record {
  async_discovery_impl = async_publish "config" "{}" at_most_once true;
  async_subscribe_impl = async_publish "unused" "" at_most_once false;
  cfg = no_fields;
  qos = at_most_once;
}

abbrev press : RecvResult
press = packet (publish (to "t" "PRESS"))

-- The session is reset while `n` is positive; then the packet comes.
abbrev next_result : ℕ → RecvResult
next_result zero = press
next_result (suc n) = unexpected (make_error_code session_reset)

abbrev reply : (op : Operation) → ℕ → Result op × ℕ
reply receiving n = (next_result n, n - 1)
reply closing n = (no_error linux, n)
reply (subscribing topics) n = (no_error linux, n)
reply (publishing topic payload qos retain) n = (no_error linux, n)

abbrev restarting : Env Result Spawned
restarting = record { Net = ℕ; answer = λ op n s. let (p, m) = reply op n in (p, m, s) }

async_recv-settles_example :
    let (o, n', t) = run restarting (async_recv sample 2 plain []) (suc zero) in o ≡ returned press
unfolding no_error run async_setup async_update_availability contains bind make_error_code is_code
async_recv-settles_example =
    async_recv-settles sample restarting plain (suc zero) 2 (suc zero) [] press
      (
        make_error_code session_reset,
        refl,
        refl,
        make_error_code success,
        zero,
        [],
        refl,
        refl,
        inl (publish (to "t" "PRESS"), refl, refl),
      )
      (omega arith)
