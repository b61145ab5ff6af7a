-- ===== src/EventQueue/Start.antt =====
-- StartEventQueue and Subscribe of internal/eventqueue/eventqueue.go: what they ask of the file system
-- and of NATS, and in which order. A duration is in nanoseconds.
use kigeon.Prelude.{
  ℕ, zero, suc, ◌+◌, ◌-◌, ◌*◌, ◌%◌, ◌^◌, String, Bool, true, Option, none, some, List, [], ◌∷◌, ltb,
  if◌then◌else◌, ℤ, pos, negsuc, itoa,
}
use kigeon.Errors.{errorf, Result, ok, err, wrap_err, ◌>>=◌}
use kigeon.EventQueue.Publish.{subject_name}

abbrev pub stream_name : String
stream_name = "K8S_EVENTS_STREAM"

abbrev pub processed_uids_bucket : String
processed_uids_bucket = "PROCESSED_UIDS_KV"

abbrev pub second : ℕ
second = 1000000000

abbrev pub max_acknowledge_time : ℕ
max_acknowledge_time = 30 * second

abbrev pub kv_max_bytes : ℕ
kv_max_bytes = 32 * 1024 * 1024

abbrev pub default_back_off : List ℕ
default_back_off = second ∷ 2 * second ∷ 10 * second ∷ 30 * second ∷ 60 * second ∷ []

-- the int64 that the 64 bits of a number stand for
unfoldable pub int64_of : ℕ → ℤ
int64_of n =
    let bits = n % 2 ^ 64 in if ltb bits (2 ^ 63) then pos bits else negsuc (2 ^ 64 - bits - 1)

-- `Options`, less the logger: the bytes are those of `EventsMaxBytes.Value()`
pub record Options : Type 0 where
  pub debug : Bool
  pub events_max_age : ℤ
  pub events_max_bytes : ℤ
  pub kubernetes_events_max_lifetime : Option ℤ

-- the options that are given to the server
pub record ServerOptions : Type 0 where
  pub host : String
  pub port : ℤ
  pub jet_stream : Bool
  pub jet_stream_max_store : ℤ
  pub store_dir : String
  pub debug : Bool
  pub no_sigs : Bool

pub data Retention : Type 0 where
  limits interest : Retention

pub data Storage : Type 0 where
  file_storage memory_storage : Storage

pub record StreamConfig : Type 0 where
  pub name : String
  pub subjects : List String
  pub description : String
  pub storage : Storage
  pub retention : Retention
  pub max_age : ℤ
  pub max_bytes : ℤ
  pub duplicates : ℕ

pub record KeyValueConfig : Type 0 where
  pub bucket : String
  pub storage : Storage
  pub max_bytes : ℕ
  pub ttl : ℤ

pub record ConsumerConfig : Type 0 where
  pub durable : String
  pub explicit_ack : Bool
  pub deliver_all : Bool
  pub ack_wait : ℕ
  pub back_off : List ℕ
  pub max_deliver : ℕ
  pub max_ack_pending : ℕ

-- What the queue uses of os and of NATS.
pub record Nats (Server Connection JetStream Stream KeyValue Consumer : Type 0) : Type 0 where
  pub mkdir_all : String → Result (Unit {0})
  pub new_server : ServerOptions → Result Server
  pub connect : Server → Result Connection
  pub new_jet_stream : Connection → Result JetStream
  pub create_stream : JetStream → StreamConfig → Result Stream
  pub create_key_value : JetStream → KeyValueConfig → Result KeyValue
  pub create_consumer : Stream → ConsumerConfig → Result Consumer

-- `EventQueue`
pub record EventQueue (Server Connection JetStream Stream KeyValue : Type 0) : Type 0 where
  pub server : Server
  pub connection : Connection
  pub jet_stream_client : JetStream
  pub jet_stream_stream : Stream
  pub key_value : KeyValue

unfoldable pub server_options : String → Options → ℕ → ServerOptions
unfolding int64_of
server_options data_dir options events_max_bytes = record {
  host = "127.0.0.1";
  port = negsuc 0;
  jet_stream = true;
  jet_stream_max_store = int64_of (events_max_bytes + kv_max_bytes);
  store_dir = data_dir;
  debug = options.debug;
  no_sigs = true;
}

unfoldable pub stream_config : Options → ℕ → StreamConfig
stream_config options events_max_bytes = record {
  name = stream_name;
  subjects = subject_name ∷ [];
  description = "kubernetes events stream";
  storage = file_storage;
  retention = interest;
  max_age = options.events_max_age;
  max_bytes = pos events_max_bytes;
  duplicates = 120 * second;
}

-- the lifetime of the Kubernetes events, 1 hour if it is not given
abbrev pub lifetime : Option ℤ → ℤ
lifetime none = pos (3600 * second)
lifetime (some d) = d

unfoldable pub key_value_config : Options → KeyValueConfig
key_value_config options = record {
  bucket = processed_uids_bucket;
  storage = file_storage;
  max_bytes = kv_max_bytes;
  ttl = lifetime options.kubernetes_events_max_lifetime;
}

unfoldable pub consumer_config : String → ConsumerConfig
consumer_config service = record {
  durable = service;
  explicit_ack = true;
  deliver_all = true;
  ack_wait = max_acknowledge_time;
  back_off = default_back_off;
  max_deliver = 11;
  max_ack_pending = 2;
}

module _ {Server Connection JetStream Stream KeyValue Consumer : Type 0}
    (nats : Nats Server Connection JetStream Stream KeyValue Consumer) where
  -- `StartEventQueue` after its check of the size
  unfoldable pub launch :
      String → Options → ℕ → Result (EventQueue Server Connection JetStream Stream KeyValue)
  unfolding server_options stream_config key_value_config
  launch data_dir options events_max_bytes = do
    made ← wrap_err "failed to create event queue data directory: %w" [] (nats.mkdir_all data_dir)
    server ←
        wrap_err "error creating internal NATS server: %w" []
          (nats.new_server (server_options data_dir options events_max_bytes))
    connection ← wrap_err "failed to connect NATS client: %w" [] (nats.connect server)
    js ← wrap_err "failed to create NATS JetStream client: %w" [] (nats.new_jet_stream connection)
    stream ←
        wrap_err "failed to add stream: %w" []
          (nats.create_stream js (stream_config options events_max_bytes))
    kv ←
        wrap_err "failed to create KV deduplication store: %w" []
          (nats.create_key_value js (key_value_config options))
    ok (record {
      server = server;
      connection = connection;
      jet_stream_client = js;
      jet_stream_stream = stream;
      key_value = kv;
    })

  -- `StartEventQueue` from the number of bytes on
  unfoldable pub start_sized :
      String → Options → ℤ → Result (EventQueue Server Connection JetStream Stream KeyValue)
  unfolding launch
  start_sized data_dir options (pos (suc n)) = launch data_dir options (suc n)
  start_sized data_dir options (pos zero) =
      err (errorf "events max bytes must be positive, got %s" ("0" ∷ []))
  start_sized data_dir options (negsuc n) =
      err (errorf "events max bytes must be positive, got %s" (itoa (negsuc n) ∷ []))

  -- `StartEventQueue`
  unfoldable pub start_event_queue :
      String → Options → Result (EventQueue Server Connection JetStream Stream KeyValue)
  unfolding start_sized
  start_event_queue data_dir options = start_sized data_dir options options.events_max_bytes

  -- `Subscribe`
  unfoldable pub subscribe :
      EventQueue Server Connection JetStream Stream KeyValue → String → Result Consumer
  unfolding consumer_config
  subscribe eq service =
      wrap_err "failed to add service: %w" []
        (nats.create_consumer eq.jet_stream_stream (consumer_config service))
