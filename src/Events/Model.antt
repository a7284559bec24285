-- ===== src/Events/Model.antt =====
-- core/src/weatherflow/events/models.py
use weatherflow.Prelude.{ℕ, String, Option}
use weatherflow.Json.{Object}

-- What `str(ULID())` and `datetime.now(UTC)` return where a record is made; times are microseconds.
pub record Stamp : Type 0 where
  pub id : String
  pub now : ℕ

pub data Actor : Type 0 where
  user agent system : Actor

pub data Sensitivity : Type 0 where
  normal private secret_ref : Sensitivity

pub data RetentionClass : Type 0 where
  audit signal_raw signal_aggregate : RetentionClass

pub record Event : Type 0 where
  pub id : String
  pub type : String
  pub recorded_at : ℕ
  pub actor : Actor
  pub stream_kind : String
  pub stream_id : String
  pub correlation_id : String
  pub causation_id : Option String
  pub payload : Object
  pub sensitivity : Sensitivity
  pub retention_class : RetentionClass

-- `Event.new`, with the defaults of its last two arguments.
unfoldable pub new_event :
    Stamp → String → Actor → String → String → String → Option String → Object → Event
new_event stamp type actor stream_kind stream_id correlation_id causation_id payload = record {
  id = stamp.id;
  type = type;
  recorded_at = stamp.now;
  actor = actor;
  stream_kind = stream_kind;
  stream_id = stream_id;
  correlation_id = correlation_id;
  causation_id = causation_id;
  payload = payload;
  sensitivity = normal;
  retention_class = audit;
}
