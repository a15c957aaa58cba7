-- ===== src/Providers/Adapters.antt =====
-- packages/providers/src/audit.ts, email.ts, push.ts, payments.ts and storage.ts, and the health
-- checks of the adapters. The ids that `createId` makes, the time and `encodeURIComponent` are
-- arguments. The bytes of a stored object are a list: `slice` copies them.
pub mod Laws
use ascended_core.Base.{
  ℕ, String, str_append, Bool, true, Option, none, some, List, [], ◌∷◌, ◌++◌, length,
}
use ascended_core.Base.Dict
use ascended_core.Base.Dict.{Dict}
use ascended_core.Core.Value.{Metadata, number, end, field}
use ascended_core.Core.Lifecycle.{HealthState, healthy, HealthReport}

-- a healthy report with these details
abbrev pub healthy_report : String → Option Metadata → HealthReport
healthy_report now details = record {
  state = healthy;
  reason = none;
  checked_at = now;
  details = details;
}

pub record AuditEvent : Type 0 where
  pub action : String
  pub actor_id : Option String
  pub target : Option String
  pub context : Option Metadata

pub record AuditRecord : Type 0 where
  pub event : AuditEvent
  pub id : String
  pub recorded_at : String

-- `InMemoryAuditLog.record`
unfoldable pub record_event :
    AuditEvent → String → String → List AuditRecord → AuditRecord × List AuditRecord
record_event event id now records =
    let r : AuditRecord = record { event = event; id = id; recorded_at = now } in
    (r, records ++ r ∷ [])

unfoldable pub audit_health : String → List AuditRecord → HealthReport
audit_health now records = healthy_report now (some (field "records" (number (length records)) end))

pub record EmailMessage : Type 0 where
  pub to : String
  pub subject : String
  pub text : String
  pub html : Option String

pub record DeliveryReceipt : Type 0 where
  pub message_id : String
  pub to : String
  pub accepted_at : String

-- `RecordingEmailAdapter`
unfoldable pub send_email :
    EmailMessage → String → String → List EmailMessage → DeliveryReceipt × List EmailMessage
send_email message id now sent =
    (record { message_id = id; to = message.to; accepted_at = now }, sent ++ message ∷ [])

unfoldable pub clear_emails : List EmailMessage → List EmailMessage
clear_emails sent = []

unfoldable pub email_health : String → List EmailMessage → HealthReport
email_health now sent = healthy_report now (some (field "recorded" (number (length sent)) end))

pub data PushTarget : Type 0 where
  device_token : String → PushTarget
  subscription : String → Option (Dict String) → PushTarget

pub record PushPayload : Type 0 where
  pub title : String
  pub body : String
  pub extra : Option Metadata

pub record PushReceipt : Type 0 where
  pub notification_id : String
  pub accepted_at : String

pub record RecordedPush : Type 0 where
  pub target : PushTarget
  pub payload : PushPayload

-- `RecordingPushAdapter`
unfoldable pub send_push :
    PushTarget → PushPayload → String → String → List RecordedPush → PushReceipt × List RecordedPush
send_push target payload id now sent = (
  record { notification_id = id; accepted_at = now },
  sent ++ record { target = target; payload = payload } ∷ [],
)

unfoldable pub clear_pushes : List RecordedPush → List RecordedPush
clear_pushes sent = []

unfoldable pub push_health : String → List RecordedPush → HealthReport
push_health now sent = healthy_report now (some (field "recorded" (number (length sent)) end))

pub record Entitlement : Type 0 where
  pub key : String
  pub active : Bool
  pub expires_at : Option String
  pub metadata : Option Metadata

pub record CreateCheckoutSessionInput : Type 0 where
  pub account_id : String
  pub plan_id : String
  pub success_url : String
  pub cancel_url : String

pub record CheckoutSession : Type 0 where
  pub session_id : String
  pub url : String

-- `StubBillingAdapter`
get_entitlements : String → List Entitlement
get_entitlements account_id =
    record { key = "supporter"; active = true; expires_at = none; metadata = none } ∷ []

create_checkout_session : (String → String) → CreateCheckoutSessionInput → String → CheckoutSession
create_checkout_session encode input session_id = record {
  session_id = session_id;
  url =
      str_append "memory://checkout/"
        (str_append (encode input.plan_id) (str_append "/" session_id));
}

pub record StoredObject : Type 0 where
  pub bytes : List ℕ
  pub content_type : String

abbrev pub Objects : Type 0
Objects = Dict StoredObject

-- `InMemoryObjectStorage`
unfoldable pub put_object : String → List ℕ → String → Objects → Objects
put_object key bytes content_type objects =
    Dict.set key (record { bytes = bytes; content_type = content_type }) objects

-- `options.baseUrl ?? "memory://objects"`
abbrev base_url_of : Option String → String
base_url_of none = "memory://objects"
base_url_of (some url) = url

object_url : (String → String) → Option String → String → String
object_url encode base_url key = str_append (base_url_of base_url) (str_append "/" (encode key))

unfoldable pub delete_object : String → Objects → Objects
delete_object key objects = Dict.delete key objects

unfoldable pub object_exists : String → Objects → Bool
object_exists key objects = Dict.has key objects

unfoldable pub read_object : String → Objects → Option StoredObject
read_object key objects = Dict.get key objects

unfoldable pub storage_health : String → Objects → HealthReport
storage_health now objects =
    healthy_report now (some (field "objects" (number (length objects)) end))
