-- ===== src/Messaging/Shared.antt =====
-- messaging/subscription.go, messaging/config.go, messaging/message.go and messaging/errors.go.
use finokit.Base.{
  List, Option, none, some, Bool, Result, ok, err, ℤ, Text, is_empty, trim_space, if◌then◌else◌,
}

pub data Error : Type 0 where
  nil_config empty_url nil_client nil_queue nil_subscription nil_handler nil_message : Error
  empty_topic nil_stream empty_stream_name empty_stream_subjects : Error
  -- `fmt.Errorf` with the service and the method, or with what went wrong outside.
  unknown_endpoint : Text → Text → Error
  subscribe_service_failed : Text → Text → Text → Error → Error
  ensure_stream_failed : Text → Text → Error
  marshal_failed : Error
  publish_failed : Text → Error
  outside : Text → Error
  -- `errors.Join`
  joined : Error → Error → Error

pub record Endpoint : Type 0 where
  pub service : Text
  pub method : Text

pub record Subscription : Type 0 where
  pub name : Text
  pub topic : Text
  pub group : Text
  pub pull : Bool
  pub ack_wait : ℤ
  pub pull_max_waiting : ℤ
  pub pending_msg_limit : ℤ
  pub pending_bytes_limit : ℤ
  pub endpoint : Endpoint

pub record Stream : Type 0 where
  pub name : Text
  pub subjects : List Text

pub record Config : Type 0 where
  pub url : Text
  pub jet_stream : Bool
  pub streams : List (Option Stream)
  pub subscriptions : List (Option Subscription)

-- Subscription.Validate
unfoldable pub validate : Option Subscription → Result Error Subscription
unfolding trim_space
validate none = err nil_subscription
validate (some s) = if is_empty (trim_space s.topic) then err empty_topic else ok s

unfoldable pub normalize_config : Option Config → Result Error Config
normalize_config none = err nil_config
normalize_config (some c) =
    if is_empty (trim_space c.url) then err empty_url else ok (record c { url = trim_space c.url })

-- A Message; its attributes, a map of any values, are kept as their JSON text, and its Data is
-- `payload` here.
pub record Message : Type 0 where
  pub id : Text
  pub attributes : Text
  pub payload : Text
