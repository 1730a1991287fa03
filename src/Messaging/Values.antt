-- ===== src/Messaging/Values.antt =====
-- messaging/context.go: the values that a handler's context keeps of a message. A nil context, message or
-- map is none, and every key has a field of its own, as only this package makes those keys.
use finokit.Base.{[], Option, none, some, Text, ◌≡◌, refl}

pub record Values (M A : Type 0) : Type 0 where
  pub topic : Option Text
  pub message : Option M
  pub message_id : Option Text
  pub attributes : Option A

abbrev or_empty : Option Text → Text
or_empty none = []
or_empty (some t) = t

module _ {M A : Type 0} where
  abbrev pub background : Values M A
  background = record { topic = none; message = none; message_id = none; attributes = none }

  unfoldable pub ensure_context : Option (Values M A) → Values M A
  ensure_context none = background
  ensure_context (some ctx) = ctx

  unfoldable pub with_topic : Option (Values M A) → Text → Values M A
  unfolding ensure_context
  with_topic ctx topic = record (ensure_context ctx) { topic = some topic }

  -- The message's identifier and attributes are kept with it, but not those of a nil message.
  unfoldable pub with_message :
      (M → Text) → (M → Option A) → Option (Values M A) → Option M → Values M A
  unfolding ensure_context
  with_message id_of attributes_of ctx none = record (ensure_context ctx) { message = none }
  with_message id_of attributes_of ctx (some m) = record (ensure_context ctx) {
    message = some m;
    message_id = some (id_of m);
    attributes = attributes_of m;
  }

  unfoldable pub with_message_id : Option (Values M A) → Text → Values M A
  unfolding ensure_context
  with_message_id ctx id = record (ensure_context ctx) { message_id = some id }

  unfoldable pub with_message_attributes : Option (Values M A) → Option A → Values M A
  unfolding ensure_context
  with_message_attributes ctx attributes = record (ensure_context ctx) { attributes = attributes }

  unfoldable pub get_context_topic : Option (Values M A) → Text
  get_context_topic none = []
  get_context_topic (some ctx) = or_empty ctx.topic

  unfoldable pub get_context_message : Option (Values M A) → Option M
  get_context_message none = none
  get_context_message (some ctx) = ctx.message

  unfoldable pub get_context_message_id : Option (Values M A) → Text
  get_context_message_id none = []
  get_context_message_id (some ctx) = or_empty ctx.message_id

  unfoldable pub get_context_message_attributes : Option (Values M A) → Option A
  get_context_message_attributes none = none
  get_context_message_attributes (some ctx) = ctx.attributes

  -- A handler's context, made from the topic and then the message, gives all of them back.
  pub get-with_message :
      (id_of : M → Text) (attributes_of : M → Option A) (ctx : Option (Values M A)) (topic : Text)
      (m : M)
      → let full = some (with_message id_of attributes_of (some (with_topic ctx topic)) (some m)) in
        (get_context_topic full ≡ topic)
        × (get_context_message full ≡ some m)
        × (get_context_message_id full ≡ id_of m)
        × (get_context_message_attributes full ≡ attributes_of m)
  unfolding with_topic with_message get_context_topic get_context_message get_context_message_id
      get_context_message_attributes
  get-with_message id_of attributes_of ctx topic m = (refl, refl, refl, refl)
