-- ===== src/Messaging/Nats/Server.antt =====
-- What messaging/nats.go uses of the package nats.go. It is a parameter: a connected client whose
-- state, with the server's, is a World.
use finokit.Base.{
  List, [], ◌∷◌, ◌++◌, Option, none, some, Bool, true, ℤ, Text, Result, ok, ◌≡◌, ◌≢◌, ◌⊎◌,
}
use finokit.Messaging.Shared.{Message}

-- `nats.StreamConfig`: the two fields that the code sets, and the others.
pub record StreamConfig (Rest : Type 0) : Type 0 where
  pub name : Text
  pub subjects : List Text
  pub others : Rest

-- `AddStream` ends well, with ErrStreamNameAlreadyInUse, or with another error.
pub data Added : Type 0 where
  added in_use : Added
  not_added : Text → Added

-- A publish request: the subject, the payload, and the options MsgId and Context.
pub record Request : Type 0 where
  pub topic : Text
  pub payload : Text
  pub message_id : Option Text
  pub has_deadline : Bool

pub record Server : Type 1 where
  pub World : Type 0
  pub Sub : Type 0
  pub Rest : Type 0
  pub connect : Text → Result Text World
  pub jet_stream : World → Option Text
  pub disconnect : World → World
  -- Streams. The server keeps a list of subjects for each stream's name.
  pub add_stream : Text → List Text → World → Added × World
  pub stream_info : Text → World → Result Text (StreamConfig Rest) × World
  pub update_stream : StreamConfig Rest → World → Option Text × World
  pub subjects_of : World → Text → Option (List Text)
  pub add_stream_sets :
      (n : Text) (ss : List Text) (w : World)
      → (add_stream n ss w).0 ≡ added
      → subjects_of (add_stream n ss w).1 n ≡ some ss
  pub add_stream_keeps :
      (n m : Text) (ss : List Text) (w : World)
      → n ≢ m
      → subjects_of (add_stream n ss w).1 m ≡ subjects_of w m
  pub stream_info_tells :
      (n : Text) (w : World) (c : StreamConfig Rest)
      → (stream_info n w).0 ≡ ok c
      → (c.name ≡ n) × (subjects_of w n ≡ some c.subjects)
  pub stream_info_keeps :
      (n m : Text) (w : World) → subjects_of (stream_info n w).1 m ≡ subjects_of w m
  pub update_stream_sets :
      (c : StreamConfig Rest) (w : World)
      → (update_stream c w).0 ≡ none
      → subjects_of (update_stream c w).1 c.name ≡ some c.subjects
  pub update_stream_keeps :
      (c : StreamConfig Rest) (m : Text) (w : World)
      → c.name ≢ m
      → subjects_of (update_stream c w).1 m ≡ subjects_of w m
  -- Publishing. `sent` is the log of the requests that were taken. An error does not tell whether the
  -- request was: the wait for an acknowledgement may end before it comes.
  pub marshal : Message → Option Text
  pub publish_core : Request → World → Option Text × World
  pub publish_jet : Request → World → Option Text × World
  pub sent : World → List Request
  pub publish_core_sends :
      (r : Request) (w : World)
      → (publish_core r w).0 ≡ none
      → sent (publish_core r w).1 ≡ sent w ++ r ∷ []
  pub publish_core_fails :
      (r : Request) (w : World) (e : Text)
      → (publish_core r w).0 ≡ some e
      → (sent (publish_core r w).1 ≡ sent w) ⊎ (sent (publish_core r w).1 ≡ sent w ++ r ∷ [])
  pub publish_jet_sends :
      (r : Request) (w : World)
      → (publish_jet r w).0 ≡ none
      → sent (publish_jet r w).1 ≡ sent w ++ r ∷ []
  pub publish_jet_fails :
      (r : Request) (w : World) (e : Text)
      → (publish_jet r w).0 ≡ some e
      → (sent (publish_jet r w).1 ≡ sent w) ⊎ (sent (publish_jet r w).1 ≡ sent w ++ r ∷ [])
  -- Subscribing: the topic, the group or the durable name, and the options.
  pub core_subscribe : Text → World → Result Text Sub × World
  pub core_queue_subscribe : Text → Text → World → Result Text Sub × World
  pub jet_subscribe : Text → World → Result Text Sub × World
  pub jet_queue_subscribe : Text → Text → World → Result Text Sub × World
  pub pull_subscribe : Text → Text → Option ℤ → Option ℤ → World → Result Text Sub × World
  pub set_pending_limits : Sub → ℤ → ℤ → World → Option Text × World
  pub unsubscribe : Sub → World → Option Text × World
  -- A subscription that was unsubscribed has ended, and stays so, also when the connection is closed.
  pub is_ended : World → Sub → Bool
  pub unsubscribe_ends :
      (s : Sub) (w : World) → (unsubscribe s w).0 ≡ none → is_ended (unsubscribe s w).1 s ≡ true
  pub unsubscribe_keeps :
      (s t : Sub) (w : World) → is_ended w t ≡ true → is_ended (unsubscribe s w).1 t ≡ true
  pub disconnect_keeps :
      (t : Sub) (w : World) → is_ended w t ≡ true → is_ended (disconnect w) t ≡ true
  pub default_pending_msgs : ℤ
  pub default_pending_bytes : ℤ
