-- ===== src/Messaging/Start.antt =====
-- `New` and `NewWithConfig` of messaging/config.go: a client on a NATS queue. The scan of the section
-- "messaging" is an argument.
use finokit.Base.{Option, none, some, false, Text, Result, ok, err, ◌>>=◌}
use finokit.Messaging.Shared.{Error, outside, Config, normalize_config}
use finokit.Messaging.Client.{Client}
use finokit.Messaging.Nats.Server.{Server}
use finokit.Messaging.Nats.Queue.{State, new_nats_queue}

module _ (v : Server) (H : Type 0) where
  unfoldable pub new_with_config : Option Config → Result Error (Client (State v H))
  unfolding normalize_config new_nats_queue
  new_with_config cfg = do
    normalized ← normalize_config cfg
    queue ← new_nats_queue v H (some normalized)
    ok (record {
      queue = some queue;
      subscriptions = normalized.subscriptions;
      closed = false;
      close_err = none;
    })

  unfoldable pub new : Result Text Config → Result Error (Client (State v H))
  unfolding new_with_config
  new (err e) = err (outside e)
  new (ok cfg) = new_with_config (some cfg)
