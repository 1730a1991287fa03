-- ===== src/Messaging/Nats/Open.antt =====
-- Opening one subscription: `subscribe`, `queueSubscribe`, `pullSubscribe` and what configures it,
-- of messaging/nats.go.
use finokit.Base.{
  Option, none, some, Bool, ◌&&◌, ◌||◌, ◌++◌, Text, text, text_eq, is_empty, replace_all,
  if◌then◌else◌, ok, err, Result, pos, ltb_ℤ, eqb_ℤ,
}
use finokit.Messaging.Shared.{Error, outside, joined, Subscription}
use finokit.Messaging.Nats.Server.{Server}

unfoldable pub durable_name : Subscription → Text
unfolding replace_all
durable_name s =
    let name = s.group ++ text "-" ++ s.name in
    if text_eq name (text "-") || is_empty name
    then replace_all s.topic (text ".") (text "-")
    else name

module _ (v : Server) where
  unfoldable pub set_pending_limit : v.Sub → Subscription → v.World → Option Text × v.World
  set_pending_limit sub s w =
      if eqb_ℤ s.pending_msg_limit (pos 0) && eqb_ℤ s.pending_bytes_limit (pos 0)
      then (none, w)
      else v.set_pending_limits sub
          (if eqb_ℤ s.pending_msg_limit (pos 0)
            then v.default_pending_msgs
            else s.pending_msg_limit)
          (if eqb_ℤ s.pending_bytes_limit (pos 0)
            then v.default_pending_bytes
            else s.pending_bytes_limit)
          w

  -- The errors joined, the one of `Unsubscribe` included.
  unfoldable pub configure_subscription : v.Sub → Subscription → v.World → Option Error × v.World
  unfolding set_pending_limit
  configure_subscription sub s w =
      let (e, w₁) = set_pending_limit sub s w in
      elim e [
        | none ↦ (none, w₁)
        | some cause ↦
            let (u, w₂) = v.unsubscribe sub w₁ in
            (
              some
                  (elim u [ none ↦ outside cause | some e' ↦ joined (outside cause) (outside e') ]),
              w₂,
            )
      ]

  unfoldable pub pull_subscribe : Subscription → v.World → Result Text v.Sub × v.World
  unfolding durable_name
  pull_subscribe s w =
      v.pull_subscribe s.topic (durable_name s)
        (if ltb_ℤ (pos 0) s.pull_max_waiting then some s.pull_max_waiting else none)
        (if ltb_ℤ (pos 0) s.ack_wait then some s.ack_wait else none) w

  -- The call at the server that `Subscribe` chooses.
  unfoldable pub open_subscription : Bool → Subscription → v.World → Result Text v.Sub × v.World
  unfolding pull_subscribe
  open_subscription jet s w =
      if is_empty s.group
      then if jet then v.jet_subscribe s.topic w else v.core_subscribe s.topic w
      else if jet
      then if s.pull then pull_subscribe s w else v.jet_queue_subscribe s.topic s.group w
      else v.core_queue_subscribe s.topic s.group w

  -- `subscribe` and `queueSubscribe`: open, then configure.
  unfoldable pub open_configured : Bool → Subscription → v.World → Result Error v.Sub × v.World
  unfolding open_subscription configure_subscription
  open_configured jet s w =
      let (opened, w₁) = open_subscription jet s w in
      elim opened [
        | err e ↦ (err (outside e), w₁)
        | ok sub ↦
            let (e, w₂) = configure_subscription sub s w₁ in
            elim e [ none ↦ (ok sub, w₂) | some cause ↦ (err cause, w₂) ]
      ]
