-- ===== src/Realtime/Redis/Operations.antt =====
-- The functions that `createRedisPublisher` returns, the connections that they make and the tasks that
-- they leave pending.
use flowpanel.Base.{
  ℕ, zero, suc, String, Bool, true, false, not, none, some, List, [], ◌∷◌, ◌++◌, ◌&&◌,
  if◌then◌else◌, ok, err, ◌>>=◌, map,
}
use flowpanel.Base.Dict.{lookup}
use flowpanel.Base.Value.{Value}
use flowpanel.Errors.{Throws, new_error}
use flowpanel.Realtime.{Json, encode_payload, decode_payload}
use flowpanel.Realtime.Memory.{
  Publisher, Handlers, Unsubscribe, undo, no_op, members, delete, is_empty, receivers,
}
use flowpanel.Realtime.Memory
use flowpanel.Realtime.Redis.{
  Setup, Target, host, own, Call, watches, unwatches, subscribes_to, unsubscribes_from,
  publishes_on, quits, Task, load_subscriber, got_subscriber, subscribe_on, load_publisher,
  got_publisher, publish_on, subscribe_failed, publish_failed, subscribed_closed, State,
  wire_channel, channel_of, add_task, add_call, add_report, call_each, is_quit, wired, listening,
  open_connection, take_subscriber,
}

module _ {T : Type 0} where
  unfoldable pub close : State T → State T
  close s = if s.handlers.closed then s else record s {
    handlers = Memory.close s.handlers;
    watched = [];
    calls = call_each quits s.owned (call_each unwatches s.watched s.calls);
    owned = [];
    pub_target = none;
    sub = none;
  }

  -- A call on a connection that has been quit is refused.
  abbrev pub target_is_quit : Target → List (Call T) → Bool
  target_is_quit host calls = false
  target_is_quit (own k) calls = is_quit k calls

module _ (setup : Setup) {T : Type 0} where
  -- The variables of a new publisher.
  abbrev pub fresh : State T
  fresh = record {
    handlers = record { sets = []; subs = []; closed = false };
    opened = 0;
    owned = [];
    watched = if setup.client then host ∷ [] else [];
    pub_target = none;
    sub = none;
    warned_closed = false;
    tasks = [];
    calls = if setup.client then watches host ∷ [] else [];
    reports = [];
  }

  -- `createRedisPublisher`, up to what it returns.
  unfoldable pub create : Throws (State T)
  create =
      if not setup.client && not setup.url
      then err (
          new_error
            "[flowpanel] realtime driver 'redis' needs a connection: set `url`, or pass an ioredis-compatible instance as `client`.")
      else ok fresh

  -- `subscriber()` up to its first await, with the `then` and the `catch` that `subscribe` adds.
  unfoldable pub start_subscriber : String → State T → State T
  unfolding open_connection take_subscriber
  start_subscriber channel s = elim s.sub [
    | some k ↦ add_task (subscribe_on k channel) s
    | none ↦
        if setup.client && setup.duplicates
        then add_task (subscribe_on s.opened channel) (take_subscriber s.opened (open_connection s))
        else (if setup.url
            then add_task (load_subscriber channel) s
            else add_report (subscribe_failed channel) s)
  ]

  -- `publisher()` up to its first await, and the publication that waits for it.
  unfoldable pub start_publisher : String → T → State T → State T
  start_publisher channel body s = elim s.pub_target [
    | some t ↦ add_task (publish_on t channel body) s
    | none ↦
        if setup.client
        then record s {
          pub_target = some host;
          tasks = s.tasks ++ publish_on host channel body ∷ [];
        }
        else (if setup.url
            then add_task (load_publisher channel body) s
            else add_report (publish_failed channel) s)
  ]

  unfoldable pub subscribe : String → ℕ → State T → State T × Unsubscribe
  unfolding start_subscriber
  subscribe channel h s =
      if s.handlers.closed
      then (
        if s.warned_closed
            then s
            else record s { warned_closed = true; reports = subscribed_closed channel ∷ s.reports },
        no_op,
      )
      else (let (p, u) = Memory.subscribe channel h s.handlers in
          elim (lookup channel s.handlers.subs) [
            | none ↦ (start_subscriber channel (record s { handlers = p }), u)
            | some _ ↦ (record s { handlers = p }, u)
          ])

  -- Calling what `subscribe` returned.
  unfoldable pub unsubscribe : Unsubscribe → State T → State T
  unsubscribe no_op s = s
  unsubscribe (undo channel i h) s =
      let s' : State T = record s { handlers = Memory.unsubscribe (undo channel i h) s.handlers } in
      if is_empty (delete (members s.handlers.sets i) h)
      then elim s.sub [
        | none ↦ s'
        | some k ↦ add_call (unsubscribes_from k (wire_channel setup.key_prefix channel)) s'
      ]
      else s'

  -- A task runs, up to the next await.
  unfoldable pub run : Task T → State T → State T
  unfolding open_connection take_subscriber is_quit
  run (load_subscriber channel) s =
      if setup.installed
      then add_task (got_subscriber s.opened channel) (open_connection s)
      else add_report (subscribe_failed channel) s
  run (got_subscriber k channel) s = add_task (subscribe_on k channel) (take_subscriber k s)
  run (subscribe_on k channel) s =
      if is_quit k s.calls
      then add_report (subscribe_failed channel) s
      else add_call (subscribes_to k (wire_channel setup.key_prefix channel)) s
  run (load_publisher channel body) s =
      if setup.installed
      then add_task (got_publisher s.opened channel body) (open_connection s)
      else add_report (publish_failed channel) s
  run (got_publisher k channel body) s =
      add_task (publish_on (own k) channel body) (record s { pub_target = some (own k) })
  run (publish_on t channel body) s =
      if target_is_quit t s.calls
      then add_report (publish_failed channel) s
      else add_call (publishes_on t (wire_channel setup.key_prefix channel) body) s

  -- `dispatch`: the handlers that a message on a wire channel is handed to.
  unfoldable pub dispatched : String → State T → Handlers
  unfolding receivers channel_of
  dispatched wire s = receivers s.handlers (channel_of setup.key_prefix wire)

  -- The calls of handlers that one published message makes: each connection that is subscribed to
  -- its wire channel, and has the listener of messages, dispatches it. `n` connections are asked.
  unfoldable pub delivered : ℕ → String → State T → Handlers
  unfolding dispatched wired listening
  delivered zero wire s = []
  delivered (suc n) wire s =
      delivered n wire s
      ++ (if wired n wire s.calls && listening n s.calls then dispatched wire s else [])

module _ (j : Json) (setup : Setup) where
  unfoldable pub publish : String → Value → State j.Text → Throws (State j.Text)
  unfolding start_publisher encode_payload
  publish channel payload s =
      if s.handlers.closed
      then err (new_error "[flowpanel] this realtime publisher is closed.")
      else do body ← encode_payload j channel payload; ok (start_publisher setup channel body s)

  -- `dispatch` with what each handler is handed.
  unfoldable pub dispatch : String → j.Text → State j.Text → List (ℕ × Value)
  unfolding dispatched decode_payload
  dispatch wire raw s = map (λ h. (h, decode_payload j raw)) (dispatched setup wire s)
