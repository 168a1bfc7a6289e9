-- ===== src/Realtime/Redis.antt =====
-- `createRedisPublisher` of packages/core/src/runtime/redis-publisher.ts. The map of handlers is that
-- of the publisher in memory, whose operations on it are line for line the same; `ioredis` is not of
-- this repository: the state keeps the calls that are made on its connections, latest first, and
-- what a connection is subscribed to is read off them. A connection is the number of those opened
-- before it. What follows an `await` is a task, and any pending task may be the next to run.
pub mod Operations
pub mod Wire
pub mod Steps
pub mod Covered
pub mod Served
pub mod Once
pub mod Single
pub mod Delivery
pub mod Released
pub mod Races
use flowpanel.Base.{
  ℕ, zero, suc, String, Bool, true, false, not, Option, none, some, List, [], ◌∷◌, ◌++◌, ◌==◌, eqb,
  ◌&&◌, ◌||◌, get_elem?, any, if◌then◌else◌, ok, err, ◌>>=◌, map, or_else,
}
use Prim.Native.String.{◌++◌ as append, len, slice}
use text.Mathlib.Text.{starts_with}
use flowpanel.Base.Dict.{lookup}
use flowpanel.Base.Text.{contains, add}
use flowpanel.Base.Value.{Value, str, obj, props}
use flowpanel.Errors.{Throws, new_error}
use flowpanel.Realtime.{Json, encode_payload, decode_payload}
use flowpanel.Realtime.Memory.{
  Publisher, Handlers, Unsubscribe, undo, no_op, members, delete, is_empty, receivers,
}
use flowpanel.Realtime.Memory

-- `RedisPublisherOptions`: whether there is a client of the host's, whether it has `duplicate()`,
-- and whether there is a url. `installed` is whether `import("ioredis")` succeeds.
pub record Setup : Type 0 where
  pub key_prefix : String
  pub client : Bool
  pub duplicates : Bool
  pub url : Bool
  pub installed : Bool

pub data Target : Type 0 where
  host : Target
  own : ℕ → Target

-- The calls on connections. `opens` is `new Redis(url)` or `client.duplicate()`; `watches` and
-- `unwatches` are for the listener of errors, `listens` is `on("message", dispatch)`.
pub data Call (T : Type 0) : Type 0 where
  opens : ℕ → Call T
  watches : Target → Call T
  unwatches : Target → Call T
  listens : ℕ → Call T
  subscribes_to : ℕ → String → Call T
  unsubscribes_from : ℕ → String → Call T
  publishes_on : Target → String → T → Call T
  quits : ℕ → Call T

-- The rest of a `subscribe` or a `publish` at each of its awaits: for the module to load, for the
-- new connection to come back from `connect`, and for the connection to be used.
pub data Task (T : Type 0) : Type 0 where
  load_subscriber : String → Task T
  got_subscriber : ℕ → String → Task T
  subscribe_on : ℕ → String → Task T
  load_publisher : String → T → Task T
  got_publisher : ℕ → String → T → Task T
  publish_on : Target → String → T → Task T

-- What goes to the console or rejects the caller's promise.
pub data Report : Type 0 where
  subscribe_failed : String → Report
  publish_failed : String → Report
  subscribed_closed : String → Report

pub record State (T : Type 0) : Type 0 where
  pub handlers : Publisher
  pub opened : ℕ
  pub owned : List ℕ
  pub watched : List Target
  pub pub_target : Option Target
  pub sub : Option ℕ
  pub warned_closed : Bool
  pub tasks : List (Task T)
  pub calls : List (Call T)
  pub reports : List Report

abbrev text_of : Option Value → Option String
text_of (some (str s)) = some s
text_of _ = none

-- `errorKind`.
unfoldable pub error_kind : Value → String
unfolding text_of lookup
error_kind (obj ps) =
    or_else (text_of (lookup "code" (props ps)))
      (or_else (text_of (lookup "name" (props ps))) "unknown")
error_kind _ = "unknown"

-- The listener of `watchErrors`: a kind of error is written to the console once. `seen` is shared by the
-- connections of a publisher.
unfoldable pub on_error : Value → List String → List String × Option String
unfolding error_kind contains
on_error thrown seen =
    if contains seen (error_kind thrown)
    then (seen, none)
    else (add seen (error_kind thrown), some (error_kind thrown))

-- `wireChannel`.
unfoldable pub wire_channel : String → String → String
wire_channel key_prefix channel = append (append key_prefix ":") channel

-- The channel that `dispatch` reads off a wire channel.
unfoldable pub channel_of : String → String → String
channel_of key_prefix wire =
    if starts_with wire (append key_prefix ":")
    then slice wire (len (append key_prefix ":")) (len wire)
    else wire

module _ {T : Type 0} where
  abbrev pub add_task : Task T → State T → State T
  add_task t s = record s { tasks = s.tasks ++ t ∷ [] }

  abbrev pub add_call : Call T → State T → State T
  add_call c s = record s { calls = c ∷ s.calls }

  abbrev pub add_report : Report → State T → State T
  add_report r s = record s { reports = r ∷ s.reports }

  abbrev pub call_each {ℓ} : {A : Type ℓ} → (A → Call T) → List A → List (Call T) → List (Call T)
  call_each f [] calls = calls
  call_each f (x ∷ xs) calls = call_each f xs (f x ∷ calls)

  -- Whether connection `k` has been quit.
  unfoldable pub is_quit : ℕ → List (Call T) → Bool
  is_quit k [] = false
  is_quit k (quits j ∷ calls) = eqb j k || is_quit k calls
  is_quit k (_ ∷ calls) = is_quit k calls

  -- Whether connection `k` is subscribed to a wire channel after the calls, as Redis documents
  -- SUBSCRIBE, UNSUBSCRIBE and QUIT.
  unfoldable pub wired : ℕ → String → List (Call T) → Bool
  wired k wire [] = false
  wired k wire (subscribes_to j w ∷ calls) = (eqb j k && w == wire) || wired k wire calls
  wired k wire (unsubscribes_from j w ∷ calls) = not (eqb j k && w == wire) && wired k wire calls
  wired k wire (quits j ∷ calls) = not (eqb j k) && wired k wire calls
  wired k wire (_ ∷ calls) = wired k wire calls

  -- Whether the listener of messages is on connection `k`: without it no message reaches a handler.
  unfoldable pub listening : ℕ → List (Call T) → Bool
  listening k [] = false
  listening k (listens j ∷ calls) = eqb j k || listening k calls
  listening k (_ ∷ calls) = listening k calls

  -- A connection made by `connect` or `duplicate()`: it is watched for errors and owned.
  unfoldable pub open_connection : State T → State T
  open_connection s = record s {
    opened = suc s.opened;
    owned = s.owned ++ s.opened ∷ [];
    watched = s.watched ++ own s.opened ∷ [];
    calls = watches (own s.opened) ∷ opens s.opened ∷ s.calls;
  }

  -- `sub = connection; sub.on("message", dispatch)`.
  unfoldable pub take_subscriber : ℕ → State T → State T
  take_subscriber k s = record s { sub = some k; calls = listens k ∷ s.calls }
