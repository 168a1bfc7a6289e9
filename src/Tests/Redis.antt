-- ===== src/Tests/Redis.antt =====
-- The publisher over Redis at concrete inputs.
use flowpanel.Base.{true, false, ◌≡◌, refl, Option, [], ◌∷◌, arith}
use flowpanel.Base.Dict.{lookup, insert, remove}
use flowpanel.Base.Value.{Value}
use flowpanel.Realtime.Memory.{Unsubscribe, receivers}
use flowpanel.Realtime.Memory
use flowpanel.Realtime.Redis.{
  Setup, State, wire_channel, is_quit, wired, listening, open_connection, take_subscriber,
}
use flowpanel.Realtime.Redis.Operations.{
  fresh, create, start_subscriber, subscribe, unsubscribe, close, run, delivered,
}
use flowpanel.Realtime.Redis.Steps.{
  resume, Reach, created, next, subscribes, resumes, closes, now, after,
}
use flowpanel.Realtime.Redis.Served.{IsServed, Reach-IsServed}
use flowpanel.Realtime.Redis.Released.{close_releases}
use flowpanel.Realtime.Redis.Delivery.{delivered-receivers}
use flowpanel.Realtime.Redis.Races.{close_while_connecting, two_subscribers}
use flowpanel.Tests.Transport.{plain_json}

abbrev twin : Setup
twin = record {
  key_prefix = "fp";
  client = true;
  duplicates = true;
  url = false;
  installed = false;
}

abbrev over_url : Setup
over_url = record {
  key_prefix = "fp";
  client = false;
  duplicates = false;
  url = true;
  installed = true;
}

abbrev S : Type 0
S = State (Option Value)

-- Two handlers on a channel, and the connection subscribed.
abbrev one_channel : Setup → S
one_channel setup = resume setup 0 (subscribe setup "a" 2 (subscribe setup "a" 1 (fresh setup)).0).0

one_channel-Reach : Reach plain_json twin (one_channel twin)
unfolding create
one_channel-Reach =
    next (next (next (created (fresh twin) refl) (subscribes "a" 1)) (subscribes "a" 2)) (resumes 0)

Reach-IsServed_example : IsServed twin (one_channel twin)
Reach-IsServed_example = Reach-IsServed plain_json twin one_channel-Reach

close_releases_example : is_quit 0 (close (one_channel twin)).calls ≡ true
unfolding resume subscribe start_subscriber Memory.subscribe open_connection take_subscriber run
    lookup insert is_quit
close_releases_example =
    close_releases plain_json twin (one_channel twin) 0 one_channel-Reach refl (omega arith)

delivered-receivers_example :
    delivered twin (one_channel twin).opened (wire_channel "fp" "a") (one_channel twin)
    ≡ receivers (one_channel twin).handlers "a"
unfolding resume subscribe start_subscriber Memory.subscribe open_connection take_subscriber run
    lookup insert is_quit
delivered-receivers_example =
    delivered-receivers plain_json twin refl (one_channel twin) "a" one_channel-Reach refl

one_channel_calls : receivers (one_channel twin).handlers "a" ≡ 1 ∷ 2 ∷ []
unfolding resume subscribe start_subscriber Memory.subscribe open_connection take_subscriber run
    lookup insert is_quit receivers
one_channel_calls = refl

-- A subscription waits for `ioredis` to load.
abbrev connecting : S
connecting = (subscribe over_url "a" 1 (fresh over_url)).0

-- Then the publisher is closed again.
close_while_connecting_example :
    ((resume over_url 0 (close connecting)).owned ≡ 0 ∷ [])
    × (is_quit 0 (close (resume over_url 0 (close connecting))).calls ≡ false)
unfolding subscribe start_subscriber Memory.subscribe lookup insert is_quit
close_while_connecting_example =
    close_while_connecting plain_json over_url connecting "a" [] refl refl refl refl refl
      (after now closes)

-- Two channels are subscribed to before `ioredis` has loaded, and the first is left.
abbrev after_six : S → S
after_six s = resume over_url 0 (
    resume over_url 0
      (resume over_url 0 (resume over_url 0 (resume over_url 0 (resume over_url 0 s)))))

abbrev left_behind : S
left_behind =
    unsubscribe over_url (subscribe over_url "a" 1 (fresh over_url {T = Option Value})).1
      (after_six (subscribe over_url "b" 2 connecting).0)

two_subscribers_example :
    delivered over_url 2
      (wire_channel "fp" "a")
      (resume over_url 0 (subscribe over_url "a" 3 left_behind).0)
    ≡ 3 ∷ 3 ∷ []
unfolding resume subscribe unsubscribe start_subscriber Memory.subscribe Memory.unsubscribe
    open_connection take_subscriber run lookup insert remove is_quit wired listening wire_channel
two_subscribers_example =
    two_subscribers over_url left_behind "a" 3 refl refl refl refl refl refl refl refl
