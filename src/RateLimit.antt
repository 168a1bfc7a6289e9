-- ===== src/RateLimit.antt =====
-- packages/core/src/runtime/rate-limit.ts: the limiter in memory and the one over Redis. The clock
-- is an argument; times and counts are whole milliseconds and do not wrap.
pub mod Memory
pub mod Redis
use flowpanel.Base.{
  ℕ, ◌+◌, String, Bool, true, false, Option, none, some, List, leb, eqb, if◌then◌else◌,
}
use flowpanel.Base.Dict.{lookup, insert}

pub record Bucket : Type 0 where
  pub count : ℕ
  pub reset_at : ℕ

pub record Options : Type 0 where
  pub limit : ℕ
  pub window_ms : ℕ

abbrev pub Buckets : Type 0
Buckets = List (String × Bucket)

abbrev fresh : Options → ℕ → Bucket
fresh o now = record { count = 1; reset_at = now + o.window_ms }

-- `createMemoryLimiter(opts).check(key)` at the time `now`.
unfoldable pub check : Options → ℕ → String → Buckets → Buckets × Bool
check o now key buckets = elim (lookup key buckets) [
  | none ↦ (insert key (fresh o now) buckets, true)
  | some b ↦
      if leb b.reset_at now
      then (insert key (fresh o now) buckets, true)
      else if leb o.limit b.count
      then (buckets, false)
      else (insert key (record b { count = b.count + 1 }) buckets, true)
]

-- The client of the other driver, and what its two calls do to the server.
pub record Counters : Type 1 where
  pub Server : Type 0
  pub incr : String → Server → ℕ × Server
  pub pexpire : String → ℕ → Server → Server

-- `createRedisLimiter(opts).check(key)`; `full` is `prefix + key`.
unfoldable pub check_redis : (c : Counters) → Options → String → c.Server → c.Server × Bool
check_redis c o full s =
    let (count, s') = c.incr full s in
    let armed = c.pexpire full o.window_ms s' in
    (if eqb count 1 then armed else s', leb count o.limit)
