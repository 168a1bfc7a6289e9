-- ===== src/Guards/Context.antt =====
-- The request, the configuration that the guards read, and the context of a request:
-- packages/next/src/runtime/request-setup.ts and request-origin.ts.
use Prim.Native.Char.{code}
use Prim.Native.String.{◌++◌ as append}
use flowpanel.Base.{
  ℕ, String, Bool, ◌==◌, eqb, Option, none, some, List, ◌∷◌, not, ok, err, ◌>>=◌, ◌>>◌, or_else,
  if◌then◌else◌,
}
use flowpanel.Base.Dict.{lookup}
use flowpanel.Base.Value.{Session, Scope}
use flowpanel.Errors.{Throws, new_error, known, rate_limit}
use flowpanel.Policy.{AccessContext, RequireRole, check_require_role}
use flowpanel.RateLimit.{Buckets, Options, Counters, check, check_redis}

-- `new URL(text).origin`, where it does not throw, the `protocol` of a URL without its colon, and
-- `trim`.
pub record Platform : Type 0 where
  pub origin_of : String → Option String
  pub protocol_of : String → String
  pub trim : String → String

-- `RequestContext`.
pub record RequestContext : Type 0 where
  pub caller : AccessContext
  pub open caller use *
  pub request_id : String
  pub ip : Option String
  pub user_agent : Option String

-- Header names are in lower case. `bound` is the entry of `requestContextCache`.
pub record Request : Type 0 where
  pub url : String
  pub method : String
  pub headers : List (String × String)
  pub bound : Option RequestContext

pub data Per : Type 0 where
  user ip : Per

-- A call of the Redis client, the latest first where they stand in a list.
pub data RedisCall : Type 0 where
  incr : String → RedisCall
  pexpire : String → ℕ → RedisCall

-- The client of the redis driver: whether `ioredis` is installed, and what INCR answers after the calls
-- made so far.
pub record RedisClient : Type 0 where
  pub key_prefix : String
  pub installed : Bool
  pub answers : List RedisCall → String → ℕ

pub data Driver : Type 0 where
  memory : Driver
  redis : RedisClient → Driver

pub record RateLimitConfig : Type 0 where
  pub driver : Driver
  pub options : Options
  pub per : Per

-- The callbacks may throw. `rate_limit` is absent where it is off.
pub record Config : Type 0 where
  pub same_origin_off : Bool
  pub trusted_origins : List String
  pub read_only : Bool
  pub session_of : Request → Throws (Option Session)
  pub role_of : Option Session → Throws String
  pub require_role : Option RequireRole
  pub actor_id : Option Session → Option String
  pub scope : Option (Request → Option Session → Throws Scope)
  pub rate_limit : Option RateLimitConfig
  pub on_error : Option (String → Bool)

-- The state of the limiter: that of the one in memory, with the time at which it is asked, and the
-- calls that the one over Redis has made.
pub record Limits : Type 0 where
  pub now : ℕ
  pub buckets : Buckets
  pub calls : List RedisCall

before_comma : String → String
before_comma String.[] = String.[]
before_comma (String.◌∷◌ c s) =
    let rest = String.◌∷◌ c (before_comma s) in if eqb (code c) b',' then String.[] else rest

-- `value?.split(",")[0]?.trim() || null`.
first : Platform → Option String → Option String
unfolding before_comma
first p none = none
first p (some value) =
    let item = p.trim (before_comma value) in if item == "" then none else some item

abbrev with_protocol : Option String → String → String
with_protocol none s = s
with_protocol (some t) s = t

abbrev or_header : Option String → Option String → Option String
or_header none o = o
or_header (some s) o = some s

-- `browserOrigin`. The URL of a request always parses; an origin that did not would be the text "".
unfoldable pub browser_origin : Platform → Request → String
unfolding first lookup
browser_origin p req =
    elim (or_header (first p (lookup "x-forwarded-host" req.headers))
      (first p (lookup "host" req.headers))) [
        | none ↦ or_else (p.origin_of req.url) ""
        | some host ↦
            append
              (or_else (first p (lookup "x-forwarded-proto" req.headers)) (p.protocol_of req.url))
              (append "://" host)
      ]

-- `x-forwarded-for`, its first item trimmed; an empty item stays.
ip_of : Platform → Request → Option String
unfolding before_comma lookup
ip_of p req = elim (lookup "x-forwarded-for" req.headers) [
  | none ↦ none
  | some value ↦ some (p.trim (before_comma value))
]

-- `rateLimitKey`.
rate_limit_key : Config → Per → Option Session → Option String → String
rate_limit_key config ip session address = append "ip:" (or_else address "unknown")
rate_limit_key config user session address = elim (config.actor_id session) [
  | some uid ↦ append "user:" uid
  | none ↦ append "ip:" (or_else address "unknown")
]

abbrev verdict : Bool → Throws (Unit {0})
verdict passes = if passes then ok tt else err (known (rate_limit "Rate limit exceeded"))

abbrev limited : Limits → Buckets × Bool → Throws (Unit {0}) × Limits
limited l (buckets, passes) = (verdict passes, record l { buckets = buckets })

abbrev counters : RedisClient → Counters
counters client = record {
  Server = List RedisCall;
  incr = λ full calls. (client.answers calls full, incr full ∷ calls);
  pexpire = λ full ms calls. pexpire full ms ∷ calls;
}

-- `check` of the redis driver; the client loads `ioredis` when it is first asked.
abbrev limited_redis : RedisClient → Options → String → Limits → Throws (Unit {0}) × Limits
limited_redis client o key l =
    if not client.installed
    then (
      err (
          new_error
            "ioredis is not installed — required for rateLimit.driver='redis'. Run `pnpm add ioredis`."),
      l,
    )
    else (let (calls, passes) =
          check_redis (counters client) o (append client.key_prefix key) l.calls in
        (verdict passes, record l { calls = calls }))

-- The verdict on a caller of the limiter that `createRateLimiter` makes for the driver.
limit : Config → Option Session → Option String → Limits → Throws (Unit {0}) × Limits
unfolding rate_limit_key
limit config session address l = elim config.rate_limit [
  | none ↦ (ok tt, l)
  | some r ↦ elim r.driver [
    | memory ↦
        limited l (check r.options l.now (rate_limit_key config r.per session address) l.buckets)
    | redis client ↦ limited_redis client r.options (rate_limit_key config r.per session address) l
  ]
]

abbrev scope_of : Config → Request → Option Session → Throws Scope
scope_of config req session = elim config.scope [ none ↦ ok none | some f ↦ f req session ]

-- Who calls: session, role, the admin-wide gate, and the tenant scope.
identify : Config → Request → Throws AccessContext
identify config req = do
  session ← config.session_of req
  role ← config.role_of session
  check_require_role config.require_role role session
  scope ← scope_of config req session
  ok (record { session = session; role = role; scope = scope })

abbrev admitted :
    Platform
    → Request
    → String
    → AccessContext
    → Throws (Unit {0}) × Limits
    → Throws RequestContext × Limits
admitted p req id c (err t, l) = (err t, l)
admitted p req id c (ok _, l) = (
  ok (record {
    caller = c;
    request_id = id;
    ip = ip_of p req;
    user_agent = lookup "user-agent" req.headers;
  }),
  l,
)

-- `resolveRequestContext`.
resolve_request_context :
    Platform → Config → Request → String → Limits → Throws RequestContext × Limits
unfolding identify limit ip_of
resolve_request_context p config req id l = elim (identify config req) [
  | err t ↦ (err t, l)
  | ok c ↦ admitted p req id c (limit config c.session (ip_of p req) l)
]

-- `buildRequestContext`: a bound request is not identified or counted again.
unfoldable pub build_request_context :
    Platform → Config → Request → String → Limits → Throws RequestContext × Limits
unfolding resolve_request_context
build_request_context p config req id l = elim req.bound [
  | some c ↦ (ok c, l)
  | none ↦ resolve_request_context p config req id l
]
