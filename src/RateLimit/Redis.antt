-- ===== src/RateLimit/Redis.antt =====
-- The limiter over Redis, for one key inside one window.
use flowpanel.Base.{ℕ, zero, suc, ◌+◌, ◌-◌, min, String, ◌≡◌, arith, leb, if◌then◌else◌}
use flowpanel.RateLimit.{Options, Counters, check_redis}

-- What the documentation of INCR and PEXPIRE says of one key that does not run out: INCR adds one
-- to the stored number, which is 0 for an absent key, and answers the sum; PEXPIRE keeps it.
pub record Documented (c : Counters) (key : String) : Type 0 where
  pub stored : c.Server → ℕ
  pub incr_answers : (s : c.Server) → (c.incr key s).0 ≡ stored s + 1
  pub incr_stores : (s : c.Server) → stored (c.incr key s).1 ≡ stored s + 1
  pub pexpire_keeps : (ms : ℕ) (s : c.Server) → stored (c.pexpire key ms s) ≡ stored s

module _ (c : Counters) (o : Options) (key : String) where
  -- How many of `n` requests in a row are let through.
  unfoldable pub allowed_redis : ℕ → c.Server → ℕ
  allowed_redis zero s = 0
  allowed_redis (suc n) s =
      let (s', passes) = check_redis c o key s in
      let later = allowed_redis n s' in if passes then suc later else later

module _ (c : Counters) (o : Options) (key : String) (d : Documented c key) where
  check_redis-stored :
      (s : c.Server)
      → (d.stored (check_redis c o key s).0 ≡ d.stored s + 1)
        × ((check_redis c o key s).1 ≡ leb (d.stored s + 1) o.limit)
  unfolding check_redis
  check_redis-stored s =
      ground
        (arith, d.incr_answers s, d.incr_stores s, d.pexpire_keeps o.window_ms (c.incr key s).1)

  -- Of `n` requests of a key as many pass as the limit leaves over the number already stored; so
  -- with a limit of 0 none passes.
  pub allowed_redis_lem :
      (n : ℕ) (s : c.Server) → allowed_redis c o key n s ≡ min n (o.limit - d.stored s)
  unfolding allowed_redis
  allowed_redis_lem zero s = omega arith
  allowed_redis_lem (suc n) s =
      ground (arith, check_redis-stored s, allowed_redis_lem n (check_redis c o key s).0)
