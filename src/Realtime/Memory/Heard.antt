-- ===== src/Realtime/Memory/Heard.antt =====
-- What a subscription to the publisher in memory does to the channels, after any use of it.
use flowpanel.Base.{ℕ, String, not, ◌≡◌, [], ◌==◌, ◌&&◌, ◌||◌, eqb}
use flowpanel.Realtime.Memory.{Publisher, close, has, subscribe, unsubscribe, receivers}

-- A handler is called on its channel from its subscription until the function that `subscribe` returned
-- is called, and not after that; no other handler and no other channel is touched; and `close` ends
-- all subscriptions.
pub record IsHeard (p : Publisher) (c : String) (h : ℕ) : Type 0 where
  pub during :
      (d : String) (k : ℕ)
      → has (receivers (subscribe c h p).0 d) k ≡ (has (receivers p d) k || c == d && eqb h k)
  pub afterwards :
      (d : String) (k : ℕ)
      → has (receivers (unsubscribe (subscribe c h p).1 (subscribe c h p).0) d) k
        ≡ (has (receivers p d) k && not (c == d && eqb h k))
  pub ended : (d : String) → receivers (close p) d ≡ []
