-- ===== src/RateLimit/Memory.antt =====
-- The limiter in memory, over a sequence of requests.
use flowpanel.Base.{
  ℕ, suc, ◌+◌, ◌-◌, ◌≤◌, ◌<◌, min, String, false, ◌≡◌, refl, Option, none, some, List, [], ◌∷◌,
  ◌&&◌, ◌∙◌, not, Bool-cases, arith, leb, if◌then◌else◌, ◌==◌, eq_iff, eq_refl, All, Option-cases,
  inl, inr,
}
use flowpanel.Base.Dict.{lookup, insert, lookup-insert_ne, lookup-insert_self}
use flowpanel.RateLimit.{Bucket, Options, Buckets, fresh, check}

-- Requests as times and keys, in the order in which they are made.
abbrev pub Requests : Type 0
Requests = List (ℕ × String)

-- How many requests of `key` are let through.
unfoldable pub allowed : Options → String → Requests → Buckets → ℕ
allowed o key [] buckets = 0
allowed o key ((now, k) ∷ rest) buckets =
    let (buckets', passes) = check o now k buckets in
    let later = allowed o key rest buckets' in if passes && (k == key) then suc later else later

unfoldable pub made : String → Requests → ℕ
made key [] = 0
made key ((now, k) ∷ rest) = if k == key then suc (made key rest) else made key rest

-- A request touches the bucket of its own key only.
check-lookup_ne :
    (o : Options) (now : ℕ) (k j : String) (buckets : Buckets)
    → (k == j) ≡ false
    → lookup j (check o now k buckets).0 ≡ lookup j buckets
unfolding check
check-lookup_ne o now k j buckets ne = elim (Option-cases (lookup k buckets)) [
  | inl absent ↦ rw (absent, check) (lookup-insert_ne k j (fresh o now) buckets ne)
  | inr (b, found) ↦ ground (
    arith,
    found,
    lookup-insert_ne k j (fresh o now) buckets ne,
    lookup-insert_ne k j (record b { count = b.count + 1 }) buckets ne,
  )
]

-- A request of a key whose window has not ended.
check_live :
    (o : Options) (now : ℕ) (k key : String) (buckets : Buckets) (b : Bucket)
    → k ≡ key
    → lookup key buckets ≡ some b
    → now < b.reset_at
    → (b' : Bucket) × (lookup key (check o now k buckets).0 ≡ some b')
      × (b'.reset_at ≡ b.reset_at)
      × (b'.count ≡ (if leb o.limit b.count then b.count else b.count + 1))
      × ((check o now k buckets).1 ≡ not (leb o.limit b.count))
unfolding check
check_live o now k key buckets b e found live = elim (Bool-cases (leb o.limit b.count)) [
  | inl full ↦ (b, ground (arith, found), refl, ground arith, ground (arith, found))
  | inr room ↦
      let b' : Bucket = record b { count = b.count + 1 } in
      (
        b',
        ground (arith, found, lookup-insert_self key b' buckets),
        refl,
        ground arith,
        ground (arith, found),
      )
]

-- Inside a window that has started, the key gets the rest of its allowance.
allowed_live :
    (o : Options) (key : String) (rs : Requests) (buckets : Buckets) (b : Bucket)
    → lookup key buckets ≡ some b
    → All (λ r. r.0 < b.reset_at) rs
    → allowed o key rs buckets ≡ min (made key rs) (o.limit - b.count)
unfolding allowed made
allowed_live o key [] buckets b found h = omega arith
allowed_live o key ((now, k) ∷ rest) buckets b found (live, h) = elim (Bool-cases (k == key)) [
  | inl same ↦
      let e : k ≡ key = (eq_iff k key).0 same in
      let (b', found', reset, count, passes) = check_live o now k key buckets b e found live in
      let ih = allowed_live o key rest (check o now k buckets).0 b' found' (rw (← reset) at h) in
      ground (arith, ih)
  | inr other ↦ ground (
    arith,
    allowed_live o key rest (check o now k buckets).0 b
        (check-lookup_ne o now k key buckets other ∙ found) h,
  )
]

-- The bucket of a key that starts a window.
abbrev pub StartsWindow : ℕ → Option Bucket → Type 0
StartsWindow now none = Unit
StartsWindow now (some b) = b.reset_at ≤ now

-- A request that starts a window is let through, and of the requests made before that window ends,
-- at whatever times and interleaved with whatever other keys, those after the first are let through
-- until the key has had `limit` in all. The first one passes even if `limit` is 0.
pub allowed_window :
    (o : Options) (key : String) (now : ℕ) (rest : Requests) (buckets : Buckets)
    → StartsWindow now (lookup key buckets)
    → All (λ r. r.0 < now + o.window_ms) rest
    → allowed o key ((now, key) ∷ rest) buckets ≡ suc (min (made key rest) (o.limit - 1))
unfolding allowed check
allowed_window o key now rest buckets starts h = ground (
  arith,
  eq_refl key,
  allowed_live o key rest (insert key (fresh o now) buckets) (fresh o now)
      (lookup-insert_self key (fresh o now) buckets) h,
)
