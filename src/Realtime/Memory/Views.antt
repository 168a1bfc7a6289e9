-- ===== src/Realtime/Memory/Views.antt =====
-- What each channel delivers to, after a subscription and after its end.
use flowpanel.Base.{
  ℕ, zero, suc, ◌<◌, String, true, false, ◌≡◌, refl, ap, some, List, [], ◌∷◌, ◌++◌, ◌==◌, eqb,
  eq_iff, eq_refl, length, length-append, if◌then◌else◌, arith, Option-cases, Bool-cases, inl, inr,
}
use flowpanel.Base.Dict.{lookup, lookup-insert, lookup-remove}
use flowpanel.Realtime.Memory.{
  Publisher, Handlers, Unsubscribe, undo, no_op, close, members, write, add, delete, is_empty,
  subscribe, unsubscribe, receivers,
}

members-write :
    (ss : List Handlers) (i k : ℕ) (s : Handlers)
    → i < length ss
    → members (write ss i s) k ≡ (if eqb i k then s else members ss k)
members-write [] i k s h = absurd (omega arith)
members-write (t ∷ ts) zero zero s h = refl
members-write (t ∷ ts) zero (suc k) s h = ground arith
members-write (t ∷ ts) (suc i) zero s h = ground arith
members-write (t ∷ ts) (suc i) (suc k) s h = ground (arith, members-write ts i k s)

members-append :
    (ss : List Handlers) (k : ℕ) (s : Handlers)
    → members (ss ++ s ∷ []) k ≡ (if eqb k (length ss) then s else members ss k)
members-append [] zero s = refl
members-append [] (suc k) s = ground arith
members-append (t ∷ ts) zero s = ground arith
members-append (t ∷ ts) (suc k) s = ground (arith, members-append ts k s)

is_empty-eq : (s : Handlers) → is_empty s ≡ true → s ≡ []
is_empty-eq [] h = refl
is_empty-eq (m ∷ ms) h = cc

-- Channels have sets of the store, each its own.
pub record IsValid (p : Publisher) : Type 0 where
  pub stored : (c : String) (i : ℕ) → lookup c p.subs ≡ some i → i < length p.sets
  pub own : (c d : String) (i : ℕ) → lookup c p.subs ≡ some i → lookup d p.subs ≡ some i → c ≡ d

module _ (p : Publisher) (v : IsValid p) (c : String) where
  -- A write to the set of `c` is seen on `c` alone.
  receivers-write :
      (d : String) (i : ℕ) (s : Handlers) (subs' : List (String × ℕ))
      → lookup c p.subs ≡ some i
      → lookup d subs' ≡ lookup d p.subs
      → receivers (record p { sets = write p.sets i s; subs = subs' }) d
        ≡ (if c == d then s else receivers p d)
  unfolding receivers
  receivers-write d i s subs' at same = elim (Option-cases (lookup d p.subs)) [
    | inl absent ↦ ground (arith, absent, eq_iff c d)
    | inr (k, found) ↦
        ground
          (arith, found, eq_iff c d, v.own c d i at, v.stored c i at, members-write p.sets i k s)
  ]

  -- A subscription adds the handler to its channel, behind those that are there, and changes no
  -- other channel.
  pub receivers-subscribe :
      (h : ℕ) (d : String)
      → p.closed ≡ false
      → receivers (subscribe c h p).0 d ≡ (if c == d then add (receivers p c) h else receivers p d)
  unfolding subscribe receivers
  receivers-subscribe h d running = elim (Option-cases (lookup c p.subs)) [
    | inl absent ↦ elim (Option-cases (lookup d p.subs)) [
      | inl none_d ↦ ground (
        arith,
        absent,
        none_d,
        lookup-insert c d (length p.sets) p.subs,
        members-append p.sets (length p.sets) (h ∷ []),
      )
      | inr (k, found) ↦ ground (
        arith,
        absent,
        found,
        eq_iff c d,
        lookup-insert c d (length p.sets) p.subs,
        v.stored d k found,
        members-append p.sets k (h ∷ []),
        members-append p.sets (length p.sets) (h ∷ []),
      )
    ]
    | inr (i, at) ↦
        ground (arith, at, receivers-write d i (add (members p.sets i) h) p.subs at refl)
  ]

  -- Calling what `subscribe` returned, while the channel still has the set that it was made with,
  -- takes the handler from its channel and changes no other channel.
  pub receivers-unsubscribe :
      (i h : ℕ) (d : String)
      → lookup c p.subs ≡ some i
      → receivers (unsubscribe (undo c i h) p) d
        ≡ (if c == d then delete (receivers p c) h else receivers p d)
  unfolding unsubscribe receivers
  receivers-unsubscribe i h d at =
      let left = delete (members p.sets i) h in
      elim (Bool-cases (is_empty left)) [
        | inl emptied ↦ ground (
          arith,
          at,
          emptied,
          eq_iff c d,
          is_empty-eq left,
          lookup-remove c d p.subs,
          receivers-write d i left p.subs at refl,
        )
        | inr kept ↦ ground (arith, at, kept, receivers-write d i left p.subs at refl)
      ]

-- The defect: the function outlives its set. Once the set that it was made with is empty, a second
-- call ends whatever subscriptions the channel has by then, although they are other handlers' in
-- another set.
pub stale_unsubscribe :
    (p : Publisher) (c : String) (i h : ℕ)
    → members p.sets i ≡ []
    → receivers (unsubscribe (undo c i h) p) c ≡ []
unfolding unsubscribe receivers
stale_unsubscribe p c i h empty = ground (arith, empty, eq_refl c, lookup-remove c c p.subs)

length-write : (ss : List Handlers) (i : ℕ) (s : Handlers) → length (write ss i s) ≡ length ss
length-write [] i s = refl
length-write (t ∷ ts) zero s = refl
length-write (t ∷ ts) (suc i) s = ap suc (length-write ts i s)

pub subscribe-IsValid :
    (c : String) (h : ℕ) (p : Publisher) → IsValid p → IsValid (subscribe c h p).0
unfolding subscribe
subscribe-IsValid c h p v = elim (Option-cases (lookup c p.subs)) [
  | inl absent ↦ record {
    stored = λ d k found. ground (
      arith,
      absent,
      v.stored d k,
      length-append p.sets ((h ∷ []) ∷ []),
      lookup-insert c d (length p.sets) p.subs,
      found,
    );
    own = λ d e k at_d at_e. ground (
      arith,
      absent,
      v.own d e k,
      v.stored d k,
      v.stored e k,
      eq_iff c d,
      eq_iff c e,
      lookup-insert c d (length p.sets) p.subs,
      lookup-insert c e (length p.sets) p.subs,
      at_d,
      at_e,
    );
  }
  | inr (i, at) ↦ record {
    stored = λ d k found.
        ground (arith, at, v.stored d k, length-write p.sets i (add (members p.sets i) h), found);
    own = λ d e k at_d at_e. ground (arith, at, v.own d e k, at_d, at_e);
  }
]

unsubscribe-IsValid : (u : Unsubscribe) (p : Publisher) → IsValid p → IsValid (unsubscribe u p)
unfolding unsubscribe
unsubscribe-IsValid no_op p v = v
unsubscribe-IsValid (undo c i h) p v =
    let left = delete (members p.sets i) h in
    record {
      stored = λ d k found.
          ground (arith, v.stored d k, length-write p.sets i left, lookup-remove c d p.subs, found);
      own = λ d e k at_d at_e.
          ground
            (arith, v.own d e k, lookup-remove c d p.subs, lookup-remove c e p.subs, at_d, at_e);
    }

close-IsValid : (p : Publisher) → IsValid p → IsValid (close p)
unfolding close lookup
close-IsValid p v = record { stored = λ c i e. cc; own = λ c d i e f. cc }

-- A use of the publisher.
pub data Use : Type 0 where
  subscribes : String → ℕ → Use
  unsubscribes : Unsubscribe → Use
  closes : Use

unfoldable pub use_one : Use → Publisher → Publisher
use_one (subscribes c h) p = (subscribe c h p).0
use_one (unsubscribes u) p = unsubscribe u p
use_one closes p = close p

unfoldable pub use_all : List Use → Publisher → Publisher
unfolding use_one
use_all [] p = p
use_all (u ∷ us) p = use_all us (use_one u p)

abbrev pub new_publisher : Publisher
new_publisher = record { sets = []; subs = []; closed = false }

use_all-IsValid : (us : List Use) (p : Publisher) → IsValid p → IsValid (use_all us p)
unfolding use_all use_one
use_all-IsValid [] p v = v
use_all-IsValid (subscribes c h ∷ us) p v = use_all-IsValid us _ (subscribe-IsValid c h p v)
use_all-IsValid (unsubscribes u ∷ us) p v = use_all-IsValid us _ (unsubscribe-IsValid u p v)
use_all-IsValid (closes ∷ us) p v = use_all-IsValid us _ (close-IsValid p v)

-- After any use of a new publisher, stale calls included, every channel has a set of the store and
-- no two channels share one.
pub use_all-new_publisher : (us : List Use) → IsValid (use_all us new_publisher)
unfolding lookup
use_all-new_publisher us =
    use_all-IsValid us new_publisher (record { stored = λ c i e. cc; own = λ c d i e f. cc })
