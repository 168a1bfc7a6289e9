-- ===== src/Realtime/Redis/Races.antt =====
-- Interleavings in which a publisher over a url opens a second connection that subscribes, and one in
-- which a connection outlives `close`.
use flowpanel.Base.{
  ℕ, String, true, false, ◌≡◌, refl, subst, Option, none, some, Option-cases, inl, inr, if_elim,
  get_elem?, List, [], ◌∷◌, ◌++◌, eq_refl, arith, length,
}
use flowpanel.Base.Dict.{lookup, lookup-insert_self}
use flowpanel.Realtime.{Json}
use flowpanel.Realtime.Memory.{
  Publisher, Handlers, Unsubscribe, undo, no_op, is_empty, delete, members, receivers,
}
use flowpanel.Realtime.Memory
use flowpanel.Realtime.Redis.{
  Setup, Call, Task, State, Target, wire_channel, channel_of, is_quit, wired, listening,
  subscribes_to, unsubscribes_from, add_call, take_subscriber, got_subscriber, subscribe_on,
  load_publisher, got_publisher, publish_on, unwatches, call_each, open_connection, load_subscriber,
}
use flowpanel.Realtime.Redis.Operations.{
  start_subscriber, subscribe, unsubscribe, publish, target_is_quit, close, run, dispatched,
  delivered,
}
use flowpanel.Realtime.Redis.Wire.{channel_of-wire_channel}
use flowpanel.Realtime.Redis.Steps.{
  resume, without, Step, subscribes, unsubscribes, publishes, resumes, closes, Later, now, after,
}

is_quit-call_each_unwatches :
    {T : Type 0} (k : ℕ) (ts : List Target) (calls : List (Call T))
    → is_quit k (call_each unwatches ts calls) ≡ is_quit k calls
unfolding is_quit
is_quit-call_each_unwatches k [] calls = refl
is_quit-call_each_unwatches k (t ∷ ts) calls =
    is_quit-call_each_unwatches k ts (unwatches t ∷ calls)

-- The publisher is closed, and connection `k` has not been quit.
abbrev Forgets : {T : Type 0} → ℕ → State T → Type 0
Forgets k s = (s.handlers.closed ≡ true) × (is_quit k s.calls ≡ false)

module _ (setup : Setup) {T : Type 0} (k : ℕ) where
  run-Forgets : (t : Task T) (s : State T) → Forgets k s → Forgets k (run setup t s)
  unfolding run open_connection take_subscriber is_quit
  run-Forgets (load_subscriber c) s v = if_elim (Forgets k) setup.installed _ _ (λ h. v) (λ h. v)
  run-Forgets (got_subscriber m c) s v = v
  run-Forgets (subscribe_on m c) s v = if_elim (Forgets k) (is_quit m s.calls) _ _ (λ h. v) (λ h. v)
  run-Forgets (load_publisher c b) s v = if_elim (Forgets k) setup.installed _ _ (λ h. v) (λ h. v)
  run-Forgets (got_publisher m c b) s v = v
  run-Forgets (publish_on t c b) s v =
      if_elim (Forgets k) (target_is_quit t s.calls) _ _ (λ h. v) (λ h. v)

  resume-Forgets : (i : ℕ) (s : State T) → Forgets k s → Forgets k (resume setup i s)
  unfolding resume
  resume-Forgets i s v = elim (Option-cases (get_elem? s.tasks i)) [
    | inl e ↦ subst (Forgets k) {x = s} {y = resume setup i s} (ground (arith, e)) v
    | inr (t, e) ↦
        let rest : State T = record s { tasks = without i s.tasks } in
        subst (Forgets k) {x = run setup t rest} {y = resume setup i s} (ground (arith, e))
          (run-Forgets t rest v)
  ]

  subscribe-Forgets :
      (c : String) (h : ℕ) (s : State T) → Forgets k s → Forgets k (subscribe setup c h s).0
  unfolding subscribe
  subscribe-Forgets c h s v = ground (arith, v)

  unsubscribe-Forgets :
      (u : Unsubscribe) (s : State T) → Forgets k s → Forgets k (unsubscribe setup u s)
  unfolding unsubscribe Memory.unsubscribe is_quit
  unsubscribe-Forgets no_op s v = v
  unsubscribe-Forgets (undo c i h) s v =
      let s' : State T = record s { handlers = Memory.unsubscribe (undo c i h) s.handlers } in
      let kept : Forgets k s' = ground (arith, v) in
      let wire = wire_channel setup.key_prefix c in
      if_elim (Forgets k) (is_empty (delete (members s.handlers.sets i) h)) _ _
        (λ e.
          elim s.sub
            as (λ (o : Option ℕ).
              Forgets {T = T} k
                (elim o [ none ↦ s' | some m ↦ add_call (unsubscribes_from m wire) s' ])) [
                  | none ↦ kept
                  | some m ↦ kept
                ])
        (λ e. kept)

  close-Forgets : (s : State T) → Forgets k s → Forgets k (close s)
  unfolding close
  close-Forgets s v = ground (arith, v)

module _ (j : Json) (setup : Setup) where
  Step-Forgets : (k : ℕ) {s t : State j.Text} → Step j setup s t → Forgets k s → Forgets k t
  unfolding publish
  Step-Forgets k {s} (subscribes c h) v = subscribe-Forgets setup k c h s v
  Step-Forgets k {s} (unsubscribes u) v = unsubscribe-Forgets setup k u s v
  Step-Forgets k {s} (publishes c p t e) v = absurd (ground (arith, v, e))
  Step-Forgets k {s} (resumes i) v = resume-Forgets setup k i s v
  Step-Forgets k {s} closes v = close-Forgets setup k s v

  Later-Forgets : (k : ℕ) {s t : State j.Text} → Later j setup s t → Forgets k s → Forgets k t
  Later-Forgets k now v = v
  Later-Forgets k (after l st) v = Step-Forgets k st (Later-Forgets k l v)

  -- The defect: a connection that is still opening when the publisher is closed is opened all the same
  -- and owned by the closed publisher, and no later steps quit it, whatever the program calls and
  -- whichever tasks run.
  pub close_while_connecting :
      (s : State j.Text) (c : String) (rest : List (Task j.Text)) {t : State j.Text}
      → s.tasks ≡ load_subscriber c ∷ rest
      → s.handlers.closed ≡ false
      → setup.installed ≡ true
      → s.owned ≡ []
      → is_quit s.opened s.calls ≡ false
      → Later j setup (resume setup 0 (close s)) t
      → ((resume setup 0 (close s)).owned ≡ s.opened ∷ []) × (is_quit s.opened t.calls ≡ false)
  unfolding close resume run open_connection Memory.close is_quit
  close_while_connecting s c rest e o i n q later =
      let quiet = is_quit-call_each_unwatches s.opened s.watched s.calls in
      let forgets : Forgets s.opened (resume setup 0 (close s)) =
        ground (arith, e, o, i, n, q, quiet) in
      (ground (arith, e, o, i, n, q, quiet), (Later-Forgets s.opened later forgets).1)

members-last : (sets : List Handlers) (s : Handlers) → members (sets ++ s ∷ []) (length sets) ≡ s
members-last [] s = refl
members-last (t ∷ ts) s = members-last ts s

-- The first subscription to a channel is its only one.
first_receiver :
    (p : Publisher) (c : String) (h : ℕ)
    → p.closed ≡ false
    → lookup c p.subs ≡ none
    → receivers (Memory.subscribe c h p).0 c ≡ h ∷ []
unfolding receivers Memory.subscribe
first_receiver p c h still absent = ground (
  arith,
  still,
  absent,
  lookup-insert_self c (length p.sets) p.subs,
  members-last p.sets (h ∷ []),
)

module _ (setup : Setup) {T : Type 0} (s : State T) (c : String) where
  known_subscriber :
      (k h : ℕ)
      → s.handlers.closed ≡ false
      → s.tasks ≡ []
      → s.sub ≡ some k
      → is_quit k s.calls ≡ false
      → lookup c s.handlers.subs ≡ none
      → resume setup 0 (subscribe setup c h s).0 ≡ record s {
        handlers = (Memory.subscribe c h s.handlers).0;
        calls = subscribes_to k (wire_channel setup.key_prefix c) ∷ s.calls;
      }
  unfolding resume run subscribe start_subscriber Memory.subscribe
  known_subscriber k h still idle on runs absent = ground (arith, still, idle, on, runs, absent)

  -- The defect: `subscriber()` forgets the connection that an earlier call of it opened, when both
  -- were waiting for `ioredis` to load, and `unsubscribe` reaches only the later one. A channel that
  -- was left is then still subscribed on the first connection; the next subscription to it is made on
  -- the second, and every message calls its handler twice.
  pub two_subscribers :
      (h : ℕ)
      → s.handlers.closed ≡ false
      → s.tasks ≡ []
      → s.sub ≡ some 1
      → is_quit 1 s.calls ≡ false
      → lookup c s.handlers.subs ≡ none
      → wired 0 (wire_channel setup.key_prefix c) s.calls ≡ true
      → listening 0 s.calls ≡ true
      → listening 1 s.calls ≡ true
      → delivered setup 2
          (wire_channel setup.key_prefix c)
          (resume setup 0 (subscribe setup c h s).0)
        ≡ h ∷ h ∷ []
  unfolding delivered dispatched wired listening
  two_subscribers h still idle on runs absent w l0 l1 =
      let wire = wire_channel setup.key_prefix c in
      let reached : receivers (Memory.subscribe c h s.handlers).0 (channel_of setup.key_prefix wire)
          ≡ h ∷ [] =
        rw (channel_of-wire_channel setup.key_prefix c)
          (first_receiver s.handlers c h still absent) in
      rw (known_subscriber 1 h still idle on runs absent)
        (ground (arith, w, l0, l1, eq_refl wire, reached))
