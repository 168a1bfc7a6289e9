-- ===== src/Realtime/Redis/Served.antt =====
-- The invariant of a publisher over Redis, on every interleaving of calls and tasks.
use flowpanel.Base.{
  ℕ, zero, suc, String, Bool, true, false, ◌≡◌, refl, subst, none, some, List, [], ◌∷◌, ◌==◌, ◌||◌,
  eq_iff, get_elem?, any, arith, inl, inr, Option-cases, Bool-cases, if_elim, length,
}
use flowpanel.Base.Dict.{lookup, lookup-insert, lookup-remove}
use flowpanel.Realtime.{Json}
use flowpanel.Realtime.Memory.{Publisher, Unsubscribe, undo, no_op, is_empty, delete, members}
use flowpanel.Realtime.Memory
use flowpanel.Realtime.Redis.{
  Setup, State, wire_channel, wired, unsubscribes_from, add_call, subscribed_closed,
}
use flowpanel.Realtime.Redis.Operations.{
  fresh, start_subscriber, start_publisher, subscribe, unsubscribe, close, run,
}
use flowpanel.Realtime.Redis.Wire.{wire_channel-ne}
use flowpanel.Realtime.Redis.Steps.{
  resume, without, Step, subscribes, unsubscribes, publishes, resumes, closes, Reach, created, next,
  create-eq-ok, publish-eq-ok, run-handlers, start_subscriber-handlers, start_publisher-handlers,
}
use flowpanel.Realtime.Redis.Covered.{
  Covered, Covered-mono, is_for, start_subscriber-Covered, start_publisher-Covered,
  start_subscriber_covers, run-Covered, run_covers,
}

any-without {ℓ} :
    {A : Type ℓ} (p : A → Bool) (i : ℕ) (xs : List A) (x : A)
    → get_elem? xs i ≡ some x
    → any p xs ≡ (p x || any p (without i xs))
any-without p i [] x h = cc
any-without p zero (y ∷ xs) x h = ground arith
any-without p (suc i) (y ∷ xs) x h = ground (arith, any-without p i xs x)

module _ (setup : Setup) {T : Type 0} where
  -- A task that runs keeps every channel covered.
  resume-Covered :
      (i : ℕ) (c : String) (s : State T) → Covered setup s c → Covered setup (resume setup i s) c
  unfolding resume
  resume-Covered i c s v = elim (Option-cases (get_elem? s.tasks i)) [
    | inl e ↦ subst (λ t. Covered setup t c) {x = s} {y = resume setup i s} (ground (arith, e)) v
    | inr (t, e) ↦
        let rest : State T = record s { tasks = without i s.tasks } in
        let done : Covered setup (run setup t rest) c = elim v [
          | inl w ↦ run-Covered setup t c rest (inl w)
          | inr (inl p) ↦ elim (Bool-cases (is_for c t)) [
            | inl mine ↦ run_covers setup t c rest mine
            | inr other ↦
                run-Covered setup t c rest
                  (inr (inl (ground (arith, other, any-without (is_for c) i s.tasks t e))))
          ]
          | inr (inr f) ↦ run-Covered setup t c rest (inr (inr f))
        ] in
        subst (λ t. Covered setup t c) {x = run setup t rest} {y = resume setup i s}
          (ground (arith, e)) done
  ]

  resume-handlers : (i : ℕ) (s : State T) → (resume setup i s).handlers ≡ s.handlers
  unfolding resume
  resume-handlers i s = elim (Option-cases (get_elem? s.tasks i)) [
    | inl e ↦ ground (arith, e)
    | inr (t, e) ↦ ground (arith, e, run-handlers setup t (record s { tasks = without i s.tasks }))
  ]

  -- Once closed there are no handlers; and every channel with handlers is covered.
  pub record IsServed (s : State T) : Type 0 where
    pub ended : s.handlers.closed ≡ true → (c : String) → lookup c s.handlers.subs ≡ none
    pub served : (c : String) (i : ℕ) → lookup c s.handlers.subs ≡ some i → Covered setup s c

  subscribe_first-IsServed :
      (c : String) (h : ℕ) (s : State T)
      → s.handlers.closed ≡ false
      → lookup c s.handlers.subs ≡ none
      → IsServed s
      → IsServed
          (start_subscriber setup c (record s { handlers = (Memory.subscribe c h s.handlers).0 }))
  unfolding Memory.subscribe
  subscribe_first-IsServed c h s still absent v =
      let p : Publisher = (Memory.subscribe c h s.handlers).0 in
      let s' : State T = record s { handlers = p } in
      let same = start_subscriber-handlers setup c s' in
      let covers : (d : String) (i : ℕ)
          → lookup d p.subs ≡ some i
          → Covered setup (start_subscriber setup c s') d =
        λ d i e. elim (Bool-cases (c == d)) [
          | inl mine ↦
              subst (Covered setup (start_subscriber setup c s')) ((eq_iff c d).0 mine)
                (start_subscriber_covers setup c s')
          | inr other ↦ start_subscriber-Covered setup c d s' (
              v.served d i (
                ground (
                  arith,
                  still,
                  absent,
                  other,
                  e,
                  lookup-insert c d (length s.handlers.sets) s.handlers.subs,
                )))
        ] in
      record {
        ended = λ shut d. absurd (ground (arith, still, absent, shut, same));
        served = λ d i e. covers d i (subst (λ q. lookup d q.subs ≡ some i) same e);
      }

  subscribe-IsServed :
      (c : String) (h : ℕ) (s : State T) → IsServed s → IsServed (subscribe setup c h s).0
  unfolding subscribe Memory.subscribe
  subscribe-IsServed c h s v = elim (Bool-cases s.handlers.closed) [
    | inl shut ↦ elim (Bool-cases s.warned_closed) [
      | inl warned ↦
          subst IsServed {x = s} {y = (subscribe setup c h s).0} (ground (arith, shut, warned)) v
      | inr silent ↦
          let s' : State T = record s {
            warned_closed = true;
            reports = subscribed_closed c ∷ s.reports;
          } in
          subst IsServed {x = s'} {y = (subscribe setup c h s).0} (ground (arith, shut, silent))
            (record { ended = v.ended; served = λ d i e. ground (arith, v.ended shut d, e) })
    ]
    | inr still ↦ elim (Option-cases (lookup c s.handlers.subs)) [
      | inl absent ↦
          subst IsServed
            {x = start_subscriber setup c
              (record s { handlers = (Memory.subscribe c h s.handlers).0 })}
            {y = (subscribe setup c h s).0} (ground (arith, still, absent))
            (subscribe_first-IsServed c h s still absent v)
      | inr (i, at) ↦
          subst IsServed {x = record s { handlers = (Memory.subscribe c h s.handlers).0 }}
            {y = (subscribe setup c h s).0} (ground (arith, still, at))
            (record {
              ended = λ shut d. absurd (ground (arith, still, at, shut));
              served = λ d k e. v.served d k (ground (arith, still, at, e));
            })
    ]
  ]

  unsubscribe-IsServed :
      (u : Unsubscribe) (s : State T) → IsServed s → IsServed (unsubscribe setup u s)
  unfolding unsubscribe Memory.unsubscribe wired
  unsubscribe-IsServed no_op s v = v
  unsubscribe-IsServed (undo c i h) s v =
      let s' : State T = record s { handlers = Memory.unsubscribe (undo c i h) s.handlers } in
      let out : State T = unsubscribe setup (undo c i h) s in
      let left = is_empty (delete (members s.handlers.sets i) h) in
      let kept : IsServed s' = record {
        ended =
            λ shut d. ground (arith, v.ended (ground arith) d, lookup-remove c d s.handlers.subs);
        served = λ d k e. v.served d k (ground (arith, e, lookup-remove c d s.handlers.subs));
      } in
      elim (Bool-cases left) [
        | inr some_left ↦ subst IsServed {x = s'} {y = out} (ground (arith, some_left)) kept
        | inl emptied ↦ elim (Option-cases s.sub) [
          | inl idle ↦ subst IsServed {x = s'} {y = out} (ground (arith, emptied, idle)) kept
          | inr (k, on) ↦
              let wire = wire_channel setup.key_prefix in
              let s'' : State T = add_call (unsubscribes_from k (wire c)) s' in
              subst IsServed {x = s''} {y = out} (ground (arith, emptied, on)) (record {
                ended = kept.ended;
                served = λ d n e.
                    let ne : (c == d) ≡ false =
                      ground (arith, emptied, e, lookup-remove c d s.handlers.subs) in
                    Covered-mono setup s' s'' d
                      (λ m w. ground (arith, w, wire_channel-ne setup.key_prefix c d ne)) (λ p. p)
                      (λ f. f) (kept.served d n e);
              })
        ]
      ]

  close-IsServed : (s : State T) → IsServed s → IsServed (close s)
  unfolding close Memory.close lookup
  close-IsServed s v =
      if_elim IsServed s.handlers.closed _ _ (λ h. v)
        (λ h. record { ended = λ h c. refl; served = λ c i e. cc })

  resume-IsServed : (i : ℕ) (s : State T) → IsServed s → IsServed (resume setup i s)
  resume-IsServed i s v =
      let same = resume-handlers i s in
      record {
        ended = λ shut c. rw same (v.ended (rw same at shut) c);
        served = λ c k e. resume-Covered i c s (v.served c k (rw same at e));
      }

  start_publisher-IsServed :
      (c : String) (b : T) (s : State T) → IsServed s → IsServed (start_publisher setup c b s)
  start_publisher-IsServed c b s v =
      let same = start_publisher-handlers setup c b s in
      record {
        ended = λ shut d. rw same (v.ended (rw same at shut) d);
        served = λ d k e. start_publisher-Covered setup c d s b (v.served d k (rw same at e));
      }

  fresh-IsServed : IsServed (fresh setup)
  unfolding lookup
  fresh-IsServed = record { ended = λ h c. cc; served = λ c i e. cc }

module _ (j : Json) (setup : Setup) where
  Step-IsServed : {s t : State j.Text} → Step j setup s t → IsServed setup s → IsServed setup t
  Step-IsServed {s} (subscribes c h) v = subscribe-IsServed setup c h s v
  Step-IsServed {s} (unsubscribes u) v = unsubscribe-IsServed setup u s v
  Step-IsServed {s} (publishes c p t e) v =
      let (b, _, _, done) = publish-eq-ok j setup c p s t e in
      subst (IsServed setup) done (start_publisher-IsServed setup c b s v)
  Step-IsServed {s} (resumes i) v = resume-IsServed setup i s v
  Step-IsServed {s} closes v = close-IsServed setup s v

  -- However calls of `subscribe`, of what it returned, of `publish` and of `close` interleave with
  -- the tasks that they leave pending, no channel with handlers is forgotten: some connection is
  -- subscribed to its wire channel, or a task that will subscribe one is pending, or the failure
  -- was reported; and once closed no channel has handlers.
  pub Reach-IsServed : {s : State j.Text} → Reach j setup s → IsServed setup s
  Reach-IsServed (created s e) =
      subst (IsServed setup) (create-eq-ok setup s e) (fresh-IsServed setup)
  Reach-IsServed (next r st) = Step-IsServed st (Reach-IsServed r)
