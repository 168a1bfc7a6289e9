-- ===== src/Realtime/Redis/Single.antt =====
-- Every interleaving keeps to one connection that subscribes, over a client that can duplicate itself.
use flowpanel.Base.{
  ℕ, String, true, false, ◌≡◌, refl, subst, Option, none, some, ◌∷◌, ◌&&◌, get_elem?, arith, inl,
  inr, Option-cases, Bool-cases, if_elim,
}
use flowpanel.Base.Dict.{lookup}
use flowpanel.Realtime.{Json}
use flowpanel.Realtime.Memory.{
  Publisher, Unsubscribe, undo, no_op, is_empty, delete, members, receivers,
}
use flowpanel.Realtime.Memory
use flowpanel.Realtime.Redis.{
  Setup, Task, State, host, own, wire_channel, is_quit, wired, listening, unsubscribes_from,
  subscribes_to, publishes_on, add_call, subscribed_closed, open_connection, take_subscriber,
  load_subscriber, got_subscriber, subscribe_on, load_publisher, got_publisher, publish_on,
  subscribe_failed,
}
use flowpanel.Realtime.Redis.Operations.{
  fresh, start_subscriber, start_publisher, subscribe, unsubscribe, run,
}
use flowpanel.Realtime.Redis.Steps.{
  resume, without, Step, subscribes, unsubscribes, publishes, resumes, closes, Reach, created, next,
  create-eq-ok, publish-eq-ok, start_subscriber_cases, start_publisher_cases,
}
use flowpanel.Realtime.Redis.Once.{
  is_single, IsSingle, add_task-IsSingle, all-without, all_get, duplicate-IsSingle, report-IsSingle,
  handlers-IsSingle, call-IsSingle, close-IsSingle,
}

module _ (setup : Setup) {T : Type 0} (twin : (setup.client && setup.duplicates) ≡ true) where
  start_subscriber-IsSingle :
      (c : String) (s : State T)
      → s.handlers.closed ≡ false
      → IsSingle s
      → IsSingle (start_subscriber setup c s)
  unfolding take_subscriber open_connection
  start_subscriber-IsSingle c s still v =
      start_subscriber_cases setup s IsSingle c
        (λ k e. add_task-IsSingle (subscribe_on k c) s (ground (arith, v.sub_first k e)) v)
        (λ e h.
          add_task-IsSingle (subscribe_on s.opened c) (take_subscriber s.opened (open_connection s))
            (ground (arith, v.sub_none e still)) (duplicate-IsSingle s e still v))
        (λ h. cc) (λ h. cc)

  start_publisher-IsSingle :
      (c : String) (b : T) (s : State T) → IsSingle s → IsSingle (start_publisher setup c b s)
  start_publisher-IsSingle c b s v =
      start_publisher_cases setup s IsSingle c b
        (λ t e. add_task-IsSingle (publish_on t c b) s (ground (arith, v.host_publishes t e)) v)
        (λ h.
          let v' = add_task-IsSingle (publish_on host c b) s refl v in
          record {
            few = v'.few;
            host_publishes = λ t e. cc;
            sub_first = v'.sub_first;
            sub_none = v'.sub_none;
            tasks_single = v'.tasks_single;
            wired_first = v'.wired_first;
            heard = v'.heard;
            running = v'.running;
            sound = v'.sound;
          })
        (λ h. absurd (ground arith)) (λ h. absurd (ground arith))

  run-IsSingle :
      (t : Task T) (s : State T)
      → is_single s.opened t ≡ true
      → IsSingle s
      → IsSingle (run setup t s)
  unfolding run wired is_quit listening
  run-IsSingle (subscribe_on k c) s h v =
      if_elim IsSingle (is_quit k s.calls) _ _
        (λ q.
          report-IsSingle s (subscribe_failed c) (λ o d. absurd (ground (arith, v.running o))) v)
        (λ q.
          call-IsSingle s (subscribes_to k (wire_channel setup.key_prefix c))
            (λ m w e. ground (arith, v.wired_first m w)) refl refl v)
  run-IsSingle (publish_on host c b) s h v =
      call-IsSingle s (publishes_on host (wire_channel setup.key_prefix c) b) v.wired_first refl
        refl v
  run-IsSingle (publish_on (own k) c b) s h v = cc
  run-IsSingle (load_subscriber c) s h v = cc
  run-IsSingle (got_subscriber k c) s h v = cc
  run-IsSingle (load_publisher c b) s h v = cc
  run-IsSingle (got_publisher k c b) s h v = cc

  resume-IsSingle : (i : ℕ) (s : State T) → IsSingle s → IsSingle (resume setup i s)
  unfolding resume
  resume-IsSingle i s v = elim (Option-cases (get_elem? s.tasks i)) [
    | inl e ↦ subst IsSingle {x = s} {y = resume setup i s} (ground (arith, e)) v
    | inr (t, e) ↦
        let rest : State T = record s { tasks = without i s.tasks } in
        let rest-IsSingle : IsSingle rest = record {
          few = v.few;
          host_publishes = v.host_publishes;
          sub_first = v.sub_first;
          sub_none = v.sub_none;
          tasks_single = all-without (is_single s.opened) i s.tasks v.tasks_single;
          wired_first = v.wired_first;
          heard = v.heard;
          running = v.running;
          sound = v.sound;
        } in
        subst IsSingle {x = run setup t rest} {y = resume setup i s} (ground (arith, e)) (
          run-IsSingle t rest (all_get (is_single s.opened) i s.tasks t v.tasks_single e)
            rest-IsSingle)
  ]

  subscribe-IsSingle :
      (c : String) (h : ℕ) (s : State T) → IsSingle s → IsSingle (subscribe setup c h s).0
  unfolding subscribe Memory.subscribe
  subscribe-IsSingle c h s v =
      let out : State T = (subscribe setup c h s).0 in
      let warned-IsSingle : IsSingle
          (record s { warned_closed = true; reports = subscribed_closed c ∷ s.reports }) =
        let v' = report-IsSingle s (subscribed_closed c) (λ o d. refl) v in
        record {
          few = v'.few;
          host_publishes = v'.host_publishes;
          sub_first = v'.sub_first;
          sub_none = v'.sub_none;
          tasks_single = v'.tasks_single;
          wired_first = v'.wired_first;
          heard = v'.heard;
          running = v'.running;
          sound = v'.sound;
        } in
      elim (Bool-cases s.handlers.closed) [
        | inl shut ↦ elim (Bool-cases s.warned_closed) [
          | inl warned ↦ subst IsSingle {x = s} {y = out} (ground (arith, shut, warned)) v
          | inr silent ↦
              subst IsSingle
                {x = record s { warned_closed = true; reports = subscribed_closed c ∷ s.reports }}
                {y = out} (ground (arith, shut, silent)) warned-IsSingle
        ]
        | inr still ↦
            let p : Publisher = (Memory.subscribe c h s.handlers).0 in
            let s' : State T = record s { handlers = p } in
            let kept : IsSingle s' = handlers-IsSingle s p (ground (arith, still)) v in
            elim (Option-cases (lookup c s.handlers.subs)) [
              | inl absent ↦
                  subst IsSingle {x = start_subscriber setup c s'} {y = out}
                    (ground (arith, still, absent))
                    (start_subscriber-IsSingle c s' (ground (arith, still, absent)) kept)
              | inr (i, at) ↦ subst IsSingle {x = s'} {y = out} (ground (arith, still, at)) kept
            ]
      ]

  unsubscribe-IsSingle :
      (u : Unsubscribe) (s : State T) → IsSingle s → IsSingle (unsubscribe setup u s)
  unfolding unsubscribe Memory.unsubscribe wired is_quit listening
  unsubscribe-IsSingle no_op s v = v
  unsubscribe-IsSingle (undo c i h) s v =
      let p : Publisher = Memory.unsubscribe (undo c i h) s.handlers in
      let s' : State T = record s { handlers = p } in
      let kept : IsSingle s' = handlers-IsSingle s p (ground arith) v in
      let wire = wire_channel setup.key_prefix c in
      if_elim IsSingle (is_empty (delete (members s.handlers.sets i) h)) _ _
        (λ e.
          elim s.sub
            as (λ (o : Option ℕ).
              IsSingle {T = T}
                (elim o [ none ↦ s' | some k ↦ add_call (unsubscribes_from k wire) s' ])) [
                  | none ↦ kept
                  | some k ↦
                      call-IsSingle s' (unsubscribes_from k wire)
                        (λ m w e. ground (arith, v.wired_first m w)) refl refl kept
                ])
        (λ e. kept)

module _ (j : Json) (setup : Setup) (twin : (setup.client && setup.duplicates) ≡ true) where
  Step-IsSingle : {s t : State j.Text} → Step j setup s t → IsSingle s → IsSingle t
  Step-IsSingle {s} (subscribes c h) v = subscribe-IsSingle setup twin c h s v
  Step-IsSingle {s} (unsubscribes u) v = unsubscribe-IsSingle setup twin u s v
  Step-IsSingle {s} (publishes c p t e) v =
      let (b, _, _, done) = publish-eq-ok j setup c p s t e in
      subst IsSingle done (start_publisher-IsSingle setup twin c b s v)
  Step-IsSingle {s} (resumes i) v = resume-IsSingle setup twin i s v
  Step-IsSingle {s} closes v = close-IsSingle s v

  fresh-IsSingle : IsSingle {T = j.Text} (fresh setup)
  unfolding wired is_quit listening
  fresh-IsSingle = record {
    few = omega arith;
    host_publishes = λ t e. cc;
    sub_first = λ k e. cc;
    sub_none = λ e o. refl;
    tasks_single = refl;
    wired_first = λ k w e. ground arith;
    heard = λ o. cc;
    running = λ o. ground arith;
    sound = λ o c. refl;
  }

  pub Reach-IsSingle : {s : State j.Text} → Reach j setup s → IsSingle s
  Reach-IsSingle (created s e) = subst IsSingle (create-eq-ok setup s e) fresh-IsSingle
  Reach-IsSingle (next r st) = Step-IsSingle st (Reach-IsSingle r)
