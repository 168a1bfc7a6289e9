-- ===== src/Realtime/Redis/Covered.antt =====
-- No channel with handlers is forgotten: however calls and tasks interleave, it is subscribed on some
-- connection, on its way to be, or reported as failed.
use flowpanel.Base.{
  ℕ, String, Bool, true, false, ◌≡◌, some, [], ◌∷◌, ◌++◌, ◌==◌, eq_iff, eq_refl, any, any-append,
  arith, ◌⊎◌, inl, inr, if_elim,
}
use flowpanel.Realtime.Redis.{
  host, Target, publishes_on, Setup, own, Task, load_subscriber, got_subscriber, subscribe_on,
  load_publisher, got_publisher, publish_on, Report, subscribe_failed, publish_failed,
  subscribed_closed, State, wire_channel, add_task, add_call, add_report, subscribes_to, is_quit,
  wired, open_connection, take_subscriber,
}
use flowpanel.Realtime.Redis.Operations.{start_subscriber, start_publisher, run, target_is_quit}
use flowpanel.Realtime.Redis.Steps.{start_subscriber_cases, start_publisher_cases}

-- The task is the rest of a subscription to the channel.
abbrev pub is_for : {T : Type 0} → String → Task T → Bool
is_for c (load_subscriber d) = d == c
is_for c (got_subscriber k d) = d == c
is_for c (subscribe_on k d) = d == c
is_for c (load_publisher d b) = false
is_for c (got_publisher k d b) = false
is_for c (publish_on t d b) = false

abbrev pub is_failure : String → Report → Bool
is_failure c (subscribe_failed d) = d == c
is_failure c (publish_failed d) = false
is_failure c (subscribed_closed d) = false

module _ (setup : Setup) {T : Type 0} where
  -- Some connection is subscribed to the channel's wire channel, a task will subscribe one, or the
  -- failure to do so was reported.
  abbrev pub Covered : State T → String → Type 0
  Covered s c =
      ((k : ℕ) × (wired k (wire_channel setup.key_prefix c) s.calls ≡ true))
      ⊎ (any (is_for c) s.tasks ≡ true)
      ⊎ (any (is_failure c) s.reports ≡ true)

  pub Covered-mono :
      (s t : State T) (c : String)
      → ((k : ℕ)
          → wired k (wire_channel setup.key_prefix c) s.calls ≡ true
          → wired k (wire_channel setup.key_prefix c) t.calls ≡ true)
      → (any (is_for c) s.tasks ≡ true → any (is_for c) t.tasks ≡ true)
      → (any (is_failure c) s.reports ≡ true → any (is_failure c) t.reports ≡ true)
      → Covered s c
      → Covered t c
  Covered-mono s t c w p f (inl (k, h)) = inl (k, w k h)
  Covered-mono s t c w p f (inr (inl h)) = inr (inl (p h))
  Covered-mono s t c w p f (inr (inr h)) = inr (inr (f h))

  module _ (d c : String) (s : State T) where
    task-Covered : (t : Task T) → Covered s c → Covered (add_task t s) c
    task-Covered t =
        Covered-mono s (add_task t s) c (λ k h. h)
          (λ h. ground (arith, any-append (is_for c) s.tasks (t ∷ []))) (λ h. h)

    task_covers : (t : Task T) → is_for c t ≡ true → Covered (add_task t s) c
    task_covers t h = inr (inl (ground (arith, any-append (is_for c) s.tasks (t ∷ []))))

    report-Covered : (r : Report) → Covered s c → Covered (add_report r s) c
    report-Covered r = Covered-mono s (add_report r s) c (λ k h. h) (λ h. h) (λ h. ground arith)

    open_connection-Covered : Covered s c → Covered (open_connection s) c
    unfolding open_connection wired
    open_connection-Covered = Covered-mono s (open_connection s) c (λ k h. h) (λ h. h) (λ h. h)

    take_subscriber-Covered : (k : ℕ) → Covered s c → Covered (take_subscriber k s) c
    unfolding take_subscriber wired
    take_subscriber-Covered k = Covered-mono s (take_subscriber k s) c (λ k h. h) (λ h. h) (λ h. h)

    call-Covered :
        (k : ℕ)
        → Covered s c
        → Covered (add_call (subscribes_to k (wire_channel setup.key_prefix d)) s) c
    unfolding wired
    call-Covered k =
        Covered-mono s (add_call (subscribes_to k (wire_channel setup.key_prefix d)) s) c
          (λ j h. ground arith) (λ h. h) (λ h. h)

    publish-Covered :
        (t : Target) (b : T)
        → Covered s c
        → Covered (add_call (publishes_on t (wire_channel setup.key_prefix d) b) s) c
    unfolding wired
    publish-Covered t b =
        Covered-mono s (add_call (publishes_on t (wire_channel setup.key_prefix d) b) s) c
          (λ k h. h) (λ h. h) (λ h. h)

    pub start_subscriber-Covered : Covered s c → Covered (start_subscriber setup d s) c
    unfolding open_connection take_subscriber wired
    start_subscriber-Covered v =
        start_subscriber_cases setup s (λ t. Covered t c) d
          (λ k e. task-Covered (subscribe_on k d) v)
          (λ e h.
            Covered-mono s
              (add_task (subscribe_on s.opened d) (take_subscriber s.opened (open_connection s))) c
              (λ k h. h)
              (λ h. ground (arith, any-append (is_for c) s.tasks (subscribe_on s.opened d ∷ [])))
              (λ h. h) v)
          (λ h. task-Covered (load_subscriber d) v) (λ h. report-Covered (subscribe_failed d) v)

    pub start_publisher-Covered : (b : T) → Covered s c → Covered (start_publisher setup d b s) c
    start_publisher-Covered b v =
        start_publisher_cases setup s (λ t. Covered t c) d b
          (λ t e. task-Covered (publish_on t d b) v)
          (λ h.
            Covered-mono s
              (record s { pub_target = some host; tasks = s.tasks ++ publish_on host d b ∷ [] }) c
              (λ k h. h)
              (λ h. ground (arith, any-append (is_for c) s.tasks (publish_on host d b ∷ [])))
              (λ h. h) v)
          (λ h. task-Covered (load_publisher d b) v) (λ h. report-Covered (publish_failed d) v)

  -- What a first subscription starts covers its channel.
  pub start_subscriber_covers : (c : String) (s : State T) → Covered (start_subscriber setup c s) c
  unfolding open_connection take_subscriber
  start_subscriber_covers c s =
      start_subscriber_cases setup s (λ t. Covered t c) c
        (λ k e. task_covers c c s (subscribe_on k c) (eq_refl c))
        (λ e h.
          task_covers c c (take_subscriber s.opened (open_connection s)) (subscribe_on s.opened c)
            (eq_refl c))
        (λ h. task_covers c c s (load_subscriber c) (eq_refl c))
        (λ h. inr (inr (ground (arith, eq_refl c))))

  -- A task that runs leaves every channel covered.
  pub run-Covered :
      (t : Task T) (c : String) (s : State T) → Covered s c → Covered (run setup t s) c
  unfolding run
  run-Covered (load_subscriber d) c s v =
      if_elim (λ t. Covered t c) setup.installed _ _
        (λ h.
          task-Covered d c (open_connection s) (got_subscriber s.opened d)
            (open_connection-Covered d c s v))
        (λ h. report-Covered d c s (subscribe_failed d) v)
  run-Covered (got_subscriber k d) c s v =
      task-Covered d c (take_subscriber k s) (subscribe_on k d) (take_subscriber-Covered d c s k v)
  run-Covered (subscribe_on k d) c s v =
      if_elim (λ t. Covered t c) (is_quit k s.calls) _ _
        (λ h. report-Covered d c s (subscribe_failed d) v) (λ h. call-Covered d c s k v)
  run-Covered (load_publisher d b) c s v =
      if_elim (λ t. Covered t c) setup.installed _ _
        (λ h.
          task-Covered d c (open_connection s) (got_publisher s.opened d b)
            (open_connection-Covered d c s v))
        (λ h. report-Covered d c s (publish_failed d) v)
  run-Covered (got_publisher k d b) c s v =
      Covered-mono s (run setup (got_publisher k d b) s) c (λ k h. h)
        (λ h. ground (arith, any-append (is_for c) s.tasks (publish_on (own k) d b ∷ []))) (λ h. h)
        v
  run-Covered (publish_on t d b) c s v =
      if_elim (λ t. Covered t c) (target_is_quit t s.calls) _ _
        (λ h. report-Covered d c s (publish_failed d) v) (λ h. publish-Covered d c s t b v)

  -- A task of the channel's own covers it.
  pub run_covers :
      (t : Task T) (c : String) (s : State T) → is_for c t ≡ true → Covered (run setup t s) c
  unfolding run wired
  run_covers (load_subscriber d) c s v =
      if_elim (λ t. Covered t c) setup.installed _ _
        (λ h. task_covers d c (open_connection s) (got_subscriber s.opened d) v)
        (λ h. inr (inr (ground arith)))
  run_covers (got_subscriber k d) c s v = task_covers d c (take_subscriber k s) (subscribe_on k d) v
  run_covers (subscribe_on k d) c s v =
      if_elim (λ t. Covered t c) (is_quit k s.calls) _ _ (λ h. inr (inr (ground arith)))
        (λ h. inl (k, ground (arith, eq_iff d c, eq_refl (wire_channel setup.key_prefix c))))
  run_covers (load_publisher d b) c s v = cc
  run_covers (got_publisher k d b) c s v = cc
  run_covers (publish_on t d b) c s v = cc
