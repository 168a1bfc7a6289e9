-- ===== src/Realtime/Redis/Steps.antt =====
-- The use of a publisher over Redis as steps: what the program calls, and pending tasks that run, in any
-- order.
use flowpanel.Base.{
  ℕ, zero, suc, String, ◌≡◌, sym, subst, none, some, true, false, List, [], ◌∷◌, ◌++◌, ◌&&◌,
  get_elem?, ok, Option-cases, Bool-cases, if_elim, ok_inj, not, >>=-eq-ok, refl, inl, inr, arith,
}
use flowpanel.Base.Value.{Value}
use flowpanel.Realtime.{Json, encode_payload}
use flowpanel.Realtime.Memory.{Unsubscribe}
use flowpanel.Realtime.Redis.{
  is_quit, got_subscriber, got_publisher, Setup, State, Task, Target, host, subscribe_on,
  load_subscriber, publish_on, load_publisher, subscribe_failed, publish_failed, add_task,
  add_report, open_connection, take_subscriber,
}
use flowpanel.Realtime.Redis.Operations.{
  create, subscribe, unsubscribe, close, target_is_quit, fresh, publish, run, start_subscriber,
  start_publisher,
}

-- The pending tasks without number `i`.
abbrev pub without {ℓ} : {A : Type ℓ} → ℕ → List A → List A
without i [] = []
without zero (x ∷ xs) = xs
without (suc i) (x ∷ xs) = x ∷ without i xs

-- A pending task runs.
unfoldable pub resume : {T : Type 0} → Setup → ℕ → State T → State T
unfolding run
resume setup i s = elim (get_elem? s.tasks i) [
  | none ↦ s
  | some t ↦ run setup t (record s { tasks = without i s.tasks })
]

module _ (j : Json) (setup : Setup) where
  pub data Step (s : State j.Text) : State j.Text → Type 0 where
    subscribes : (c : String) (h : ℕ) → Step s (subscribe setup c h s).0
    unsubscribes : (u : Unsubscribe) → Step s (unsubscribe setup u s)
    publishes :
        (c : String) (v : Value) (s' : State j.Text) → publish j setup c v s ≡ ok s' → Step s s'
    resumes : (i : ℕ) → Step s (resume setup i s)
    closes : Step s (close s)

  -- The states of a publisher: from the one that `createRedisPublisher` makes, by steps.
  pub data Reach : State j.Text → Type 0 where
    created : (s : State j.Text) → create setup ≡ ok s → Reach s
    next : {s t : State j.Text} → Reach s → Step s t → Reach t

  -- What a state may become: any calls of the program and any tasks, in any order.
  pub data Later (s : State j.Text) : State j.Text → Type 0 where
    now : Later s s
    after : {t u : State j.Text} → Later s t → Step t u → Later s u

-- What `subscriber()` and `publisher()` do, by cases.
module _ (setup : Setup) {T : Type 0} (s : State T) (P : State T → Type 0) where
  pub start_subscriber_cases :
      (c : String)
      → ((k : ℕ) → s.sub ≡ some k → P (add_task (subscribe_on k c) s))
      → (s.sub ≡ none
          → (setup.client && setup.duplicates) ≡ true
          → P (add_task (subscribe_on s.opened c) (take_subscriber s.opened (open_connection s))))
      → ((setup.client && setup.duplicates) ≡ false → P (add_task (load_subscriber c) s))
      → ((setup.client && setup.duplicates) ≡ false → P (add_report (subscribe_failed c) s))
      → P (start_subscriber setup c s)
  unfolding start_subscriber
  start_subscriber_cases c known twin load failed = elim (Option-cases s.sub) [
    | inr (k, e) ↦ subst P (sym (ground (arith, e))) (known k e)
    | inl e ↦ elim (Bool-cases (setup.client && setup.duplicates)) [
      | inl twins ↦ subst P (sym (ground (arith, e, twins))) (twin e twins)
      | inr alone ↦ elim (Bool-cases setup.url) [
        | inl u ↦ subst P (sym (ground (arith, e, alone, u))) (load alone)
        | inr u ↦ subst P (sym (ground (arith, e, alone, u))) (failed alone)
      ]
    ]
  ]

  pub start_publisher_cases :
      (c : String) (b : T)
      → ((t : Target) → s.pub_target ≡ some t → P (add_task (publish_on t c b) s))
      → (setup.client ≡ true
          → P (record s { pub_target = some host; tasks = s.tasks ++ publish_on host c b ∷ [] }))
      → (setup.client ≡ false → P (add_task (load_publisher c b) s))
      → (setup.client ≡ false → P (add_report (publish_failed c) s))
      → P (start_publisher setup c b s)
  unfolding start_publisher
  start_publisher_cases c b known given load failed = elim (Option-cases s.pub_target) [
    | inr (t, e) ↦ subst P (sym (ground (arith, e))) (known t e)
    | inl e ↦ elim (Bool-cases setup.client) [
      | inl h ↦ subst P (sym (ground (arith, e, h))) (given h)
      | inr h ↦ elim (Bool-cases setup.url) [
        | inl u ↦ subst P (sym (ground (arith, e, h, u))) (load h)
        | inr u ↦ subst P (sym (ground (arith, e, h, u))) (failed h)
      ]
    ]
  ]

-- Only the calls of the program change the handlers.
module _ (setup : Setup) {T : Type 0} where
  pub run-handlers : (t : Task T) (s : State T) → (run setup t s).handlers ≡ s.handlers
  unfolding run open_connection take_subscriber
  run-handlers (load_subscriber c) s =
      if_elim (λ (u : State T). u.handlers ≡ s.handlers) setup.installed _ _ (λ h. refl) (λ h. refl)
  run-handlers (got_subscriber k c) s = refl
  run-handlers (subscribe_on k c) s =
      if_elim (λ (u : State T). u.handlers ≡ s.handlers) (is_quit k s.calls) _ _ (λ h. refl)
        (λ h. refl)
  run-handlers (load_publisher c b) s =
      if_elim (λ (u : State T). u.handlers ≡ s.handlers) setup.installed _ _ (λ h. refl) (λ h. refl)
  run-handlers (got_publisher k c b) s = refl
  run-handlers (publish_on t c b) s =
      if_elim (λ (u : State T). u.handlers ≡ s.handlers) (target_is_quit t s.calls) _ _ (λ h. refl)
        (λ h. refl)

  pub start_subscriber-handlers :
      (c : String) (s : State T) → (start_subscriber setup c s).handlers ≡ s.handlers
  unfolding open_connection take_subscriber
  start_subscriber-handlers c s =
      start_subscriber_cases setup s (λ (u : State T). u.handlers ≡ s.handlers) c (λ k e. refl)
        (λ e h. refl) (λ h. refl) (λ h. refl)

  pub start_publisher-handlers :
      (c : String) (b : T) (s : State T) → (start_publisher setup c b s).handlers ≡ s.handlers
  start_publisher-handlers c b s =
      start_publisher_cases setup s (λ (u : State T). u.handlers ≡ s.handlers) c b (λ k e. refl)
        (λ h. refl) (λ h. refl) (λ h. refl)

-- A publication that goes through is made while the publisher is open, of the encoded payload.
pub publish-eq-ok :
    (j : Json) (setup : Setup) (c : String) (v : Value) (s s' : State j.Text)
    → publish j setup c v s ≡ ok s'
    → (b : j.Text) × (s.handlers.closed ≡ false)
      × (encode_payload j c v ≡ ok b)
      × (start_publisher setup c b s ≡ s')
unfolding publish
publish-eq-ok j setup c v s s' h = elim (Bool-cases s.handlers.closed) [
  | inl shut ↦ ground (arith, shut)
  | inr still ↦
      let (b, e, f) =
        >>=-eq-ok (encode_payload j c v) (λ b. ok (start_publisher setup c b s))
          (ground (arith, still)) in
      (b, still, e, ok_inj f)
]

-- What is created, is the new publisher.
pub create-eq-ok :
    {T : Type 0} (setup : Setup) (s : State T) → create setup ≡ ok s → fresh setup ≡ s
unfolding create
create-eq-ok setup s e = elim (Bool-cases (not setup.client && not setup.url)) [
  | inl neither ↦ ground (arith, neither)
  | inr given ↦ ground (arith, given)
]
