-- ===== src/Realtime/Redis/Released.antt =====
-- What `close` does with the connections of a publisher over Redis.
use flowpanel.Base.{
  ℕ, zero, suc, ◌<◌, String, true, false, ◌≡◌, refl, ap, subst, none, some, List, [], ◌∷◌, ◌++◌,
  ◌||◌, eqb, get_elem?, any, any-append, arith, inl, inr, Bool-cases, if_elim,
}
use flowpanel.Realtime.{Json}
use flowpanel.Realtime.Memory.{
  Publisher, Unsubscribe, undo, no_op, is_empty, delete, members, receivers,
}
use flowpanel.Realtime.Memory
use flowpanel.Realtime.Redis.{
  Setup, Call, Task, State, is_quit, quits, unwatches, call_each, open_connection, take_subscriber,
  load_subscriber, got_subscriber, subscribe_on, load_publisher, got_publisher, publish_on,
}
use flowpanel.Realtime.Redis.Operations.{
  start_subscriber, start_publisher, subscribe, unsubscribe, close, run, target_is_quit,
}
use flowpanel.Realtime.Redis.Steps.{
  resume, without, Step, subscribes, unsubscribes, publishes, resumes, closes, Reach, created, next,
  create-eq-ok, publish-eq-ok, start_subscriber_cases, start_publisher_cases,
}

abbrev below : ℕ → List ℕ
below zero = []
below (suc n) = below n ++ n ∷ []

any-below : (k n : ℕ) → k < n → any (λ m. eqb m k) (below n) ≡ true
any-below k zero h = absurd (omega arith)
any-below k (suc n) h = ground (arith, any-append (λ m. eqb m k) (below n) (n ∷ []), any-below k n)

module _ {T : Type 0} where
  is_quit-call_each :
      (k : ℕ) (ks : List ℕ) (calls : List (Call T))
      → is_quit k (call_each quits ks calls) ≡ (any (λ m. eqb m k) ks || is_quit k calls)
  unfolding is_quit
  is_quit-call_each k [] calls = refl
  is_quit-call_each k (j ∷ ks) calls = ground (arith, is_quit-call_each k ks (quits j ∷ calls))

  -- While it is open, a publisher owns every connection that it opened.
  abbrev IsOwner : State T → Type 0
  IsOwner s = s.handlers.closed ≡ false → s.owned ≡ below s.opened

  open_connection-IsOwner : (s : State T) → IsOwner s → IsOwner (open_connection s)
  unfolding open_connection
  open_connection-IsOwner s v still = ap (λ ks. ks ++ s.opened ∷ []) (v still)

  take_subscriber-IsOwner : (k : ℕ) (s : State T) → IsOwner s → IsOwner (take_subscriber k s)
  unfolding take_subscriber
  take_subscriber-IsOwner k s v = v

module _ (setup : Setup) {T : Type 0} where
  start_subscriber-IsOwner :
      (c : String) (s : State T) → IsOwner s → IsOwner (start_subscriber setup c s)
  start_subscriber-IsOwner c s v =
      start_subscriber_cases setup s IsOwner c (λ k e. v)
        (λ e h. take_subscriber-IsOwner s.opened (open_connection s) (open_connection-IsOwner s v))
        (λ h. v) (λ h. v)

  start_publisher-IsOwner :
      (c : String) (b : T) (s : State T) → IsOwner s → IsOwner (start_publisher setup c b s)
  start_publisher-IsOwner c b s v =
      start_publisher_cases setup s IsOwner c b (λ t e. v) (λ h. v) (λ h. v) (λ h. v)

  run-IsOwner : (t : Task T) (s : State T) → IsOwner s → IsOwner (run setup t s)
  unfolding run
  run-IsOwner (load_subscriber c) s v =
      if_elim IsOwner setup.installed _ _ (λ h. open_connection-IsOwner s v) (λ h. v)
  run-IsOwner (got_subscriber k c) s v = take_subscriber-IsOwner k s v
  run-IsOwner (subscribe_on k c) s v = if_elim IsOwner (is_quit k s.calls) _ _ (λ h. v) (λ h. v)
  run-IsOwner (load_publisher c b) s v =
      if_elim IsOwner setup.installed _ _ (λ h. open_connection-IsOwner s v) (λ h. v)
  run-IsOwner (got_publisher k c b) s v = v
  run-IsOwner (publish_on t c b) s v =
      if_elim IsOwner (target_is_quit t s.calls) _ _ (λ h. v) (λ h. v)

  resume-IsOwner : (i : ℕ) (s : State T) → IsOwner s → IsOwner (resume setup i s)
  unfolding resume
  resume-IsOwner i s v =
      elim (get_elem? s.tasks i)
        as (λ o.
          IsOwner
            (elim o [ none ↦ s | some t ↦ run setup t (record s { tasks = without i s.tasks }) ])) [
              | none ↦ v
              | some t ↦ run-IsOwner t (record s { tasks = without i s.tasks }) v
            ]

  subscribe-IsOwner :
      (c : String) (h : ℕ) (s : State T) → IsOwner s → IsOwner (subscribe setup c h s).0
  unfolding subscribe Memory.subscribe
  subscribe-IsOwner c h s v = elim (Bool-cases s.handlers.closed) [
    | inl shut ↦ ground (arith, shut)
    | inr still ↦ ground (
      arith,
      still,
      v still,
      start_subscriber-IsOwner c (record s { handlers = (Memory.subscribe c h s.handlers).0 }),
    )
  ]

  unsubscribe-IsOwner :
      (u : Unsubscribe) (s : State T) → IsOwner s → IsOwner (unsubscribe setup u s)
  unfolding unsubscribe Memory.unsubscribe
  unsubscribe-IsOwner no_op s v = v
  unsubscribe-IsOwner (undo c i h) s v = ground arith

  close-IsOwner : (s : State T) → IsOwner s → IsOwner (close s)
  unfolding close Memory.close
  close-IsOwner s v = ground arith

module _ (j : Json) (setup : Setup) where
  Step-IsOwner : {s t : State j.Text} → Step j setup s t → IsOwner s → IsOwner t
  Step-IsOwner {s} (subscribes c h) v = subscribe-IsOwner setup c h s v
  Step-IsOwner {s} (unsubscribes u) v = unsubscribe-IsOwner setup u s v
  Step-IsOwner {s} (publishes c p t e) v =
      let (b, _, _, done) = publish-eq-ok j setup c p s t e in
      subst IsOwner done (start_publisher-IsOwner setup c b s v)
  Step-IsOwner {s} (resumes i) v = resume-IsOwner setup i s v
  Step-IsOwner {s} closes v = close-IsOwner setup s v

  Reach-IsOwner : {s : State j.Text} → Reach j setup s → IsOwner s
  Reach-IsOwner (created s e) = subst IsOwner (create-eq-ok setup s e) (λ h. refl)
  Reach-IsOwner (next r st) = Step-IsOwner st (Reach-IsOwner r)

  -- `close` of an open publisher, at whatever point of whatever interleaving, quits every connection
  -- that was opened until then.
  pub close_releases :
      (s : State j.Text) (k : ℕ)
      → Reach j setup s
      → s.handlers.closed ≡ false
      → k < s.opened
      → is_quit k (close s).calls ≡ true
  unfolding close
  close_releases s k r still lt = ground (
    arith,
    still,
    is_quit-call_each k s.owned (call_each unwatches s.watched s.calls),
    Reach-IsOwner r still,
    any-below k s.opened lt,
  )
