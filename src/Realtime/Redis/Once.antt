-- ===== src/Realtime/Redis/Once.antt =====
-- A publisher over a client that can duplicate itself: one connection subscribes.
use flowpanel.Base.{
  ℕ, zero, suc, ◌≤◌, String, Bool, true, false, ◌≡◌, refl, sym, ◌∙◌, none, some, List, [], ◌∷◌,
  ◌++◌, ◌&&◌, eqb, get_elem?, any, all, arith, if_elim,
}
use flowpanel.Realtime.Memory.{
  Publisher, Unsubscribe, undo, no_op, is_empty, delete, members, receivers,
}
use flowpanel.Realtime.Memory
use flowpanel.Realtime.Redis.{
  Report, Call, Task, State, Target, host, own, is_quit, wired, listening, add_call, add_task,
  add_report, quits, unwatches, call_each, open_connection, take_subscriber, load_subscriber,
  got_subscriber, subscribe_on, load_publisher, got_publisher, publish_on,
}
use flowpanel.Realtime.Redis.Operations.{close}
use flowpanel.Realtime.Redis.Steps.{without}
use flowpanel.Realtime.Redis.Covered.{is_failure}

-- The tasks of such a publisher, when `n` connections are open.
abbrev pub is_single : {T : Type 0} → ℕ → Task T → Bool
is_single n (subscribe_on k c) = eqb k 0 && eqb n 1
is_single n (publish_on host c b) = true
is_single n _ = false

module _ {T : Type 0} where
  -- At most one connection is open: the one that subscribes, which has not been quit while the
  -- publisher is open, so that nothing has failed; and publications go over the host's client.
  pub record IsSingle (s : State T) : Type 0 where
    pub few : s.opened ≤ 1
    pub host_publishes : (t : Target) → s.pub_target ≡ some t → t ≡ host
    pub sub_first : (k : ℕ) → s.sub ≡ some k → (k ≡ 0) × (s.opened ≡ 1)
    pub sub_none : s.sub ≡ none → s.handlers.closed ≡ false → s.opened ≡ 0
    pub tasks_single : all (is_single s.opened) s.tasks ≡ true
    pub wired_first : (k : ℕ) (w : String) → wired k w s.calls ≡ true → (k ≡ 0) × (s.opened ≡ 1)
    pub heard : s.opened ≡ 1 → listening 0 s.calls ≡ true
    pub running : s.handlers.closed ≡ false → is_quit 0 s.calls ≡ false
    pub sound : s.handlers.closed ≡ false → (c : String) → any (is_failure c) s.reports ≡ false

  all-append :
      (p : Task T → Bool) (xs ys : List (Task T)) → all p (xs ++ ys) ≡ (all p xs && all p ys)
  all-append p [] ys = refl
  all-append p (x ∷ xs) ys = ground (arith, all-append p xs ys)

  pub all-without :
      (p : Task T → Bool) (i : ℕ) (xs : List (Task T))
      → all p xs ≡ true
      → all p (without i xs) ≡ true
  all-without p i [] h = refl
  all-without p zero (x ∷ xs) h = ground arith
  all-without p (suc i) (x ∷ xs) h = ground (arith, all-without p i xs)

  pub all_get :
      (p : Task T → Bool) (i : ℕ) (xs : List (Task T)) (x : Task T)
      → all p xs ≡ true
      → get_elem? xs i ≡ some x
      → p x ≡ true
  all_get p i [] x h e = cc
  all_get p zero (y ∷ xs) x h e = ground arith
  all_get p (suc i) (y ∷ xs) x h e = ground (arith, all_get p i xs x)

  -- A task is added.
  pub add_task-IsSingle :
      (t : Task T) (s : State T)
      → is_single s.opened t ≡ true
      → IsSingle s
      → IsSingle (add_task t s)
  add_task-IsSingle t s h v = record {
    few = v.few;
    host_publishes = v.host_publishes;
    sub_first = v.sub_first;
    sub_none = v.sub_none;
    tasks_single = ground (arith, v.tasks_single, all-append (is_single s.opened) s.tasks (t ∷ []));
    wired_first = v.wired_first;
    heard = v.heard;
    running = v.running;
    sound = v.sound;
  }

  -- With no connection open no subscription is under way.
  tasks_grow : (ts : List (Task T)) → all (is_single 0) ts ≡ true → all (is_single 1) ts ≡ true
  tasks_grow [] h = refl
  tasks_grow (subscribe_on k c ∷ ts) h = ground arith
  tasks_grow (publish_on host c b ∷ ts) h = tasks_grow ts h
  tasks_grow (publish_on (own k) c b ∷ ts) h = cc
  tasks_grow (load_subscriber c ∷ ts) h = cc
  tasks_grow (got_subscriber k c ∷ ts) h = cc
  tasks_grow (load_publisher c b ∷ ts) h = cc
  tasks_grow (got_publisher k c b ∷ ts) h = cc

  -- `duplicate()` gives the first connection.
  pub duplicate-IsSingle :
      (s : State T)
      → s.sub ≡ none
      → s.handlers.closed ≡ false
      → IsSingle s
      → IsSingle (take_subscriber s.opened (open_connection s))
  unfolding take_subscriber open_connection wired is_quit listening
  duplicate-IsSingle s e still v =
      let z = v.sub_none e still in
      record {
        few = omega arith;
        host_publishes = v.host_publishes;
        sub_first = λ k h. ground arith;
        sub_none = λ h o. cc;
        tasks_single = rw z (tasks_grow s.tasks (rw z at v.tasks_single));
        wired_first = λ k w h. ground (arith, v.wired_first k w);
        heard = λ h. ground arith;
        running = v.running;
        sound = v.sound;
      }

  -- A report that is of no failure, while the publisher is open.
  pub report-IsSingle :
      (s : State T) (r : Report)
      → (s.handlers.closed ≡ false → (c : String) → is_failure c r ≡ false)
      → IsSingle s
      → IsSingle (add_report r s)
  report-IsSingle s r harmless v = record {
    few = v.few;
    host_publishes = v.host_publishes;
    sub_first = v.sub_first;
    sub_none = v.sub_none;
    tasks_single = v.tasks_single;
    wired_first = v.wired_first;
    heard = v.heard;
    running = v.running;
    sound = λ o c. ground (arith, harmless o c, v.sound o c);
  }

  -- The handlers change, and not whether the publisher is open.
  pub handlers-IsSingle :
      (s : State T) (p : Publisher)
      → p.closed ≡ s.handlers.closed
      → IsSingle s
      → IsSingle (record s { handlers = p })
  handlers-IsSingle s p e v = record {
    few = v.few;
    host_publishes = v.host_publishes;
    sub_first = v.sub_first;
    sub_none = λ h o. v.sub_none h (sym e ∙ o);
    tasks_single = v.tasks_single;
    wired_first = v.wired_first;
    heard = v.heard;
    running = λ o. v.running (sym e ∙ o);
    sound = λ o. v.sound (sym e ∙ o);
  }

  -- A call that subscribes no other connection, quits none and leaves the listeners.
  pub call-IsSingle :
      (s : State T) (call : Call T)
      → ((k : ℕ) (w : String) → wired k w (call ∷ s.calls) ≡ true → (k ≡ 0) × (s.opened ≡ 1))
      → is_quit 0 (call ∷ s.calls) ≡ is_quit 0 s.calls
      → listening 0 (call ∷ s.calls) ≡ listening 0 s.calls
      → IsSingle s
      → IsSingle (add_call call s)
  call-IsSingle s call w q l v = record {
    few = v.few;
    host_publishes = v.host_publishes;
    sub_first = v.sub_first;
    sub_none = v.sub_none;
    tasks_single = v.tasks_single;
    wired_first = w;
    heard = λ o. l ∙ v.heard o;
    running = λ o. q ∙ v.running o;
    sound = v.sound;
  }

  wired-call_each_quits :
      (k : ℕ) (w : String) (ks : List ℕ) (calls : List (Call T))
      → wired k w (call_each quits ks calls) ≡ true
      → wired k w calls ≡ true
  unfolding wired
  wired-call_each_quits k w [] calls h = h
  wired-call_each_quits k w (j ∷ ks) calls h =
      ground (arith, wired-call_each_quits k w ks (quits j ∷ calls))

  wired-call_each_unwatches :
      (k : ℕ) (w : String) (ts : List Target) (calls : List (Call T))
      → wired k w (call_each unwatches ts calls) ≡ true
      → wired k w calls ≡ true
  unfolding wired
  wired-call_each_unwatches k w [] calls h = h
  wired-call_each_unwatches k w (t ∷ ts) calls h =
      wired-call_each_unwatches k w ts (unwatches t ∷ calls) h

  listening-call_each_quits :
      (ks : List ℕ) (calls : List (Call T))
      → listening 0 (call_each quits ks calls) ≡ listening 0 calls
  unfolding listening
  listening-call_each_quits [] calls = refl
  listening-call_each_quits (j ∷ ks) calls = listening-call_each_quits ks (quits j ∷ calls)

  listening-call_each_unwatches :
      (ts : List Target) (calls : List (Call T))
      → listening 0 (call_each unwatches ts calls) ≡ listening 0 calls
  unfolding listening
  listening-call_each_unwatches [] calls = refl
  listening-call_each_unwatches (t ∷ ts) calls =
      listening-call_each_unwatches ts (unwatches t ∷ calls)

  pub close-IsSingle : (s : State T) → IsSingle s → IsSingle (close s)
  unfolding close Memory.close
  close-IsSingle s v =
      if_elim IsSingle s.handlers.closed _ _ (λ h. v)
        (λ h. record {
          few = v.few;
          host_publishes = λ t e. cc;
          sub_first = λ k e. cc;
          sub_none = λ e o. cc;
          tasks_single = v.tasks_single;
          wired_first = λ k w e. v.wired_first k w (
              wired-call_each_unwatches k w s.watched s.calls
                (wired-call_each_quits k w s.owned (call_each unwatches s.watched s.calls) e));
          heard = λ o.
              listening-call_each_quits s.owned (call_each unwatches s.watched s.calls)
              ∙ listening-call_each_unwatches s.watched s.calls
              ∙ v.heard o;
          running = λ o. cc;
          sound = λ o. cc;
        })
