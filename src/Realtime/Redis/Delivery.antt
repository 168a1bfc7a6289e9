-- ===== src/Realtime/Redis/Delivery.antt =====
-- A publisher over a client that can duplicate itself delivers like the publisher in memory.
use flowpanel.Base.{
  ℕ, zero, suc, String, true, ◌≡◌, refl, sym, ap, subst, ◌∙◌, none, [], ◌&&◌, arith, inl, inr,
  Option-cases, Bool-cases,
}
use flowpanel.Base.Dict.{lookup}
use flowpanel.Realtime.{Json}
use flowpanel.Realtime.Memory.{Publisher, receivers}
use flowpanel.Realtime.Redis.{Setup, State, wire_channel, wired, listening}
use flowpanel.Realtime.Redis.Operations.{dispatched, delivered}
use flowpanel.Realtime.Redis.Wire.{channel_of-wire_channel}
use flowpanel.Realtime.Redis.Steps.{Reach}
use flowpanel.Realtime.Redis.Served.{Reach-IsServed}
use flowpanel.Realtime.Redis.Single.{Reach-IsSingle}

receivers-absent : (p : Publisher) (c : String) → lookup c p.subs ≡ none → receivers p c ≡ []
unfolding receivers
receivers-absent p c e = ground (arith, e)

module _ (setup : Setup) {T : Type 0} where
  delivered_none :
      (n : ℕ) (c : String) (s : State T)
      → receivers s.handlers c ≡ []
      → delivered setup n (wire_channel setup.key_prefix c) s ≡ []
  unfolding delivered dispatched
  delivered_none zero c s e = refl
  delivered_none (suc n) c s e = ground (
    arith,
    delivered_none n c s e,
    ap (receivers s.handlers) (channel_of-wire_channel setup.key_prefix c),
  )

  delivered_one :
      (c : String) (s : State T)
      → wired 0 (wire_channel setup.key_prefix c) s.calls ≡ true
      → listening 0 s.calls ≡ true
      → delivered setup 1 (wire_channel setup.key_prefix c) s ≡ receivers s.handlers c
  unfolding delivered dispatched
  delivered_one c s w l =
      ground (arith, ap (receivers s.handlers) (channel_of-wire_channel setup.key_prefix c))

module _ (j : Json) (setup : Setup) (twin : (setup.client && setup.duplicates) ≡ true) where
  -- With a client that has `duplicate()`, a message published on any channel calls, once no task is
  -- pending, the handlers that the publisher in memory calls: those of the channel, in their order,
  -- each once. This holds after any interleaving of calls and tasks, and after `close`.
  pub delivered-receivers :
      (s : State j.Text) (c : String)
      → Reach j setup s
      → s.tasks ≡ []
      → delivered setup s.opened (wire_channel setup.key_prefix c) s ≡ receivers s.handlers c
  delivered-receivers s c r idle =
      let v = Reach-IsSingle j setup twin r in
      let srv = Reach-IsServed j setup r in
      let wire = wire_channel setup.key_prefix c in
      elim (Option-cases (lookup c s.handlers.subs)) [
        | inl absent ↦
            delivered_none setup s.opened c s (receivers-absent s.handlers c absent)
            ∙ sym (receivers-absent s.handlers c absent)
        | inr (i, at) ↦ elim (srv.served c i at) [
          | inl (k, w) ↦
              let (first, one) = v.wired_first k wire w in
              ap (λ n. delivered setup n wire s) one
              ∙ delivered_one setup c s (subst (λ n. wired n wire s.calls ≡ true) first w)
                  (v.heard one)
          | inr (inl p) ↦ ground (arith, idle)
          | inr (inr f) ↦ elim (Bool-cases s.handlers.closed) [
            | inl shut ↦ ground (arith, srv.ended shut c)
            | inr still ↦ ground (arith, v.sound still c)
          ]
        ]
      ]
