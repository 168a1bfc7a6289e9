-- ===== src/Writes/Announcing.antt =====
-- The audit log of a write: one event for a write that succeeded, none for one that did not.
use flowpanel.Base.{
  String, Bool, true, false, ◌≡◌, refl, ◌∙◌, Option, none, some, List, [], ◌∷◌, ok, err, inl, inr,
  Result-cases, Option-cases, or_else, ap, arith, ◌==◌, if◌then◌else◌,
}
use Prim.Native.String.{◌++◌ as append}
use flowpanel.Base.Dict.{lookup}
use flowpanel.Base.Value.{Value, undefined, null, bool, num, str, arr, obj, Row, Session, props}
use flowpanel.Errors.{Throws, Thrown}
use flowpanel.Guards.{RequestContext}
use flowpanel.Writes.Aftermath.{
  Effects, Event, Outside, Change, created, updated, deleted, AuditConfig, base_audit, emit_audit,
  audit_event, id_string, user_actor, session_actor, actor_id_from_session, unless_empty,
  run_post_commit_effects, revalidate_paths, logged,
}
use flowpanel.Writes.Actions.{
  create_row, update_row, delete_row, commit_create, commit_update, commit_delete, announce,
  created_id, list_path, row_path,
}
use flowpanel.Writes.Setup.{Admin, Entity, State, Mutation}
use flowpanel.Writes.Permission.{Call, create_call, update_call, delete_call, run, prepare}

logged-audited :
    (r : Throws (Unit {0})) (message : String) (f : Effects)
    → (logged r message f).audited ≡ f.audited
logged-audited (ok u) message f = refl
logged-audited (err t) message f = refl

revalidate_paths-audited :
    (o : Outside) (paths : List String) (f : Effects)
    → (revalidate_paths o paths f).audited ≡ f.audited
unfolding revalidate_paths
revalidate_paths-audited o [] f = refl
revalidate_paths-audited o (path ∷ paths) f =
    revalidate_paths-audited o paths _ ∙ logged-audited (o.revalidate path) _ _

run_post_commit_effects-audited :
    (o : Outside) (publishes : Bool) (name : String) (change : Change) (id : Option String)
    (paths : List String) (f : Effects)
    → (run_post_commit_effects o publishes name change id paths f).audited ≡ f.audited
unfolding run_post_commit_effects
run_post_commit_effects-audited o false name change id paths f = refl
run_post_commit_effects-audited o true name change id paths f =
    revalidate_paths-audited o paths _ ∙ logged-audited (o.publish _) _ _

-- A sink that is called: the resource is audited, and the log is switched on and has a sink.
pub record IsAudited (o : Outside) (audits : Bool) : Type 0 where
  pub audits_on : audits ≡ true
  pub config : AuditConfig
  pub configured : o.audit ≡ some config
  pub enabled : or_else config.enabled true ≡ true
  pub sink : Event → Throws (Unit {0})
  pub has_sink : config.sink ≡ some sink

emit_audit-audited :
    (a : AuditConfig) (sink : Event → Throws (Unit {0})) (event : Event) (f : Effects)
    → or_else a.enabled true ≡ true
    → a.sink ≡ some sink
    → (emit_audit (some a) event f).audited ≡ event ∷ f.audited
unfolding emit_audit
emit_audit-audited a sink event f enabled has =
    rw (enabled, has, emit_audit) (logged-audited (sink event) _ _)

base_audit-audited :
    (o : Outside) (audits : Bool) (name operation : String) (target : Option String)
    (c : RequestContext) (f : Effects)
    → IsAudited o audits
    → (base_audit o audits name operation target c f).audited
      ≡ audit_event o name operation target c ∷ f.audited
unfolding base_audit
base_audit-audited o audits name operation target c f on =
    rw (on.audits_on, on.configured, base_audit)
      (emit_audit-audited on.config on.sink _ f on.enabled on.has_sink)

abbrev pub row_answer : Throws Row → Throws (Option Row)
row_answer (ok row) = ok (some row)
row_answer (err t) = err t

abbrev pub no_answer : Throws (Unit {0}) → Throws (Option Row)
no_answer (ok _) = ok none
no_answer (err t) = err t

-- What a call answers; a deletion answers nothing.
unfoldable pub reply :
    {D : Type 0} → Admin D → Entity → Call → Throws RequestContext → State D → Throws (Option Row)
unfolding create_row update_row delete_row
reply a e (create_call input) context s = (create_row a e context input s).0
reply a e (update_call id input) context s = row_answer (update_row a e id context input s).0
reply a e (delete_call id) context s = no_answer (delete_row a e id context s).0

abbrev pub operation_name : Call → String
operation_name (create_call input) = "create"
operation_name (update_call id input) = "update"
operation_name (delete_call id) = "delete"

-- An identifier as a text: none where it is nullish or empty.
abbrev pub written : (Value → String) → Value → Option String
written to_text undefined = none
written to_text null = none
written to_text (str s) = if s == "" then none else some s
written to_text v = some (to_text v)

abbrev present : Option Value → Value
present none = undefined
present (some v) = v

abbrev pub at : String → Row → Value
at name row = present (lookup name row)

abbrev pub user_of : (Value → String) → Value → Option String
user_of to_text (obj ps) = written to_text (at "id" (props ps))
user_of to_text v = none

-- Who a session is: what `auth.userId` says, and nobody where it throws; without it the `id` of the
-- session, else the `id` of its `user`.
abbrev pub actor_of : Outside → Option Session → Option String
actor_of o session = elim o.user_id [
  | some extract ↦ elim (extract session) [ ok v ↦ written o.to_text v | err t ↦ none ]
  | none ↦ elim session [
    | none ↦ none
    | some s ↦ elim (written o.to_text (at "id" s)) [
      | some id ↦ some id
      | none ↦ user_of o.to_text (at "user" s)
    ]
  ]
]

written-id_string : (f : Value → String) (v : Value) → id_string f v ≡ written f v
unfolding id_string
written-id_string f undefined = refl
written-id_string f null = refl
written-id_string f (bool b) = refl
written-id_string f (num n) = refl
written-id_string f (str s) = refl
written-id_string f (arr vs) = refl
written-id_string f (obj ps) = refl

at-lookup : (name : String) (row : Row) → or_else (lookup name row) undefined ≡ at name row
at-lookup name row = elim (Option-cases (lookup name row)) [
  | inl absent ↦ ground (arith, absent)
  | inr (v, there) ↦ ground (arith, there)
]

user_of-user_actor : (f : Value → String) (v : Value) → user_actor f v ≡ user_of f v
unfolding user_actor
user_of-user_actor f undefined = refl
user_of-user_actor f null = refl
user_of-user_actor f (bool b) = refl
user_of-user_actor f (num n) = refl
user_of-user_actor f (str s) = refl
user_of-user_actor f (arr vs) = refl
user_of-user_actor f (obj ps) =
    ap (id_string f) (at-lookup "id" (props ps)) ∙ written-id_string f (at "id" (props ps))

session_actor-some :
    (f : Value → String) (s : Row)
    → session_actor f (some s)
      ≡ (elim (written f (at "id" s)) [ some id ↦ some id | none ↦ user_of f (at "user" s) ])
unfolding session_actor
session_actor-some f s =
    let own = ap (id_string f) (at-lookup "id" s) ∙ written-id_string f (at "id" s) in
    let user = ap (user_actor f) (at-lookup "user" s) ∙ user_of-user_actor f (at "user" s) in
    elim (Option-cases (written f (at "id" s))) [
      | inl absent ↦ ground (arith, own, user, absent)
      | inr (id, there) ↦ ground (arith, own, there)
    ]

actor_id_from_session-actor_of :
    (o : Outside) (session : Option Session) → actor_id_from_session o session ≡ actor_of o session
unfolding actor_id_from_session session_actor
actor_id_from_session-actor_of o session = elim (Option-cases o.user_id) [
  | inr (extract, has) ↦ elim (Result-cases (extract session)) [
    | inl (v, answered) ↦ rw (has, answered) (written-id_string o.to_text v)
    | inr (t, thrown) ↦ rw (has, thrown) refl
  ]
  | inl without ↦ elim (Option-cases session) [
    | inl nobody ↦ rw (without, nobody) refl
    | inr (s, there) ↦ rw (without, there) (session_actor-some o.to_text s)
  ]
]

-- The row that the event of a call names: the one that is asked for, or the new one by its key, unless
-- that is nullish.
abbrev pub key_text : (Value → String) → Value → Option String
key_text to_text undefined = none
key_text to_text null = none
key_text to_text v = some (to_text v)

abbrev pub new_id : (Value → String) → (key : String) → Option Row → Option String
new_id to_text key none = none
new_id to_text key (some row) = key_text to_text (at key row)

abbrev pub target_of : {D : Type 0} → Admin D → Entity → Call → Option Row → Option String
target_of a e (create_call input) row = new_id a.outside.to_text (or_else e.row_key "id") row
target_of a e (update_call id input) row = some id
target_of a e (delete_call id) row = some id

created_id-new_id :
    {D : Type 0} (a : Admin D) (e : Entity) (row : Option Row)
    → created_id a e row ≡ new_id a.outside.to_text (or_else e.row_key "id") row
unfolding created_id
created_id-new_id a e none = refl
created_id-new_id a e (some row) = elim (Option-cases (lookup (or_else e.row_key "id") row)) [
  | inl absent ↦ rw (absent, created_id) refl
  | inr (undefined, there) ↦ rw (there, created_id) refl
  | inr (null, there) ↦ rw (there, created_id) refl
  | inr (bool b, there) ↦ rw (there, created_id) refl
  | inr (num n, there) ↦ rw (there, created_id) refl
  | inr (str s, there) ↦ rw (there, created_id) refl
  | inr (arr vs, there) ↦ rw (there, created_id) refl
  | inr (obj ps, there) ↦ rw (there, created_id) refl
]

-- A header of the request, where it is there and not empty.
abbrev pub header : Option String → Option String
header none = none
header (some s) = if s == "" then none else some s

header-unless_empty : (s : Option String) → unless_empty s ≡ header s
header-unless_empty none = refl
header-unless_empty (some s) = refl

module _ {D : Type 0} (a : Admin D) (e : Entity) where
  -- The event of a call that answered with a row.
  abbrev pub event_of : Call → RequestContext → Option Row → Event
  event_of call c row = record {
    actor_id = actor_of a.outside c.session;
    action = append e.name (append "." (operation_name call));
    resource = e.name;
    target_id = target_of a e call row;
    diff = none;
    ip = header c.ip;
    user_agent = header c.user_agent;
  }

  audit_event-event_of :
      (call : Call) (c : RequestContext) (row : Option Row) (target : Option String)
      → target ≡ target_of a e call row
      → audit_event a.outside e.name (operation_name call) target c ≡ event_of call c row
  unfolding audit_event
  audit_event-event_of call c row target same = ground (
    arith,
    same,
    actor_id_from_session-actor_of a.outside c.session,
    header-unless_empty c.ip,
    header-unless_empty c.user_agent,
  )

  -- The events after a call: none more where it threw, one more where it answered.
  abbrev pub logged_by : Call → RequestContext → Throws (Option Row) → List Event → List Event
  logged_by call c (err t) before = before
  logged_by call c (ok row) before = event_of call c row ∷ before

  announce-audited :
      (c : RequestContext) (change : Change) (operation : String) (target : Option String)
      (paths : List String) (f : Effects)
      → IsAudited a.outside e.audits
      → (announce a e c change operation target paths f).audited
        ≡ audit_event a.outside e.name operation target c ∷ f.audited
  unfolding announce
  announce-audited c change operation target paths f on =
      run_post_commit_effects-audited a.outside a.publishes e.name change target paths _
      ∙ base_audit-audited a.outside e.audits e.name operation target c f on

  commit_create-audited :
      (input : Value) (c : RequestContext) (f : Effects) (r : Throws (Option Row) × D)
      → IsAudited a.outside e.audits
      → (commit_create a e c f r).1.effects.audited
        ≡ logged_by (create_call input) c (commit_create a e c f r).0 f.audited
  unfolding commit_create
  commit_create-audited input c f (ok row, db) on =
      announce-audited c created "create" (created_id a e row) (list_path a e ∷ []) f on
      ∙ ap (λ event. event ∷ f.audited)
          (audit_event-event_of (create_call input) c row _ (created_id-new_id a e row))
  commit_create-audited input c f (err t, db) on = refl

  commit_update-audited :
      (id : String) (input : Value) (c : RequestContext) (f : Effects) (r : Throws (Option Row) × D)
      → IsAudited a.outside e.audits
      → (commit_update a e id c f r).1.effects.audited
        ≡ logged_by (update_call id input) c (row_answer (commit_update a e id c f r).0) f.audited
  unfolding commit_update
  commit_update-audited id input c f (ok none, db) on = refl
  commit_update-audited id input c f (ok (some row), db) on =
      announce-audited c updated "update" (some id) (list_path a e ∷ (row_path a e id ∷ [])) f on
      ∙ ap (λ event. event ∷ f.audited)
          (audit_event-event_of (update_call id input) c (some row) _ refl)
  commit_update-audited id input c f (err t, db) on = refl

  commit_delete-audited :
      (id : String) (c : RequestContext) (f : Effects) (r : Throws (Unit {0}) × D)
      → IsAudited a.outside e.audits
      → (commit_delete a e id c f r).1.effects.audited
        ≡ logged_by (delete_call id) c (no_answer (commit_delete a e id c f r).0) f.audited
  unfolding commit_delete
  commit_delete-audited id c f (ok u, db) on =
      announce-audited c deleted "delete" (some id) (list_path a e ∷ []) f on
      ∙ ap (λ event. event ∷ f.audited) (audit_event-event_of (delete_call id) c none _ refl)
  commit_delete-audited id c f (err t, db) on = refl

  run_prepared-audited :
      (call : Call) (c : RequestContext) (s : State D) (m : Mutation)
      → IsAudited a.outside e.audits
      → prepare a e call c s.db ≡ ok m
      → (run a e call (ok c) s).effects.audited
        ≡ logged_by call c (reply a e call (ok c) s) s.effects.audited
  unfolding prepare run reply create_row update_row delete_row
  run_prepared-audited (create_call input) c s m on same =
      rw (same, run, reply, create_row)
        (commit_create-audited input c s.effects (a.adapter.create m s.db) on)
  run_prepared-audited (update_call id input) c s m on same =
      rw (same, run, reply, update_row)
        (commit_update-audited id input c s.effects (a.adapter.update m s.db) on)
  run_prepared-audited (delete_call id) c s m on same =
      rw (same, run, reply, delete_row)
        (commit_delete-audited id c s.effects (a.adapter.delete m s.db) on)

  run_refused-audited :
      (call : Call) (c : RequestContext) (s : State D) (t : Thrown)
      → prepare a e call c s.db ≡ err t
      → (run a e call (ok c) s).effects.audited
        ≡ logged_by call c (reply a e call (ok c) s) s.effects.audited
  unfolding prepare run reply create_row update_row delete_row
  run_refused-audited (create_call input) c s t same = rw (same, run, reply, create_row) refl
  run_refused-audited (update_call id input) c s t same = rw (same, run, reply, update_row) refl
  run_refused-audited (delete_call id) c s t same = rw (same, run, reply, delete_row) refl

  -- Where the audit log has a sink, a call that answers adds one event to it, which names the actor,
  -- the operation, the resource, the row, and the address and agent of the request; a call that throws, in its checks or in the adapter,
  -- adds none.
  pub run-audited :
      (call : Call) (c : RequestContext) (s : State D)
      → IsAudited a.outside e.audits
      → (run a e call (ok c) s).effects.audited
        ≡ logged_by call c (reply a e call (ok c) s) s.effects.audited
  run-audited call c s on = elim (Result-cases (prepare a e call c s.db)) [
    | inl (m, same) ↦ run_prepared-audited call c s m on same
    | inr (t, same) ↦ run_refused-audited call c s t same
  ]
