-- ===== src/Writes/Aftermath.antt =====
-- What a write does beside the database: `emitAudit` of packages/core/src/runtime/audit.ts,
-- `actorIdFromSession` of packages/next/src/runtime/action-helpers.ts, and `baseAudit` and
-- `runPostCommitEffects` of packages/next/src/actions/resource-actions.ts. The sink, the publisher,
-- Next's `revalidatePath` and `String(value)` are parameters, and may throw.
use flowpanel.Base.{
  String, Bool, true, not, ◌==◌, Option, none, some, List, [], ◌∷◌, ok, err, or_else, if◌then◌else◌,
}
use Prim.Native.String.{◌++◌ as append}
use flowpanel.Base.Dict.{lookup}
use flowpanel.Base.Value.{Value, undefined, null, str, obj, Session, Row, props}
use flowpanel.Errors.{Throws}
use flowpanel.Guards.{RequestContext}

-- The rows, or the parts of them, before and after; `none` is `null`.
pub record Diff : Type 0 where
  pub before : Option Row
  pub after : Option Row

-- `AuditEvent`, less its time.
pub record Event : Type 0 where
  pub actor_id : Option String
  pub action : String
  pub resource : String
  pub target_id : Option String
  pub diff : Option Diff
  pub ip : Option String
  pub user_agent : Option String

pub data Change : Type 0 where
  created updated deleted : Change

-- What is published on a channel: a change of a row, or no payload.
pub record Notice : Type 0 where
  pub channel : String
  pub change : Option Change
  pub id : Option String

-- The calls made so far, the latest first, and the failures that were only logged.
pub record Effects : Type 0 where
  pub audited : List Event
  pub published : List Notice
  pub revalidated : List String
  pub failures : List String

pub record AuditConfig : Type 0 where
  pub enabled : Option Bool
  pub sink : Option (Event → Throws (Unit {0}))

-- The parts of the configuration and of the platform that these effects use. `user_id` is
-- `auth.userId`.
pub record Outside : Type 0 where
  pub audit : Option AuditConfig
  pub user_id : Option (Option Session → Throws Value)
  pub to_text : Value → String
  pub publish : Notice → Throws (Unit {0})
  pub revalidate : String → Throws (Unit {0})

-- A failure that is logged and goes no further.
abbrev pub logged : Throws (Unit {0}) → String → Effects → Effects
logged (ok _) message e = e
logged (err t) message e = record e { failures = message ∷ e.failures }

-- `emitAudit`.
unfoldable pub emit_audit : Option AuditConfig → Event → Effects → Effects
emit_audit none event e = e
emit_audit (some a) event e = if not (or_else a.enabled true) then e else elim a.sink [
  | none ↦ e
  | some sink ↦
      logged (sink event) "[flowpanel] audit sink error:" (record e { audited = event ∷ e.audited })
]

-- `idString`.
unfoldable pub id_string : (Value → String) → Value → Option String
id_string to_text undefined = none
id_string to_text null = none
id_string to_text (str s) = if s == "" then none else some s
id_string to_text v = some (to_text v)

abbrev value_of : Option Value → Value
value_of v = or_else v undefined

unfoldable pub user_actor : (Value → String) → Value → Option String
unfolding id_string lookup
user_actor to_text (obj ps) = id_string to_text (value_of (lookup "id" (props ps)))
user_actor to_text v = none

abbrev or_user : Option String → Option String → Option String
or_user (some id) other = some id
or_user none other = other

unfoldable pub session_actor : (Value → String) → Option Session → Option String
unfolding id_string user_actor lookup
session_actor to_text none = none
session_actor to_text (some s) =
    or_user (id_string to_text (value_of (lookup "id" s)))
      (user_actor to_text (value_of (lookup "user" s)))

-- `actorIdFromSession`.
unfoldable pub actor_id_from_session : Outside → Option Session → Option String
unfolding session_actor id_string
actor_id_from_session o session = elim o.user_id [
  | none ↦ session_actor o.to_text session
  | some extract ↦ elim (extract session) [ ok v ↦ id_string o.to_text v | err t ↦ none ]
]

-- `...(text ? { key: text } : {})`.
abbrev pub unless_empty : Option String → Option String
unless_empty none = none
unless_empty (some s) = if s == "" then none else some s

-- The event of `baseAudit`.
unfoldable pub audit_event :
    Outside → (name operation : String) (target : Option String) → RequestContext → Event
unfolding actor_id_from_session
audit_event o name operation target c = record {
  actor_id = actor_id_from_session o c.session;
  action = append name (append "." operation);
  resource = name;
  target_id = target;
  diff = none;
  ip = unless_empty c.ip;
  user_agent = unless_empty c.user_agent;
}

-- `baseAudit`; `audits` is false where the resource's `audit` is false.
unfoldable pub base_audit :
    Outside
    → (audits : Bool) (name operation : String) (target : Option String) → RequestContext
    → Effects
    → Effects
unfolding emit_audit audit_event
base_audit o audits name operation target c e =
    if audits then emit_audit o.audit (audit_event o name operation target c) e else e

abbrev pub publish_notice : Outside → Notice → Effects → Effects
publish_notice o n e =
    logged (o.publish n) "[flowpanel] realtime effect failed"
      (record e { published = n ∷ e.published })

unfoldable pub revalidate_paths : Outside → List String → Effects → Effects
revalidate_paths o [] e = e
revalidate_paths o (path ∷ paths) e = revalidate_paths o paths (
    logged (o.revalidate path) "[flowpanel] revalidation effect failed"
      (record e { revalidated = path ∷ e.revalidated }))

-- `runPostCommitEffects` with `publishResource`; `publishes` is false where the option is false.
unfoldable pub run_post_commit_effects :
    Outside
    → (publishes : Bool) (name : String) → Change
    → Option String
    → List String
    → Effects
    → Effects
unfolding revalidate_paths
run_post_commit_effects o publishes name change id paths e =
    if not publishes
    then e
    else revalidate_paths o paths (
        publish_notice o
          (record { channel = append "resource." name; change = some change; id = id }) e)
