-- ===== src/RowActions/Outcome.antt =====
-- What comes of an action: its result, the difference that the audit log is told, and the effects of
-- packages/next/src/runtime/apply-action-result.ts and action-helpers.ts.
-- `Object.is` compares objects by identity, which a value here does not have: it is a parameter.
use flowpanel.Base.{
  String, Bool, true, false, Option, none, some, List, [], ◌∷◌, ◌++◌, ok, err, ◌>>=◌, is_some,
  if◌then◌else◌,
}
use flowpanel.Base.Dict.{lookup, insert, keys}
use flowpanel.Base.Value.{Value, Row}
use flowpanel.Errors.{Throws, new_error}
use flowpanel.Guards.{RequestContext}
use flowpanel.Rows.{unique}
use flowpanel.Writes.{
  get, is_undefined, Diff, Event, AuditConfig, Outside, Effects, Notice, updated, logged,
  publish_notice, emit_audit, actor_id_from_session, unless_empty,
}

-- `refresh`: absent, a Boolean, or channels (one text is one channel).
pub data Refresh : Type 0 where
  by_default everything nothing : Refresh
  channels : List String → Refresh

-- `ActionResult`; `rest` is what is only passed on.
pub data ActionResult : Type 0 where
  succeeded : Refresh → (data_ : Value) (rest : Row) → ActionResult
  failed : (rest : Row) → ActionResult

-- `validateActionOutput`, of the `safeParse` of the output schema.
unfoldable pub validate_action_output :
    Option (Value → Throws (Option Value)) → ActionResult → Throws ActionResult
validate_action_output schema (failed rest) = ok (failed rest)
validate_action_output schema (succeeded refresh data_ rest) =
    if is_undefined data_ then ok (succeeded refresh data_ rest) else elim schema [
      | none ↦ err (new_error "An action returned data without declaring outputSchema.")
      | some parse ↦ do
        parsed ← parse data_
        elim parsed [
          | none ↦ err (new_error "An action returned data that failed outputSchema.")
          | some clean ↦ ok (succeeded refresh clean rest)
        ]
    ]

-- The keys whose values differ, with the values of one of the rows.
unfoldable pub changes :
    (Value → Value → Bool) → (shown before after : Row) → List String → Row → Row
unfolding lookup insert
changes is_same shown before after [] out = out
changes is_same shown before after (k ∷ ks) out =
    changes is_same shown before after ks
      (if is_same (get k before) (get k after) then out else insert k (get k shown) out)

unfoldable pub all_keys : Row → Row → List String
unfolding keys unique
all_keys before after = unique (keys before ++ keys after)

-- `computeShallowDiff`.
unfoldable pub compute_shallow_diff : (Value → Value → Bool) → Option Row → Option Row → Option Diff
unfolding changes all_keys
compute_shallow_diff is_same none none = none
compute_shallow_diff is_same none (some after) = some (record { before = none; after = some after })
compute_shallow_diff is_same (some before) none =
    some (record { before = some before; after = none })
compute_shallow_diff is_same (some before) (some after) =
    elim (changes is_same after before after (all_keys before after) []) [
      | [] ↦ none
      | first ∷ others ↦ some (record {
        before = some (changes is_same before before after (all_keys before after) []);
        after = some (first ∷ others);
      })
    ]

-- `isAuditActive`.
unfoldable pub is_audit_active : Option AuditConfig → (audits : Bool) → Bool
is_audit_active config false = false
is_audit_active none true = false
is_audit_active (some a) true = is_some a.sink

abbrev pub is_success : ActionResult → Bool
is_success (succeeded refresh data_ rest) = true
is_success (failed rest) = false

-- `buildAuditEvent`.
unfoldable pub build_audit_event :
    Outside → (name action target : String) → Option Diff → RequestContext → Event
unfolding actor_id_from_session
build_audit_event o name action target diff c = record {
  actor_id = actor_id_from_session o c.session;
  action = action;
  resource = name;
  target_id = some target;
  diff = diff;
  ip = unless_empty c.ip;
  user_agent = unless_empty c.user_agent;
}

-- `maybeEmitAudit`.
unfoldable pub maybe_emit_audit :
    ActionResult → Outside → (audits : Bool) → Event → Effects → Effects
unfolding emit_audit
maybe_emit_audit (failed rest) o audits event e = e
maybe_emit_audit (succeeded refresh data_ rest) o false event e = e
maybe_emit_audit (succeeded refresh data_ rest) o true event e = emit_audit o.audit event e

-- Publishes on channel after channel; the first failure ends it and is logged.
unfoldable pub publish_all : Outside → List String → Effects → Effects
publish_all o [] e = e
publish_all o (channel ∷ others) e =
    let notice : Notice = record { channel = channel; change = none; id = none } in
    let e' = publish_notice o notice e in
    let later = publish_all o others e' in elim (o.publish notice) [ ok _ ↦ later | err t ↦ e' ]

revalidate_list : Outside → String → Effects → Effects
revalidate_list o path e =
    logged (o.revalidate path) "[flowpanel] revalidation effect failed"
      (record e { revalidated = path ∷ e.revalidated })

-- `applyActionResult` of a resource; `channel` is the channel of the resource and `path` its list.
unfoldable pub apply_action_result :
    Outside → (channel path : String) → ActionResult → Effects → Effects
unfolding publish_all revalidate_list
apply_action_result o channel path (failed rest) e = e
apply_action_result o channel path (succeeded everything data_ rest) e =
    revalidate_list o path
      (publish_notice o (record { channel = channel; change = some updated; id = none }) e)
apply_action_result o channel path (succeeded by_default data_ rest) e = revalidate_list o path e
apply_action_result o channel path (succeeded nothing data_ rest) e = e
apply_action_result o channel path (succeeded (channels cs) data_ rest) e =
    revalidate_list o path (publish_all o cs e)
