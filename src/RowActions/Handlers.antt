-- ===== src/RowActions/Handlers.antt =====
-- The handler of packages/next/src/actions/row-action.ts, behind its guards. What an action runs is a
-- function of the state, as it may write to the database and publish.
use flowpanel.Base.{
  ℕ, String, Bool, true, false, not, ◌&&◌, ◌==◌, Option, none, some, List, [], Result, ok, err,
  ◌>>=◌, if◌then◌else◌,
}
use Prim.Native.String.{◌++◌ as append}
use flowpanel.Base.Value.{Value, Row}
use flowpanel.Errors.{Throws}
use flowpanel.Policy.{FieldWriteContext, AccessRule, RequireRole}
use flowpanel.Guards.{RequestContext}
use flowpanel.RequestBody.{BodyError}
use flowpanel.Writes.{Admin, Entity, State, Diff, read_row, list_path}
use flowpanel.RowActions.Input.{ActionField, InputSchema, InputIssue, parse_action_input}
use flowpanel.RowActions.Outcome.{
  ActionResult, validate_action_output, compute_shallow_diff, is_audit_active, is_success,
  build_audit_event, maybe_emit_audit, apply_action_result,
}

-- What `disabled` answers: a falsy value, a text, or true.
pub data Reason : Type 0 where
  enabled off : Reason
  because : String → Reason

pub record RowAction (D : Type 0) : Type 0 where
  pub key : String
  pub access : Option AccessRule
  pub require_role : Option RequireRole
  pub when : Option (FieldWriteContext → Throws Bool)
  pub hidden : Option (Row → RequestContext → Throws Bool)
  pub disabled : Option (Row → Throws Reason)
  pub form : List ActionField
  pub input_schema : Option InputSchema
  pub output_schema : Option (Value → Throws (Option Value))
  pub run : Row → Row → RequestContext → State D → Throws ActionResult × State D

-- The responses of the two handlers.
pub data Response : Type 0 where
  no_such_row : Response
  row_disabled : String → Response
  bad_body : BodyError → Response
  bad_ids bad_input : Response
  too_many : ℕ → Response
  invalid : List InputIssue → Response
  answered : ActionResult → Response

-- What stands before `run`: a response, or the row and the input that it runs on.
pub data Step (R : Type 0) : Type 0 where
  stop : Response → Step R
  proceed : R → (input : Row) → Step R

abbrev pub allowed_when :
    Option (FieldWriteContext → Throws Bool) → Row → RequestContext → Throws Bool
allowed_when none row c = ok true
allowed_when (some f) row c = f (record { caller = c.caller; current = some row; input = [] })

abbrev pub is_hidden :
    Option (Row → RequestContext → Throws Bool) → Row → RequestContext → Throws Bool
is_hidden none row c = ok false
is_hidden (some f) row c = f row c

abbrev pub reason_of : Option (Row → Throws Reason) → Row → Throws Reason
reason_of none row = ok enabled
reason_of (some f) row = f row

abbrev pub refusal : Reason → Option Response
refusal enabled = none
refusal off = some (row_disabled "action disabled for this row")
refusal (because s) = if s == "" then none else some (row_disabled s)

module _ {D : Type 0} where
  -- `when`, `hidden` and `disabled`, in this order.
  unfoldable pub check_row : RowAction D → Row → RequestContext → Throws (Option Response)
  check_row act row c = do
    allowed ← allowed_when act.when row c
    if not allowed then ok (some no_such_row) else do
      concealed ← is_hidden act.hidden row c
      if concealed
          then ok (some no_such_row)
          else do reason ← reason_of act.disabled row; ok (refusal reason)

abbrev pub with_input : {R : Type 0} → R → Result (List InputIssue) Row → Step R
with_input row (err issues) = stop (invalid issues)
with_input row (ok input) = proceed row input

-- The body and the input schema.
unfoldable pub read_input :
    {R : Type 0}
    → List ActionField
    → Option InputSchema
    → R
    → Result BodyError Row
    → Throws (Step R)
unfolding parse_action_input
read_input form s row (err reason) = ok (stop (bad_body reason))
read_input form s row (ok input) = do
  parsed ← parse_action_input form s input
  ok (with_input row parsed)

-- The handler between the row and `run`.
unfoldable pub unless_refused :
    {D : Type 0} → RowAction D → Result BodyError Row → Row → Option Response → Throws (Step Row)
unfolding read_input
unless_refused act body row (some response) = ok (stop response)
unless_refused act body row none = read_input act.form act.input_schema row body

unfoldable pub after_read :
    {D : Type 0}
    → RowAction D
    → RequestContext
    → Result BodyError Row
    → Option Row
    → Throws (Step Row)
unfolding check_row unless_refused
after_read act c body none = ok (stop no_such_row)
after_read act c body (some row) = check_row act row c >>= unless_refused act body row

module _ {D : Type 0} (is_same : Value → Value → Bool) (a : Admin D) (e : Entity) where
  -- The handler up to `run`; `body` is what `readActionInput` answers.
  unfoldable pub prepare_row :
      RowAction D → String → RequestContext → Result BodyError Row → D → Throws (Step Row)
  unfolding read_row after_read
  prepare_row act id c body db = read_row a e id c db >>= after_read act c body

  abbrev or_absent : Throws (Option Row) → Option Row
  or_absent (ok row) = row
  or_absent (err t) = none

  -- What the audit log is told to have changed: the row is read again.
  unfoldable pub difference : String → RequestContext → ActionResult → Row → D → Option Diff
  unfolding read_row compute_shallow_diff is_audit_active
  difference id c result row db =
      if is_success result && is_audit_active a.outside.audit e.audits
      then compute_shallow_diff is_same (some row) (or_absent (read_row a e id c db))
      else none

  -- The audit event and the effects of a result.
  unfoldable pub settle :
      (action target : String) → RequestContext → Option Diff → ActionResult → State D → State D
  unfolding maybe_emit_audit build_audit_event apply_action_result list_path
  settle action target c diff result s = record s {
    effects = apply_action_result a.outside (append "resource." e.name) (list_path a e) result (
        maybe_emit_audit result a.outside e.audits
          (build_audit_event a.outside e.name action target diff c) s.effects);
  }

  -- What follows `run`.
  unfoldable pub conclude_row :
      RowAction D
      → String
      → RequestContext
      → Row
      → Throws ActionResult × State D
      → Throws Response × State D
  unfolding validate_action_output difference settle
  conclude_row act id c row (err t, s) = (err t, s)
  conclude_row act id c row (ok raw, s) = elim (validate_action_output act.output_schema raw) [
    | err t ↦ (err t, s)
    | ok result ↦ (
      ok (answered result),
      settle (append e.name (append ".action." act.key)) id c (difference id c result row s.db)
          result s,
    )
  ]

  -- The handler.
  unfoldable pub run_row_action :
      RowAction D
      → String
      → RequestContext
      → Result BodyError Row
      → State D
      → Throws Response × State D
  unfolding prepare_row conclude_row
  run_row_action act id c body s = elim (prepare_row act id c body s.db) [
    | err t ↦ (err t, s)
    | ok step ↦ elim step [
      | stop response ↦ (ok response, s)
      | proceed row input ↦ conclude_row act id c row (act.run row input c s)
    ]
  ]
