-- ===== src/RowActions/Routes.antt =====
-- The routes of row-action.ts and bulk-action.ts in packages/next/src/actions: the action of the key,
-- its guards, and its handler.
use flowpanel.Base.{ℕ, String, Bool, ◌==◌, Option, none, some, List, Result, find, if◌then◌else◌}
use flowpanel.Base.Value.{Value, Row}
use flowpanel.Policy.{delete}
use flowpanel.Guards.{Platform, Request, Spec, Reply, World, with_guards}
use flowpanel.RequestBody.{BodyError}
use flowpanel.Writes.{Admin, Entity, State}
use flowpanel.RowActions.Handlers.{RowAction, Response, run_row_action}
use flowpanel.RowActions.Bulk.{
  BulkAction, BulkBody, Work, delete_all_rows, run_on, Transaction, run_bulk_action,
}

-- `isBuiltinBulkDelete`.
abbrev pub is_builtin_delete : {D : Type 0} → Work D → Bool
is_builtin_delete delete_all_rows = Bool.true
is_builtin_delete (run_on run) = Bool.false

abbrev pub row_spec : {D : Type 0} → Entity → RowAction D → Spec
row_spec e act = record {
  resource = some e.guarded;
  page_require_role = none;
  action_require_role = act.require_role;
  action_access = act.access;
  operation = none;
  write = none;
  result_envelope = Bool.false;
}

abbrev pub bulk_spec : {D : Type 0} → Entity → BulkAction D → Spec
bulk_spec e act = record {
  resource = some e.guarded;
  page_require_role = none;
  action_require_role = act.require_role;
  action_access = act.access;
  operation = if is_builtin_delete act.work then some delete else none;
  write = none;
  result_envelope = Bool.false;
}

-- What a route answers: that there is no such action, or the reply behind the guards.
pub data Routed : Type 0 where
  no_such_action : Routed
  replied : Reply Response → Routed

abbrev pub reply_of : {S : Type 0} → Reply Response × S → Routed × S
reply_of (r, s) = (replied r, s)

module _ {D : Type 0} (is_same : Value → Value → Bool) (p : Platform) (a : Admin D) (e : Entity)
    (req : Request) (request_id : String) where
  -- The route of row actions; `body` is what `readActionInput` answers.
  unfoldable pub row_action_route :
      List (RowAction D)
      → (id key : String) → Result BodyError Row
      → World (State D)
      → Routed × World (State D)
  unfolding with_guards run_row_action
  row_action_route actions id key body w =
      elim (find (λ (act : RowAction D). act.key == key) actions) [
        | none ↦ (no_such_action, w)
        | some act ↦ reply_of (
            with_guards p a.guard req request_id (row_spec e act)
              (λ c s. run_row_action is_same a e act id c body s) w)
      ]

  -- The route of bulk actions.
  unfoldable pub bulk_action_route :
      (ℕ → String)
      → Option (Transaction D)
      → List (BulkAction D)
      → (key : String) → BulkBody
      → World (State D)
      → Routed × World (State D)
  unfolding with_guards run_bulk_action
  bulk_action_route digits transaction actions key body w =
      elim (find (λ (act : BulkAction D). act.key == key) actions) [
        | none ↦ (no_such_action, w)
        | some act ↦ reply_of (
            with_guards p a.guard req request_id (bulk_spec e act)
              (λ c s. run_bulk_action is_same digits transaction a e act body c s) w)
      ]
