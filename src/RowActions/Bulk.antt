-- ===== src/RowActions/Bulk.antt =====
-- The handler of packages/next/src/actions/bulk-action.ts, behind its guards; its body is read in
-- Body. The rows are read at once there: one after the other here.
use flowpanel.Base.{
  ℕ, zero, suc, String, Bool, ltb, length, Option, none, some, List, [], ◌∷◌, Result, ok, err,
  ◌>>=◌, ◌>>◌, or_else, if◌then◌else◌,
}
use Prim.Native.String.{◌++◌ as append}
use flowpanel.Base.Value.{Value, undefined, str, Row}
use flowpanel.Errors.{Throws}
use flowpanel.Policy.{AccessRule, RequireRole}
use flowpanel.Guards.{RequestContext}
use flowpanel.RequestBody.{BodyError}
use flowpanel.Rows.{unique}
use flowpanel.Writes.{Admin, Entity, State, read_row, found, delete_mutation}
use flowpanel.RowActions.Input.{ActionField, InputSchema, InputIssue, parse_action_input}
use flowpanel.RowActions.Outcome.{ActionResult, succeeded, by_default, validate_action_output}
use flowpanel.RowActions.Handlers.{
  Response, Step, stop, proceed, bad_body, bad_ids, bad_input, too_many, invalid, answered, settle,
}

-- `BulkBody`.
pub data BulkBody : Type 0 where
  given : (ids : List String) (input : Row) → BulkBody
  unreadable : BodyError → BulkBody
  no_ids no_input : BulkBody

-- What a bulk action does: the built-in deletion, or its own `run`.
pub data Work (D : Type 0) : Type 0 where
  delete_all_rows : Work D
  run_on : (List String → Row → RequestContext → State D → Throws ActionResult × State D) → Work D

pub record BulkAction (D : Type 0) : Type 0 where
  pub key : String
  pub access : Option AccessRule
  pub require_role : Option RequireRole
  pub max : Option ℕ
  pub form : List ActionField
  pub input_schema : Option InputSchema
  pub output_schema : Option (Value → Throws (Option Value))
  pub work : Work D

-- `adapter.transaction`: runs writes on the database as one.
abbrev pub Transaction : Type 0 → Type 0
Transaction D = (D → Throws (Unit {0}) × D) → D → Throws (Unit {0}) × D

abbrev pub max_bulk : ℕ
max_bulk = 1000

first_ids : ℕ → List String → List String
first_ids zero ids = []
first_ids (suc n) [] = []
first_ids (suc n) (id ∷ ids) = id ∷ first_ids n ids

join : List String → String
join [] = ""
join (id ∷ []) = id
join (id ∷ (next ∷ ids)) = append id (append "," (join (next ∷ ids)))

-- The rows that the audit log names.
unfoldable pub target_ids : List String → String
unfolding first_ids join
target_ids ids = append (join (first_ids 10 ids)) (if ltb 10 (length ids) then "…" else "")

module _ {D : Type 0} (a : Admin D) (e : Entity) where
  -- Each row is there.
  unfoldable pub check_all : List String → RequestContext → D → Throws (Unit {0})
  unfolding read_row
  check_all [] c db = ok tt
  check_all (id ∷ ids) c db = do row ← read_row a e id c db; current ← found row; check_all ids c db

  abbrev pub and_then : (D → Throws (Unit {0}) × D) → Throws (Unit {0}) × D → Throws (Unit {0}) × D
  and_then next (ok _, db) = next db
  and_then next (err t, db) = (err t, db)

  -- `deleteAll`.
  unfoldable pub delete_all : List String → RequestContext → D → Throws (Unit {0}) × D
  unfolding delete_mutation
  delete_all [] c db = (ok tt, db)
  delete_all (id ∷ ids) c db =
      and_then (delete_all ids c) (a.adapter.delete (delete_mutation a e c id) db)

  unfoldable pub after_parse :
      List String → RequestContext → D → Result (List InputIssue) Row → Throws (Step (List String))
  unfolding check_all
  after_parse ids c db (err issues) = ok (stop (invalid issues))
  after_parse ids c db (ok data_) = do check_all ids c db; ok (proceed ids data_)

  -- The handler up to the work: the distinct identifiers and the input.
  unfoldable pub prepare_bulk :
      BulkAction D → BulkBody → RequestContext → D → Throws (Step (List String))
  unfolding unique parse_action_input after_parse
  prepare_bulk act (unreadable reason) c db = ok (stop (bad_body reason))
  prepare_bulk act no_ids c db = ok (stop bad_ids)
  prepare_bulk act no_input c db = ok (stop bad_input)
  prepare_bulk act (given all_ids input) c db =
      let ids = unique all_ids in
      let max = or_else act.max max_bulk in
      if ltb max (length ids)
      then ok (stop (too_many max))
      else parse_action_input act.form act.input_schema input >>= after_parse ids c db

module _ {D : Type 0} (is_same : Value → Value → Bool) (digits : ℕ → String)
    (transaction : Option (Transaction D)) (a : Admin D) (e : Entity) where
  -- In a transaction, where the adapter has them.
  unfoldable pub delete_rows : List String → RequestContext → D → Throws (Unit {0}) × D
  unfolding delete_all
  delete_rows ids c db = elim transaction [
    | none ↦ delete_all a e ids c db
    | some run ↦ run (delete_all a e ids c) db
  ]

  abbrev pub deleted_all :
      List String → State D → Throws (Unit {0}) × D → Throws ActionResult × State D
  deleted_all ids s (err t, db) = (err t, record s { db = db })
  deleted_all ids s (ok _, db) = (
    ok (
        succeeded by_default undefined
          (("message", str (append "Deleted " (digits (length ids)))) ∷ [])),
    record s { db = db },
  )

  abbrev validated :
      Option (Value → Throws (Option Value))
      → Throws ActionResult × State D
      → Throws ActionResult × State D
  validated schema (err t, s) = (err t, s)
  validated schema (ok raw, s) = (validate_action_output schema raw, s)

  unfoldable pub do_work :
      BulkAction D → List String → Row → RequestContext → State D → Throws ActionResult × State D
  unfolding delete_rows validate_action_output
  do_work act ids input c s = elim act.work [
    | delete_all_rows ↦ deleted_all ids s (delete_rows ids c s.db)
    | run_on run ↦ validated act.output_schema (run ids input c s)
  ]

  unfoldable pub conclude_bulk :
      BulkAction D
      → List String
      → RequestContext
      → Throws ActionResult × State D
      → Throws Response × State D
  unfolding settle target_ids
  conclude_bulk act ids c (err t, s) = (err t, s)
  conclude_bulk act ids c (ok result, s) = (
    ok (answered result),
    settle is_same a e (append e.name (append ".bulk." act.key)) (target_ids ids) c none result s,
  )

  -- The handler.
  unfoldable pub run_bulk_action :
      BulkAction D → BulkBody → RequestContext → State D → Throws Response × State D
  unfolding prepare_bulk do_work conclude_bulk
  run_bulk_action act body c s = elim (prepare_bulk a e act body c s.db) [
    | err t ↦ (err t, s)
    | ok step ↦ elim step [
      | stop response ↦ (ok response, s)
      | proceed ids input ↦ conclude_bulk act ids c (do_work act ids input c s)
    ]
  ]
