-- ===== src/Controller/Commands.antt =====
-- `execute`, `create`, `update` and `delete` of packages/next/src/controllers/resource-controller.ts, over
-- the writes of Writes. The diagnostic hook is that of Errors/Report.
use flowpanel.Base.{
  String, Bool, ◌≡◌, ap, Option, none, some, [], ◌∷◌, Result, ok, err, ◌>>=◌, >>=-eq-ok,
}
use flowpanel.Base.Dict.{lookup}
use flowpanel.Base.Value.{Value, Row}
use flowpanel.Errors.{Throws, ResultError, error_result, new_error}
use flowpanel.Errors.Report.{Reports, report}
use flowpanel.Policy.{AccessContext}
use flowpanel.Policy.Reading.{MayRead}
use flowpanel.Guards.{RequestContext}
use flowpanel.Rows.{Shape, resolve_row_projection, project_authorized_row}
use flowpanel.Rows.Projection.{project_authorized_row-lookup}
use flowpanel.Writes.{Admin, Entity, State, create_row, update_row, delete_row}

-- `execute`: an outcome as a `FlowpanelResult`, with the error reported.
unfoldable pub execute :
    {A : Type 0}
    → Option (String → Bool)
    → String
    → Throws A
    → Reports
    → Result ResultError A × Reports
unfolding error_result
execute hook id (ok a) r = (ok a, r)
execute hook id (err t) r = (err (error_result t id), report hook t r)

-- The projection of what a creation answers; no own field can be read of `null`.
unfoldable pub project_created : Shape → AccessContext → Option Row → Throws Row
unfolding project_authorized_row resolve_row_projection
project_created s c (some row) = project_authorized_row s row c []
project_created s c none = do
  readable ← resolve_row_projection s c []
  elim readable [
    | [] ↦ ok []
    | field ∷ fields ↦ err (new_error "Cannot convert undefined or null to object")
  ]

module _ {D : Type 0} (a : Admin D) (e : Entity) (shape : Shape) (c : RequestContext) where
  unfoldable pub create : Value → State D → Throws Row × State D
  unfolding create_row project_created
  create input s =
      let (written, s') = create_row a e (ok c) input s in
      (written >>= project_created shape c.caller, s')

  unfoldable pub update : String → Value → State D → Throws Row × State D
  unfolding update_row project_authorized_row
  update id input s =
      let (written, s') = update_row a e id (ok c) input s in
      (written >>= λ row. project_authorized_row shape row c.caller [], s')

  unfoldable pub delete : String → State D → Throws (Unit {0}) × State D
  unfolding delete_row
  delete id s = delete_row a e id (ok c) s

  -- An update that answers a row is a write that answered one and left the same database and effects;
  -- each value answered is that of the written row, of a field that the caller may read.
  pub update-IsReadable :
      (id : String) (input : Value) (s s' : State D) (out : Row)
      → update id input s ≡ (ok out, s')
      → (row : Row) × (update_row a e id (ok c) input s ≡ (ok row, s'))
        × ((k : String) (v : Value)
            → lookup k out ≡ some v
            → MayRead shape.field_access c.caller k × (lookup k row ≡ some v))
  unfolding update
  update-IsReadable id input s s' out h =
      let (row, written, projected) =
        >>=-eq-ok (update_row a e id (ok c) input s).0
          (λ row. project_authorized_row shape row c.caller [])
          (ap (λ (p : Throws Row × State D). p.0) h) in
      let after : (update_row a e id (ok c) input s).1 ≡ s' =
        ap (λ (p : Throws Row × State D). p.1) h in
      (
        row,
        (λ i. (written i, after i)),
        λ k v there.
            (let (_, may, held) =
                project_authorized_row-lookup shape row out c.caller [] k v projected there in
              (may, held)),
      )
