-- ===== src/RowActions/Guarded.antt =====
-- The route of a row action, from the guards to the row.
use flowpanel.Base.{
  String, Bool, ◌==◌, ◌≡◌, refl, ap, ◌∙◌, ◌⊎◌, inl, inr, some, Option-cases, List, Result, ok, err,
  find,
}
use flowpanel.Base.Value.{Value, Row}
use flowpanel.Errors.{Throws}
use flowpanel.Guards.{
  Config, Platform, Request, RequestContext, World, finish, with_guards, build_request_context,
}
use flowpanel.Guards.Admission.{Admitted, with_guards-Admitted}
use flowpanel.RequestBody.{BodyError}
use flowpanel.Writes.{Admin, Entity, State}
use flowpanel.RowActions.Handlers.{RowAction, run_row_action}
use flowpanel.RowActions.Routes.{row_spec, row_action_route}
use flowpanel.RowActions.Admission.{Reaches, run_row_action-Reaches}

-- The answer does not change the state of the application.
pub finish-app :
    {A R : Type 0} (config : Config) (id : String) (envelope : Bool) (w : World A)
    (r : Throws R × A)
    → (finish config id envelope w r).1.app ≡ r.1
finish-app config id envelope w (ok r, app) = refl
finish-app config id envelope w (err t, app) = refl

module _ {D : Type 0} (is_same : Value → Value → Bool) (p : Platform) (a : Admin D) (e : Entity)
    (req : Request) (request_id : String) where
  guarded-Reaches :
      (act : RowAction D) (id : String) (body : Result BodyError Row) (w : World (State D))
      → ((with_guards p a.guard req request_id
            (row_spec e act)
            (λ c s. run_row_action is_same a e act id c body s)
            w).1.app
          ≡ w.app)
        ⊎ ((c : RequestContext) × (row : Row) × (input : Row) × Admitted p a.guard req request_id
              (row_spec e act)
              w
              c
            × Reaches a e act id c body w.app.db row input)
  guarded-Reaches act id body w =
      elim (with_guards-Admitted p a.guard req request_id (row_spec e act)
        (λ c s. run_row_action is_same a e act id c body s) w) [
          | inr (_, (answer, kept)) ↦ inl kept
          | inl (c, admitted, same) ↦
              elim (run_row_action-Reaches a e is_same act id c body w.app) [
                | inl kept ↦ inl (
                    ap (λ out. out.1.app) same
                    ∙ finish-app a.guard request_id (row_spec e act).result_envelope
                        (record w {
                          limiter = (build_request_context p a.guard req request_id w.limiter).1;
                        })
                        (run_row_action is_same a e act id c body w.app)
                    ∙ kept)
                | inr (row, input, reached, ran) ↦ inr (c, row, input, admitted, reached)
              ]
        ]

  -- A request for a row action changes the state of the rows and the effects only where the action of
  -- the key is there, the origin check and every guard admit the request, the caller's scope shows the
  -- row, the row has passed the action's own conditions, and the input its form and schema.
  pub row_action_route-Reaches :
      (actions : List (RowAction D)) (id key : String) (body : Result BodyError Row)
      (w : World (State D))
      → ((row_action_route is_same p a e req request_id actions id key body w).1.app ≡ w.app)
        ⊎ ((act : RowAction D) × (find (λ (x : RowAction D). x.key == key) actions ≡ some act)
            × ((c : RequestContext) × (row : Row) × (input : Row) × Admitted p a.guard req
                  request_id
                  (row_spec e act)
                  w
                  c
                × Reaches a e act id c body w.app.db row input))
  unfolding row_action_route
  row_action_route-Reaches actions id key body w =
      elim (Option-cases (find (λ (x : RowAction D). x.key == key) actions)) [
        | inl absent ↦ inl (rw (absent, row_action_route) refl)
        | inr (act, there) ↦ elim (guarded-Reaches act id body w) [
          | inl kept ↦ inl (rw (there, row_action_route) kept)
          | inr reached ↦ inr (act, there, reached)
        ]
      ]
