-- ===== src/RowActions/Admission.antt =====
-- When the `run` of a row action is reached.
use flowpanel.Base.{
  String, Bool, true, false, not, ◌≡◌, refl, ap, subst, ◌∙◌, ◌⊎◌, inl, inr, Option, none, some,
  List, Result, ok, err, ◌>>=◌, >>=-eq-ok, Result-cases, ok_inj, arith, if◌then◌else◌,
}
use flowpanel.Base.Value.{Value, Row}
use flowpanel.Errors.{Throws}
use flowpanel.Guards.{RequestContext}
use flowpanel.RequestBody.{BodyError}
use flowpanel.Writes.{Admin, Entity, State, read_row}
use flowpanel.RowActions.Input.{parse_action_input, InputIssue}
use flowpanel.RowActions.Handlers.{
  RowAction, Reason, Response, stop, proceed, allowed_when, is_hidden, unless_refused, after_read,
  reason_of, refusal, with_input, check_row, read_input, prepare_row, conclude_row, run_row_action,
}

-- What a row has passed before an action runs on it.
pub record MayRun {D : Type 0} (act : RowAction D) (row : Row) (c : RequestContext) : Type 0 where
  pub allowed : allowed_when act.when row c ≡ ok true
  pub shown : is_hidden act.hidden row c ≡ ok false
  pub reason : Reason
  pub asked : reason_of act.disabled row ≡ ok reason
  pub open_ : refusal reason ≡ none

passed :
    (asked : Throws Bool) (next : Throws (Option Response)) (r : Response)
    → (asked >>= λ b. if not b then ok (some r) else next) ≡ ok none
    → (asked ≡ ok true) × (next ≡ ok none)
passed (err t) next r same = cc
passed (ok true) next r same = (refl, same)
passed (ok false) next r same = cc

not_stopped :
    (asked : Throws Bool) (next : Throws (Option Response)) (r : Response)
    → (asked >>= λ b. if b then ok (some r) else next) ≡ ok none
    → (asked ≡ ok false) × (next ≡ ok none)
not_stopped (err t) next r same = cc
not_stopped (ok false) next r same = (refl, same)
not_stopped (ok true) next r same = cc

check_row-MayRun :
    {D : Type 0} (act : RowAction D) (row : Row) (c : RequestContext)
    → check_row act row c ≡ ok none
    → MayRun act row c
unfolding check_row
check_row-MayRun act row c same =
    let (allowed, later) = passed (allowed_when act.when row c) _ _ same in
    let (shown, last) = not_stopped (is_hidden act.hidden row c) _ _ later in
    let (reason, asked, done) = >>=-eq-ok (reason_of act.disabled row) _ last in
    record { allowed = allowed; shown = shown; reason = reason; asked = asked; open_ = ok_inj done }

module _ {D : Type 0} (a : Admin D) (e : Entity) where
  -- What stands behind a call of `run`: the row, as the caller's scope shows it, has passed, and the
  -- input is what the declared form and schema made of the body.
  pub record Reaches (act : RowAction D) (id : String) (c : RequestContext)
      (body : Result BodyError Row) (db : D) (row input : Row) : Type 0 where
    pub seen : read_row a e id c db ≡ ok (some row)
    pub passed_all : MayRun act row c
    pub sent : Row
    pub sent-eq : body ≡ ok sent
    pub parsed : parse_action_input act.form act.input_schema sent ≡ ok (ok input)

  with_input-proceed :
      (row r input : Row) (parsed : Result (List InputIssue) Row)
      → with_input row parsed ≡ proceed r input
      → (row ≡ r) × (parsed ≡ ok input)
  with_input-proceed row r input (err issues) same = cc
  with_input-proceed row r input (ok data_) same = ground arith

  read_input-proceed :
      (act : RowAction D) (row r input : Row) (body : Result BodyError Row)
      → read_input act.form act.input_schema row body ≡ ok (proceed r input)
      → (row ≡ r)
        × (sent : Row) × (body ≡ ok sent)
        × (parse_action_input act.form act.input_schema sent ≡ ok (ok input))
  unfolding read_input
  read_input-proceed act row r input (err reason) same = ground arith
  read_input-proceed act row r input (ok sent) same =
      let (parsed, good, done) =
        >>=-eq-ok (parse_action_input act.form act.input_schema sent) _ same in
      let (same_row, into) = with_input-proceed row r input parsed (ok_inj done) in
      (same_row, sent, refl, good ∙ ap ok into)

  not_refused :
      (act : RowAction D) (id : String) (c : RequestContext) (body : Result BodyError Row) (db : D)
      (current row input : Row)
      → read_row a e id c db ≡ ok (some current)
      → (refused : Option Response) → check_row act current c ≡ ok refused
      → unless_refused act body current refused ≡ ok (proceed row input)
      → Reaches act id c body db row input
  unfolding unless_refused
  not_refused act id c body db current row input seen (some response) checked same = ground arith
  not_refused act id c body db current row input seen none checked same =
      let (same_row, sent, sent-eq, parsed) = read_input-proceed act current row input body same in
      record {
        seen = seen ∙ ap (λ r. ok (some r)) same_row;
        passed_all = subst (λ r. MayRun act r c) same_row (check_row-MayRun act current c checked);
        sent = sent;
        sent-eq = sent-eq;
        parsed = parsed;
      }

  found_row :
      (act : RowAction D) (id : String) (c : RequestContext) (body : Result BodyError Row) (db : D)
      (o : Option Row) (row input : Row)
      → read_row a e id c db ≡ ok o
      → after_read act c body o ≡ ok (proceed row input)
      → Reaches act id c body db row input
  unfolding after_read
  found_row act id c body db none row input seen same = ground arith
  found_row act id c body db (some current) row input seen same =
      let (refused, checked, later) = >>=-eq-ok (check_row act current c) _ same in
      not_refused act id c body db current row input seen refused checked later

  -- A row action is called with a row only if the caller's scope shows it, `when` has answered true,
  -- `hidden` false and `disabled` nothing, and the input is a body that the form and the schema of the
  -- action have accepted; in every other case the state is as it was.
  pub run_row_action-Reaches :
      (is_same : Value → Value → Bool) (act : RowAction D) (id : String) (c : RequestContext)
      (body : Result BodyError Row) (s : State D)
      → ((run_row_action is_same a e act id c body s).1 ≡ s)
        ⊎ ((row input : Row) × Reaches act id c body s.db row input
            × (run_row_action is_same a e act id c body s
                ≡ conclude_row is_same a e act id c row (act.run row input c s)))
  unfolding run_row_action prepare_row
  run_row_action-Reaches is_same act id c body s =
      elim (Result-cases (prepare_row is_same a e act id c body s.db)) [
        | inr (t, thrown) ↦ inl (rw (thrown, run_row_action) refl)
        | inl (stop response, stopped) ↦ inl (rw (stopped, run_row_action) refl)
        | inl (proceed row input, on) ↦
            let (o, seen, later) = >>=-eq-ok (read_row a e id c s.db) _ on in
            inr (
              row,
              input,
              found_row act id c body s.db o row input seen later,
              rw (on, run_row_action) refl,
            )
      ]
