-- ===== src/RowActions/Atomic.antt =====
-- The built-in deletion of many rows: all of them or none.
use flowpanel.Base.{
  ℕ, String, Bool, true, false, ltb, length, ◌≡◌, refl, ap, sym, subst, ◌∙◌, ◌⊎◌, inl, inr, some,
  List, [], ◌∷◌, Result, ok, err, >>=-eq-ok, Result-cases, ok_inj, or_else, All, arith,
  if◌then◌else◌,
}
use flowpanel.Base.Value.{Value, Row}
use flowpanel.Errors.{Throws, Thrown}
use flowpanel.Guards.{RequestContext}
use flowpanel.Rows.{unique}
use flowpanel.Writes.{Admin, Entity, State, Mutation, read_row, found, delete_mutation}
use flowpanel.Writes.Scopes.{Shows, read_row-Shows, Deletes, delete_mutation-IsDeletion}
use flowpanel.Writes.Reach.{found-some}
use flowpanel.RowActions.Input.{InputIssue, parse_action_input}
use flowpanel.RowActions.Outcome.{ActionResult}
use flowpanel.RowActions.Handlers.{Response, Step, stop, proceed, settle}
use flowpanel.RowActions.Bulk.{
  BulkAction, BulkBody, given, unreadable, no_ids, no_input, delete_all_rows, Transaction,
  check_all, after_parse, delete_all, delete_rows, deleted_all, do_work, prepare_bulk,
  conclude_bulk, run_bulk_action, max_bulk,
}

-- What a transaction promises: writes that succeed are done as they are, and of writes that fail
-- nothing stays.
pub record IsTransaction {D : Type 0} (run : Transaction D) : Type 0 where
  pub commits : (f : D → Throws (Unit {0}) × D) (db : D) → (f db).0 ≡ ok tt → run f db ≡ f db
  pub rolls_back :
      (f : D → Throws (Unit {0}) × D) (db : D) (t : Thrown)
      → (f db).0 ≡ err t
      → run f db ≡ (err t, db)

module _ {D : Type 0} (a : Admin D) (e : Entity) where
  proceed_inj :
      {x y : List String} {i j : Row}
      → ◌≡◌ {A = Step (List String)} (proceed x i) (proceed y j)
      → x ≡ y
  proceed_inj same = ground arith

  -- Every row of the identifiers is there, as the caller's scope shows it.
  abbrev pub AreSeen : List String → RequestContext → D → Type 0
  AreSeen ids c db = All (λ id. (row : Row) × Shows a e id c db row) ids

  check_all-AreSeen :
      (ids : List String) (c : RequestContext) (db : D)
      → check_all a e ids c db ≡ ok tt
      → AreSeen ids c db
  unfolding check_all
  check_all-AreSeen [] c db same = tt
  check_all-AreSeen (id ∷ ids) c db same =
      let (row, read, later) = >>=-eq-ok (read_row a e id c db) _ same in
      let (current, there, rest) = >>=-eq-ok (found row) _ later in
      let seen = read ∙ ap ok (found-some row current there) in
      ((current, read_row-Shows a e id c db current seen), check_all-AreSeen ids c db rest)

  delete_all-Deletes :
      (ids : List String) (c : RequestContext) (db : D)
      → (delete_all a e ids c db).0 ≡ ok tt
      → Deletes a e ids c db (delete_all a e ids c db).1
  unfolding delete_all
  delete_all-Deletes [] c db done = refl
  delete_all-Deletes (id ∷ ids) c db done =
      let m : Mutation = delete_mutation a e c id in
      elim (Result-cases (a.adapter.delete m db).0) [
        | inr (t, failed) ↦ absurd (ground (arith, failed, done))
        | inl (u, removed) ↦
            let next : D = (a.adapter.delete m db).1 in
            let rest : delete_all a e (id ∷ ids) c db ≡ delete_all a e ids c next =
              ground (arith, removed) in
            (
              m,
              delete_mutation-IsDeletion a e c id,
              next,
              ground (arith, removed),
              subst (λ r. Deletes a e ids c next r.1) (sym rest)
                  (delete_all-Deletes ids c next (rw rest at done)),
            )
      ]

  -- The identifiers that a bulk action runs on are those of the body, each once, no more than the
  -- action allows, and the rows of all of them have been seen.
  pub record IsChecked (act : BulkAction D) (body : BulkBody) (c : RequestContext) (db : D)
      (ids : List String) : Type 0 where
    pub asked : List String
    pub sent : Row
    pub body-eq : body ≡ given asked sent
    pub distinct : ids ≡ unique asked
    pub bounded : ltb (or_else act.max max_bulk) (length ids) ≡ false
    pub seen : AreSeen ids c db

  unless_long :
      (long : Bool) (r : Response) (rest : Throws (Step (List String))) (ids : List String)
      (input : Row)
      → (if long then ok (stop r) else rest) ≡ ok (proceed ids input)
      → (long ≡ false) × (rest ≡ ok (proceed ids input))
  unless_long true r rest ids input same = ground arith
  unless_long false r rest ids input same = (refl, same)

  after_parse-AreSeen :
      (all_ids : List String) (c : RequestContext) (db : D) (parsed : Result (List InputIssue) Row)
      (ids : List String) (input : Row)
      → after_parse a e all_ids c db parsed ≡ ok (proceed ids input)
      → (all_ids ≡ ids) × AreSeen all_ids c db
  unfolding after_parse
  after_parse-AreSeen all_ids c db (err issues) ids input same = ground arith
  after_parse-AreSeen all_ids c db (ok data_) ids input same =
      let (u, seen, done) = >>=-eq-ok (check_all a e all_ids c db) _ same in
      (proceed_inj (ok_inj done), check_all-AreSeen all_ids c db seen)

  prepare_given :
      (act : BulkAction D) (asked : List String) (sent : Row) (c : RequestContext) (db : D)
      (ids : List String) (input : Row)
      → prepare_bulk a e act (given asked sent) c db ≡ ok (proceed ids input)
      → IsChecked act (given asked sent) c db ids
  unfolding prepare_bulk
  prepare_given act asked sent c db ids input same =
      let (fits, rest) =
        unless_long (ltb (or_else act.max max_bulk) (length (unique asked))) _ _ ids input same in
      let (parsed, good, later) =
        >>=-eq-ok (parse_action_input act.form act.input_schema sent) _ rest in
      let (all_ids, seen) = after_parse-AreSeen (unique asked) c db parsed ids input later in
      subst (IsChecked act (given asked sent) c db) all_ids (record {
        asked = asked;
        sent = sent;
        body-eq = refl;
        distinct = refl;
        bounded = fits;
        seen = seen;
      })

  prepare_bulk-IsChecked :
      (act : BulkAction D) (body : BulkBody) (c : RequestContext) (db : D) (ids : List String)
      (input : Row)
      → prepare_bulk a e act body c db ≡ ok (proceed ids input)
      → IsChecked act body c db ids
  unfolding prepare_bulk
  prepare_bulk-IsChecked act (given asked sent) c db ids input same =
      prepare_given act asked sent c db ids input same
  prepare_bulk-IsChecked act (unreadable reason) c db ids input same = ground arith
  prepare_bulk-IsChecked act no_ids c db ids input same = ground arith
  prepare_bulk-IsChecked act no_input c db ids input same = ground arith

module _ {D : Type 0} (is_same : Value → Value → Bool) (digits : ℕ → String)
    (transaction : Transaction D) (a : Admin D) (e : Entity) where
  conclude_bulk-db :
      (act : BulkAction D) (ids : List String) (c : RequestContext)
      (r : Throws ActionResult × State D)
      → (conclude_bulk is_same digits (some transaction) a e act ids c r).1.db ≡ r.1.db
  unfolding conclude_bulk settle
  conclude_bulk-db act ids c (ok result, s) = refl
  conclude_bulk-db act ids c (err t, s) = refl

  deleted_all-db :
      (ids : List String) (s : State D) (r : Throws (Unit {0}) × D)
      → (deleted_all is_same digits (some transaction) a e ids s r).1.db ≡ r.1
  deleted_all-db ids s (ok u, db) = refl
  deleted_all-db ids s (err t, db) = refl

  proceeded-db :
      (act : BulkAction D) (body : BulkBody) (c : RequestContext) (s : State D) (ids : List String)
      (input : Row)
      → act.work ≡ delete_all_rows
      → prepare_bulk a e act body c s.db ≡ ok (proceed ids input)
      → (run_bulk_action is_same digits (some transaction) a e act body c s).1.db
        ≡ (transaction (delete_all a e ids c) s.db).1
  unfolding run_bulk_action do_work delete_rows
  proceeded-db act body c s ids input works on =
      let worked : (do_work is_same digits (some transaction) a e act ids input c s).1.db
          ≡ (transaction (delete_all a e ids c) s.db).1 =
        rw (works, do_work) (deleted_all-db ids s (transaction (delete_all a e ids c) s.db)) in
      let concluded =
        conclude_bulk-db act ids c
          (do_work is_same digits (some transaction) a e act ids input c s) in
      rw (on, run_bulk_action) (concluded ∙ worked)

  -- In an adapter whose transactions keep all of the writes or none, the built-in deletion of many rows
  -- either leaves the database as it was, or the adapter has first shown, under the caller's scope, the
  -- rows of all the distinct identifiers of the body, within the limit of the action, and what is left
  -- is what its deletions made of the database: one for each identifier, in their order, under that
  -- scope, soft where the resource names a column, and all without a failure.
  pub run_bulk_action-IsAtomic :
      (act : BulkAction D) (body : BulkBody) (c : RequestContext) (s : State D)
      → IsTransaction transaction
      → act.work ≡ delete_all_rows
      → ((run_bulk_action is_same digits (some transaction) a e act body c s).1.db ≡ s.db)
        ⊎ ((ids : List String) × IsChecked a e act body c s.db ids
            × Deletes a e ids c s.db
                (run_bulk_action is_same digits (some transaction) a e act body c s).1.db)
  unfolding run_bulk_action
  run_bulk_action-IsAtomic act body c s promise works =
      elim (Result-cases (prepare_bulk a e act body c s.db)) [
        | inr (t, thrown) ↦ inl (rw (thrown, run_bulk_action) refl)
        | inl (stop response, stopped) ↦ inl (rw (stopped, run_bulk_action) refl)
        | inl (proceed ids input, on) ↦
            let after = proceeded-db act body c s ids input works on in
            elim (Result-cases (delete_all a e ids c s.db).0) [
              | inr (t, failed) ↦
                  inl (
                    after ∙ ap (λ r. r.1) (promise.rolls_back (delete_all a e ids c) s.db t failed))
              | inl (u, done) ↦ inr (
                ids,
                prepare_bulk-IsChecked a e act body c s.db ids input on,
                subst (Deletes a e ids c s.db)
                    (sym (after ∙ ap (λ r. r.1) (promise.commits (delete_all a e ids c) s.db done)))
                    (delete_all-Deletes a e ids c s.db done),
              )
            ]
      ]
