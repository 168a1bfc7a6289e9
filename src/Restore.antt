-- ===== src/Restore.antt =====
-- packages/next/src/actions/restore.ts: a row that was deleted softly comes back. The lookup of the resource
-- is left; the adapter's `restore`, which it may lack, is a parameter.
use flowpanel.Base.{
  String, Bool, ◌==◌, ◌≡◌, ◌≢◌, refl, ap, sym, subst, arith, eq_iff, Bool-cases, if◌then◌else◌, ◌∙◌,
  ◌⊎◌, inl, inr, Option, none, some, Option-cases, Result-cases, [], ok, err,
}
use Prim.Native.String.{◌++◌ as append}
use flowpanel.Base.Value.{Value, undefined, null, Row}
use flowpanel.Errors.{Throws}
use flowpanel.Guards.{
  Platform, Request, RequestContext, Reply, World, with_guards, build_request_context,
}
use flowpanel.Guards.Admission.{Admitted, with_guards-Admitted}
use flowpanel.Writes.{Admin, Entity, State, Mutation, mutation, read_row, get}
use flowpanel.Writes.Scopes.{IsBound, Shows, read_row-Shows, mutation-IsBound}
use flowpanel.RowActions.{succeeded, everything, settle}
use flowpanel.RowActions.Guarded.{finish-app}
use flowpanel.Inline.{inline_spec, only_field}

abbrev pub Restorer : Type 0 → Type 0
Restorer D = Mutation → D → Throws (Unit {0}) × D

pub data Response : Type 0 where
  not_found restored : Response

-- What the route answers: why nothing is restored, or the reply behind the guards.
pub data Routed : Type 0 where
  no_soft_delete not_implemented : Routed
  replied : Reply Response → Routed

module _ {D : Type 0} (is_same : Value → Value → Bool) (a : Admin D) (e : Entity) where
  -- What is written, with `softDelete: { column }`.
  unfoldable pub restoring : RequestContext → String → String → Mutation
  unfolding mutation
  restoring c id column = record (mutation a e c (some id) []) { soft_delete = some column }

  -- From the found row on.
  unfoldable pub restore_row :
      Restorer D → String → RequestContext → String → Row → State D → Throws Response × State D
  unfolding restoring settle
  restore_row restore column c id existing s =
      let (written, db') = restore (restoring c id column) s.db in
      elim written [
        | err t ↦ (err t, record s { db = db' })
        | ok _ ↦ (
          ok restored,
          settle is_same a e (append e.name ".restore") id c
              (some (record {
                before = some (only_field column (get column existing));
                after = some (only_field column null);
              }))
              (succeeded everything undefined []) (record s { db = db' }),
        )
      ]

  -- The guarded handler.
  unfoldable pub restore_found :
      Restorer D → String → RequestContext → String → State D → Throws Response × State D
  unfolding read_row restore_row
  restore_found restore column c id s = elim (read_row a e id c s.db) [
    | err t ↦ (err t, s)
    | ok found ↦ elim found [
      | none ↦ (ok not_found, s)
      | some existing ↦ restore_row restore column c id existing s
    ]
  ]

  pub input_of_mutation :
      (c : RequestContext) (id : String) → (mutation a e c (some id) []).input ≡ []
  unfolding mutation
  input_of_mutation c id = refl

  written-db :
      (restore : Restorer D) (column : String) (c : RequestContext) (id : String) (existing : Row)
      (s : State D)
      → (restore_row restore column c id existing s).1.db ≡ (restore (restoring c id column) s.db).1
  unfolding restore_row settle
  written-db restore column c id existing s =
      elim (Result-cases (restore (restoring c id column) s.db).0) [
        | inr (t, thrown) ↦ rw (thrown, restore_row) refl
        | inl (u, done) ↦ rw (done, restore_row) refl
      ]

  restore_found-seen :
      (restore : Restorer D) (column : String) (c : RequestContext) (id : String) (s : State D)
      → ((restore_found restore column c id s).1 ≡ s)
        ⊎ ((existing : Row) × (read_row a e id c s.db ≡ ok (some existing))
            × ((restore_found restore column c id s).1.db
                ≡ (restore (restoring c id column) s.db).1))
  unfolding restore_found
  restore_found-seen restore column c id s = elim (Result-cases (read_row a e id c s.db)) [
    | inr (t, thrown) ↦ inl (rw (thrown, restore_found) refl)
    | inl (none, absent) ↦ inl (rw (absent, restore_found) refl)
    | inl (some existing, seen) ↦
        inr (existing, seen, rw (seen, restore_found) (written-db restore column c id existing s))
  ]

module _ {D : Type 0} (is_same : Value → Value → Bool) (p : Platform) (a : Admin D) (e : Entity)
    (restorer : Option (Restorer D)) (req : Request) (request_id : String) where
  -- `restoreRoute`; its guards are those of an inline update.
  unfoldable pub restore_route : String → World (State D) → Routed × World (State D)
  unfolding with_guards restore_found
  restore_route id w = elim e.soft_delete [
    | none ↦ (no_soft_delete, w)
    | some column ↦ if column == "" then (no_soft_delete, w) else elim restorer [
      | none ↦ (not_implemented, w)
      | some restore ↦
          (let (reply, w') =
              with_guards p a.guard req request_id (inline_spec e)
                (λ c s. restore_found is_same a e restore column c id s) w in
            (replied reply, w'))
    ]
  ]

  guarded_route : Restorer D → String → String → World (State D) → World (State D)
  unfolding with_guards
  guarded_route restore column id w =
      (with_guards p a.guard req request_id (inline_spec e)
        (λ c s. restore_found is_same a e restore column c id s) w).1

  -- What a restoration has met, and what it has made of the database.
  pub record IsRestored (id : String) (w : World (State D)) (after : D) : Type 0 where
    pub column : String
    pub restore : Restorer D
    pub c : RequestContext
    pub existing : Row
    pub m : Mutation
    pub soft : e.soft_delete ≡ some column
    pub named : column ≢ ""
    pub able : restorer ≡ some restore
    pub admitted : Admitted p a.guard req request_id (inline_spec e) w c
    pub shown : Shows a e id c w.app.db existing
    pub bound : IsBound a.guard e.guarded c (some id) m
    pub bare : m.input ≡ []
    pub mutation_column : m.soft_delete ≡ some column
    pub written : after ≡ (restore m w.app.db).1

  guarded_route-Restored :
      (restore : Restorer D) (column id : String) (w : World (State D))
      → e.soft_delete ≡ some column
      → column ≢ ""
      → restorer ≡ some restore
      → ((guarded_route restore column id w).app ≡ w.app)
        ⊎ IsRestored id w (guarded_route restore column id w).app.db
  unfolding guarded_route restoring
  guarded_route-Restored restore column id w soft named there =
      let handler =
        λ (c : RequestContext) (s : State D). restore_found is_same a e restore column c id s in
      elim (with_guards-Admitted p a.guard req request_id (inline_spec e) handler w) [
        | inr (_, (answer, kept)) ↦ inl kept
        | inl (c, admitted, same) ↦
            let w' : World (State D) = record w {
              limiter = (build_request_context p a.guard req request_id w.limiter).1;
            } in
            let ended : (guarded_route restore column id w).app ≡ (handler c w.app).1 =
              ap (λ out. out.1.app) same
              ∙ finish-app a.guard request_id (inline_spec e).result_envelope w'
                  (handler c w.app) in
            elim (restore_found-seen is_same a e restore column c id w.app) [
              | inl kept ↦ inl (ended ∙ kept)
              | inr (existing, seen, wrote) ↦ inr (record {
                column = column;
                restore = restore;
                c = c;
                existing = existing;
                m = restoring is_same a e c id column;
                soft = soft;
                named = named;
                able = there;
                admitted = admitted;
                shown = read_row-Shows a e id c w.app.db existing seen;
                bound = mutation-IsBound a e c (some id) [] (some column);
                bare = input_of_mutation is_same a e c id;
                mutation_column = refl;
                written = ap (λ (s : State D). s.db) ended ∙ wrote;
              })
            ]
      ]

  -- A request for a restoration leaves the rows and the effects as they are, or: the resource names a
  -- column of soft deletions, the adapter can restore, the origin check and every guard admit the
  -- request, the adapter has shown the row of the identifier under the caller's scope, and the
  -- database is what the adapter's `restore` made of it, for that row and column, without values and
  -- bound to that scope.
  pub restore_route-Restored :
      (id : String) (w : World (State D))
      → ((restore_route id w).1.app ≡ w.app) ⊎ IsRestored id w (restore_route id w).1.app.db
  unfolding restore_route guarded_route
  restore_route-Restored id w = elim (Option-cases e.soft_delete) [
    | inl hard ↦ inl (rw (hard, restore_route) refl)
    | inr (column, soft) ↦ elim (Bool-cases (column == "")) [
      | inl blank ↦ inl (rw (soft, restore_route, blank) refl)
      | inr named ↦ elim (Option-cases restorer) [
        | inl lacking ↦ inl (rw (soft, lacking, restore_route, named) refl)
        | inr (restore, there) ↦
            let same_route : (restore_route id w).1 ≡ guarded_route restore column id w =
              rw (soft, there, restore_route, named) refl in
            let distinct : column ≢ "" = λ same. ground (arith, named, eq_iff column "", same) in
            subst (λ (v : World (State D)). (v.app ≡ w.app) ⊎ IsRestored id w v.app.db)
              (sym same_route) (guarded_route-Restored restore column id w soft distinct there)
      ]
    ]
  ]
