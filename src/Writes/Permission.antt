-- ===== src/Writes/Permission.antt =====
-- Who may write, and what a refused write leaves behind.
use flowpanel.Base.{
  String, Bool, true, false, ◌≡◌, refl, ap, ◌⊎◌, inl, inr, Option, none, some, ok, err, ◌>>◌,
  Result-cases, >>=-eq-ok, if◌then◌else◌,
}
use flowpanel.Base.Value.{Value, Row}
use flowpanel.Errors.{Throws, Thrown}
use flowpanel.Policy.{Operation, create, update, delete}
use flowpanel.Guards.{Config, Resource, RequestContext, require_authorized, guard_operation}
use flowpanel.Writes.Aftermath.{Effects}
use flowpanel.Writes.Actions.{
  prepare_create, prepare_update, prepare_delete, create_row, update_row, delete_row, commit_create,
  commit_update, commit_delete,
}
use flowpanel.Writes.Setup.{Admin, Entity, State, Mutation, begin_write}

-- The four conditions of a write.
pub record MayWrite (config : Config) (resource : Resource) (op : Operation) (off : Bool)
    (c : RequestContext) : Type 0 where
  pub authorized : require_authorized config resource c ≡ ok tt
  pub granted : guard_operation resource c (some op) ≡ ok tt
  pub writable : config.read_only ≡ false
  pub enabled : off ≡ false

four_checks :
    (first second : Throws (Unit {0})) (third fourth : Bool) (t u : Thrown)
    → ◌≡◌ {A = Throws (Unit {0})}
        (first
          >> (second >> ((if third then err t else ok tt) >> (if fourth then err u else ok tt))))
        (ok tt)
    → (first ≡ ok tt) × (second ≡ ok tt) × (third ≡ false) × (fourth ≡ false)
four_checks (err x) second third fourth t u same = cc
four_checks (ok x) (err y) third fourth t u same = cc
four_checks (ok x) (ok y) true fourth t u same = cc
four_checks (ok x) (ok y) false true t u same = cc
four_checks (ok x) (ok y) false false t u same = (refl, refl, refl, refl)

pub begin_write-MayWrite :
    (config : Config) (resource : Resource) (op : Operation) (off : Bool) (message : String)
    (c : RequestContext)
    → begin_write config resource c op off message ≡ ok tt
    → MayWrite config resource op off c
unfolding begin_write
begin_write-MayWrite config resource op off message c same =
    let (authorized, granted, writable, enabled) =
      four_checks (require_authorized config resource c) (guard_operation resource c (some op))
        config.read_only off _ _ same in
    record { authorized = authorized; granted = granted; writable = writable; enabled = enabled }

-- A call of one of the three.
pub data Call : Type 0 where
  create_call : Value → Call
  update_call : String → Value → Call
  delete_call : String → Call

abbrev pub operation_of : Call → Operation
operation_of (create_call input) = create
operation_of (update_call id input) = update
operation_of (delete_call id) = delete

abbrev pub is_off : Entity → Call → Bool
is_off e (create_call input) = e.create_disabled
is_off e (update_call id input) = e.update_disabled
is_off e (delete_call id) = e.delete_disabled

module _ {D : Type 0} (a : Admin D) (e : Entity) where
  -- The state after a call, and whether the call threw.
  unfoldable pub run : Call → Throws RequestContext → State D → State D
  unfolding create_row update_row delete_row
  run (create_call input) context s = (create_row a e context input s).1
  run (update_call id input) context s = (update_row a e id context input s).1
  run (delete_call id) context s = (delete_row a e id context s).1

  -- The mutation that a call asks of the adapter, or the error of the checks.
  unfoldable pub prepare : Call → RequestContext → D → Throws Mutation
  unfolding prepare_create prepare_update prepare_delete
  prepare (create_call input) c db = prepare_create a e c input
  prepare (update_call id input) c db = prepare_update a e id c input db
  prepare (delete_call id) c db = prepare_delete a e id c db

  prepare-begin_write :
      (call : Call) (c : RequestContext) (db : D) (m : Mutation)
      → prepare call c db ≡ ok m
      → MayWrite a.guard e.guarded (operation_of call) (is_off e call) c
  unfolding prepare prepare_create prepare_update prepare_delete
  prepare-begin_write (create_call input) c db m same =
      begin_write-MayWrite a.guard e.guarded create e.create_disabled _ c
        ((>>=-eq-ok (begin_write a.guard e.guarded c create e.create_disabled _) _ same).1)
  prepare-begin_write (update_call id input) c db m same =
      begin_write-MayWrite a.guard e.guarded update e.update_disabled _ c
        ((>>=-eq-ok (begin_write a.guard e.guarded c update e.update_disabled _) _ same).1)
  prepare-begin_write (delete_call id) c db m same =
      begin_write-MayWrite a.guard e.guarded delete e.delete_disabled _ c
        ((>>=-eq-ok (begin_write a.guard e.guarded c delete e.delete_disabled _) _ same).1)

  run-err :
      (call : Call) (c : RequestContext) (s : State D) (t : Thrown)
      → prepare call c s.db ≡ err t
      → run call (ok c) s ≡ s
  unfolding prepare run create_row update_row delete_row
  run-err (create_call input) c s t same = rw (same, run, create_row, update_row, delete_row) refl
  run-err (update_call id input) c s t same =
      rw (same, run, create_row, update_row, delete_row) refl
  run-err (delete_call id) c s t same = rw (same, run, create_row, update_row, delete_row) refl

  -- The adapter's operation behind a call.
  abbrev pub change : Call → Mutation → D → D
  change (create_call input) m db = (a.adapter.create m db).1
  change (update_call id input) m db = (a.adapter.update m db).1
  change (delete_call id) m db = (a.adapter.delete m db).1

  commit_create-db :
      (c : RequestContext) (f : Effects) (r : Throws (Option Row) × D)
      → (commit_create a e c f r).1.db ≡ r.1
  unfolding commit_create
  commit_create-db c f (ok row, db) = refl
  commit_create-db c f (err t, db) = refl

  commit_update-db :
      (id : String) (c : RequestContext) (f : Effects) (r : Throws (Option Row) × D)
      → (commit_update a e id c f r).1.db ≡ r.1
  unfolding commit_update
  commit_update-db id c f (ok none, db) = refl
  commit_update-db id c f (ok (some row), db) = refl
  commit_update-db id c f (err t, db) = refl

  commit_delete-db :
      (id : String) (c : RequestContext) (f : Effects) (r : Throws (Unit {0}) × D)
      → (commit_delete a e id c f r).1.db ≡ r.1
  unfolding commit_delete
  commit_delete-db id c f (ok u, db) = refl
  commit_delete-db id c f (err t, db) = refl

  run-ok :
      (call : Call) (c : RequestContext) (s : State D) (m : Mutation)
      → prepare call c s.db ≡ ok m
      → (run call (ok c) s).db ≡ change call m s.db
  unfolding prepare run create_row update_row delete_row
  run-ok (create_call input) c s m same =
      rw (same, run, create_row) (commit_create-db c s.effects (a.adapter.create m s.db))
  run-ok (update_call id input) c s m same =
      rw (same, run, update_row) (commit_update-db id c s.effects (a.adapter.update m s.db))
  run-ok (delete_call id) c s m same =
      rw (same, run, delete_row) (commit_delete-db id c s.effects (a.adapter.delete m s.db))

  -- A caller who fails the role, the scope declaration or the rule of the operation, or who meets a
  -- read-only admin or a disabled operation, changes nothing: the database, the audit log and the
  -- notices are as they were.
  pub run-refused :
      (call : Call) (c : RequestContext) (s : State D)
      → (MayWrite a.guard e.guarded (operation_of call) (is_off e call) c → ⊥)
      → run call (ok c) s ≡ s
  run-refused call c s refused = elim (Result-cases (prepare call c s.db)) [
    | inl (m, same) ↦ absurd (refused (prepare-begin_write call c s.db m same))
    | inr (t, same) ↦ run-err call c s t same
  ]

  -- Where a call changes the database, its checks have answered with a mutation, and the change is
  -- the one that the adapter makes of this mutation.
  pub run-change :
      (call : Call) (c : RequestContext) (s : State D)
      → ((run call (ok c) s).db ≡ s.db)
        ⊎ ((m : Mutation) × (prepare call c s.db ≡ ok m)
            × ((run call (ok c) s).db ≡ change call m s.db))
  run-change call c s = elim (Result-cases (prepare call c s.db)) [
    | inl (m, same) ↦ inr (m, same, run-ok call c s m same)
    | inr (t, same) ↦ inl (ap (λ (later : State D). later.db) (run-err call c s t same))
  ]
