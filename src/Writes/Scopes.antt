-- ===== src/Writes/Scopes.antt =====
-- What scope-binding.ts, read-row.ts and delete-row.ts of packages/next/src/runtime hand to an adapter,
-- said without them.
use flowpanel.Base.{
  String, false, ◌≡◌, ◌≢◌, refl, ◌⊎◌, inl, inr, Option, none, some, List, [], ◌∷◌, ok, is_some,
  arith, ◌&&◌, eq_iff,
}
use flowpanel.Base.Value.{Row}
use flowpanel.Policy.{ResourceScope, bypass, predicate}
use flowpanel.Guards.{Config, RequestContext, Resource}
use flowpanel.Related.Scopes.{IsTenant, scope_binding-IsTenant}
use flowpanel.Writes.Setup.{Admin, Entity, Binding, Mutation, is_predicate, bind_scope}
use flowpanel.Writes.Actions.{read_row, mutation, delete_mutation}

-- The binding of a request to a resource: its scope, which is required where the configuration has
-- scopes and the resource declares a predicate.
pub record IsScoped (config : Config) (resource : Resource) (c : RequestContext) (b : Binding)
    : Type 0 where
  pub bound : IsTenant resource.scope c b.bound
  pub required : resource.scope ≡ some predicate → b.required ≡ is_some config.scope
  pub optional : ¬ (resource.scope ≡ some predicate) → b.required ≡ false

module _ (config : Config) where
  bind_declared :
      (declared : Option ResourceScope)
      → (declared ≡ some predicate
          → (is_some config.scope && is_predicate declared) ≡ is_some config.scope)
        × (¬ (declared ≡ some predicate) → (is_some config.scope && is_predicate declared) ≡ false)
  bind_declared none = (λ e. cc, λ e. ground arith)
  bind_declared (some bypass) = (λ e. cc, λ e. ground arith)
  bind_declared (some predicate) = (λ e. ground arith, λ e. absurd (e refl))

  pub bind_scope-IsScoped :
      (resource : Resource) (c : RequestContext)
      → IsScoped config resource c (bind_scope config resource c)
  unfolding bind_scope
  bind_scope-IsScoped resource c =
      let (required, optional) = bind_declared resource.scope in
      record {
        bound = scope_binding-IsTenant resource.scope c;
        required = required;
        optional = optional;
      }

-- The mutation is of the request and of the row, under the scope of the request.
pub record IsBound (config : Config) (resource : Resource) (c : RequestContext) (id : Option String)
    (m : Mutation) : Type 0 where
  pub scoped : IsScoped config resource c m.binding
  pub context : m.context ≡ c
  pub row_id : m.id ≡ id

module _ {D : Type 0} (a : Admin D) (e : Entity) where
  -- The adapter shows the row of an identifier under the scope of the request.
  abbrev pub Shows : String → RequestContext → D → Row → Type 0
  Shows id c db row =
      (b : Binding) × IsScoped a.guard e.guarded c b
      × (a.adapter.get (record { context = c; id = id; binding = b }) db ≡ ok (some row))

  pub read_row-Shows :
      (id : String) (c : RequestContext) (db : D) (row : Row)
      → read_row a e id c db ≡ ok (some row)
      → Shows id c db row
  unfolding read_row
  read_row-Shows id c db row same =
      (bind_scope a.guard e.guarded c, bind_scope-IsScoped a.guard e.guarded c, same)

  pub mutation-IsBound :
      (c : RequestContext) (id : Option String) (input : Row) (soft : Option String)
      → IsBound a.guard e.guarded c id (record (mutation a e c id input) { soft_delete = soft })
  unfolding mutation
  mutation-IsBound c id input soft = record {
    scoped = bind_scope-IsScoped a.guard e.guarded c;
    context = refl;
    row_id = refl;
  }

  -- The deletion of a row: soft where the resource names a column for it.
  pub record IsDeletion (c : RequestContext) (id : String) (m : Mutation) : Type 0 where
    pub bound : IsBound a.guard e.guarded c (some id) m
    pub bare : m.input ≡ []
    pub soft :
        (column : String) → e.soft_delete ≡ some column → column ≢ "" → m.soft_delete ≡ some column
    pub hard : (e.soft_delete ≡ none) ⊎ (e.soft_delete ≡ some "") → m.soft_delete ≡ none

  pub delete_mutation-IsDeletion :
      (c : RequestContext) (id : String) → IsDeletion c id (delete_mutation a e c id)
  unfolding delete_mutation mutation
  delete_mutation-IsDeletion c id = record {
    bound = mutation-IsBound c (some id) [] _;
    bare = refl;
    soft = λ column e named. ground (arith, e, named, eq_iff column "");
    hard =
        λ e. elim e [ inl none_set ↦ ground (arith, none_set) | inr blank ↦ ground (arith, blank) ];
  }

  -- The rows of the identifiers are deleted one after the other, without a failure.
  abbrev pub Deletes : List String → RequestContext → D → D → Type 0
  Deletes [] c db after = after ≡ db
  Deletes (id ∷ ids) c db after =
      (m : Mutation) × IsDeletion c id m
      × (next : D) × (a.adapter.delete m db ≡ (ok tt, next))
      × Deletes ids c next after
