-- ===== src/Tests/Writes.antt =====
-- The writes of a resource, at a concrete resource and a database that is a list of rows.
use flowpanel.Base.{
  Bool, true, false, ◌≡◌, refl, ◌⊎◌, ◌↔◌, none, some, List, [], ◌∷◌, ok, All, arith,
}
use flowpanel.Base.Dict.{lookup, keys}
use flowpanel.Base.Text.{contains}
use flowpanel.Base.Value.{str, obj, prop, Row, Props, end}
use flowpanel.Policy.{
  only, predicate, access_allows, check_require_role, assert_resource_scope,
  resolve_operation_access, authorize_operation,
}
use flowpanel.Guards.{Config, RequestContext}
use flowpanel.Writes.{
  Admin, Entity, State, Adapter, Outside, key, FieldDef, Mutation, declared_write_fields,
  assert_resource_writable_input, apply_field_defaults, given, check, run_field_validators,
  mutation,
}
use flowpanel.Writes.Rules.{assert_resource_writable_input-accepted, effective_rule, write_context}
use flowpanel.Writes.Values.{Accepts, run_field_validators_iff}
use flowpanel.Writes.Permission.{Call, update_call, run, prepare, run-refused, run-change, change}
use flowpanel.Writes.Scopes.{IsBound}
use flowpanel.Writes.Reach.{prepare-Sees, Sees}
use flowpanel.Writes.Announcing.{reply, run-audited, logged_by}

abbrev config : Bool → Config
config locked = record {
  same_origin_off = false;
  trusted_origins = [];
  read_only = locked;
  session_of = λ _. ok none;
  role_of = λ _. ok "editor";
  require_role = none;
  actor_id = λ _. none;
  scope = none;
  rate_limit = none;
  on_error = none;
}

abbrev pub editor : RequestContext
editor = record {
  caller = record { session = some (("id", str "u1") ∷ []); role = "editor"; scope = none };
  request_id = "r";
  ip = none;
  user_agent = none;
}

abbrev rows : Adapter (List Row)
rows = record {
  get = λ item db. ok (elim db [ [] ↦ none | row ∷ others ↦ some row ]);
  create = λ m db. (ok (some m.input), m.input ∷ db);
  update = λ m db. (ok (some m.input), m.input ∷ []);
  delete = λ m db. (ok tt, []);
}

abbrev outside : Outside
outside = record {
  audit = some (record { enabled = none; sink = some (λ event. ok tt) });
  user_id = none;
  to_text = λ v. "?";
  publish = λ notice. ok tt;
  revalidate = λ path. ok tt;
}

abbrev pub admin : Bool → Admin (List Row)
admin locked = record {
  guard = config locked;
  adapter = rows;
  outside = outside;
  labels = record { required = λ label. label; humanize = λ name. name };
  base_path = "/admin";
  encode = λ atom. atom;
  publishes = true;
}

abbrev pub users : Entity
users = record {
  name = "users";
  guarded = record { access = none; require_role = some (only "editor"); scope = none };
  columns = key "name" ∷ [];
  field_access = [];
  create_disabled = false;
  update_disabled = false;
  delete_disabled = false;
  create_fields = none;
  update_fields = none;
  default_values = [];
  user_schema = none;
  inferred = record { create = λ row. ok (ok row); update = λ row. ok (ok row) };
  soft_delete = none;
  row_key = none;
  audits = true;
}

abbrev pub ada : Row
ada = ("name", str "Ada") ∷ []

abbrev ada_props : Props
ada_props = prop "name" (str "Ada") end

abbrev pub start : State (List Row)
start = record {
  db = (("id", str "1") ∷ []) ∷ [];
  effects = record { audited = []; published = []; revalidated = []; failures = [] };
}

abbrev rename : Call
rename = update_call "1" (obj ada_props)

accepted :
    assert_resource_writable_input users.columns users.field_access none (obj ada_props) none editor
    ≡ ok ada
unfolding assert_resource_writable_input contains lookup keys
accepted = refl

assert_resource_writable_input-accepted_example :
    (ada ≡ ada)
    × All (λ k. contains (declared_write_fields users.columns none) k ≡ true) (keys ada)
    × All
        (λ k.
          access_allows
            (effective_rule users.field_access none none k)
            "editor"
            (write_context editor none ada)
          ≡ ok true)
        (keys ada)
assert_resource_writable_input-accepted_example =
    assert_resource_writable_input-accepted users.columns users.field_access none ada_props none
      editor ada accepted

abbrev nick : FieldDef
nick = record {
  name = "name";
  label = none;
  require_role = none;
  read_only = none;
  default_value = some (given (str "Nobody"));
  validate = some (check (λ value values. ok none));
}

filled : apply_field_defaults [] (some (nick ∷ [])) ada editor ≡ ok ada
unfolding apply_field_defaults lookup
filled = refl

run_field_validators_iff_example :
    (run_field_validators (some (nick ∷ [])) ada ≡ ok none) ↔ All (λ f. Accepts f ada) (nick ∷ [])
run_field_validators_iff_example = run_field_validators_iff (nick ∷ []) ada

run-refused_example : run (admin true) users rename (ok editor) start ≡ start
run-refused_example = run-refused (admin true) users rename editor start (λ may. ground arith)

run-change_example :
    ((run (admin false) users rename (ok editor) start).db ≡ start.db)
    ⊎ ((m : Mutation) × (prepare (admin false) users rename editor start.db ≡ ok m)
        × ((run (admin false) users rename (ok editor) start).db
            ≡ change (admin false) users rename m start.db))
run-change_example = run-change (admin false) users rename editor start

-- The tenant of a request and its rows: the adapter shows those of the scope that it is bound to.
abbrev tenant : Row
tenant = ("id", str "1") ∷ []

abbrev scoped_rows : Adapter (List Row)
scoped_rows = record rows {
  get = λ item db. ok (elim item.binding.bound [ none ↦ none | some s ↦ s ]);
}

abbrev scoped_admin : Admin (List Row)
scoped_admin = record (admin false) {
  guard = record (config false) { scope = some (λ req session. ok (some tenant)) };
  adapter = scoped_rows;
}

abbrev scoped_users : Entity
scoped_users = record users { guarded = record users.guarded { scope = some predicate } }

abbrev tenant_editor : RequestContext
tenant_editor = record editor { caller = record editor.caller { scope = some tenant } }

prepared :
    prepare scoped_admin scoped_users rename tenant_editor start.db
    ≡ ok (mutation scoped_admin scoped_users tenant_editor (some "1") ada)
unfolding prepare mutation contains lookup keys check_require_role assert_resource_scope
    resolve_operation_access authorize_operation assert_resource_writable_input
prepared = refl

prepare-Sees_example :
    Sees scoped_admin scoped_users rename tenant_editor start.db
    × IsBound scoped_admin.guard scoped_users.guarded tenant_editor
        (some "1")
        (mutation scoped_admin scoped_users tenant_editor (some "1") ada)
prepare-Sees_example =
    prepare-Sees scoped_admin scoped_users rename tenant_editor start.db
      (mutation scoped_admin scoped_users tenant_editor (some "1") ada) prepared

run-audited_example :
    (run (admin false) users rename (ok editor) start).effects.audited
    ≡ logged_by
        (admin false)
        users
        rename
        editor
        (reply (admin false) users rename (ok editor) start)
        []
run-audited_example = run-audited (admin false) users rename editor start (record {
  audits_on = refl;
  config = record { enabled = none; sink = some (λ event. ok tt) };
  configured = refl;
  enabled = refl;
  sink = λ event. ok tt;
  has_sink = refl;
})
