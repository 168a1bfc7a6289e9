-- ===== src/Writes/Filling.antt =====
-- packages/next/src/actions/field-pipeline.ts: the defaults that a new row gets, the validators of
-- its fields, and the messages of a rejected schema.
use flowpanel.Base.{
  String, Bool, true, false, ◌&&◌, ◌||◌, ◌==◌, eqb, Option, none, some, List, [], ◌∷◌, Result, ok,
  err, ◌>>=◌, or_else, is_some, if◌then◌else◌,
}
use Prim.Native.String.{◌++◌ as append}
use text.Mathlib.Text.{starts_with}
use flowpanel.Base.Dict.{lookup, insert}
use flowpanel.Base.Value.{Value, undefined, null, str, Row}
use flowpanel.Errors.{Throws}
use flowpanel.Guards.{RequestContext}
use flowpanel.Writes.Fields.{FieldDef, Default, given, resolve, Validator, check, schema, Issue}

-- `out[name]`; a name is none that every object inherits.
abbrev pub get : String → Row → Value
get name row = or_else (lookup name row) undefined

abbrev pub is_undefined : Value → Bool
is_undefined undefined = true
is_undefined _ = false

-- The first loop of `applyFieldDefaults`.
unfoldable pub fill_values : Row → Row → Row
unfolding lookup insert
fill_values [] out = out
fill_values ((name, value) ∷ values) out =
    fill_values values (if is_undefined (get name out) then insert name value out else out)

abbrev pub default_of : Default → RequestContext → Throws Value
default_of (given v) c = ok v
default_of (resolve f) c = f c

-- One turn of the second loop.
unfoldable pub fill_field : FieldDef → RequestContext → Row → Throws Row
unfolding lookup insert
fill_field f c out = elim f.default_value [
  | none ↦ ok out
  | some d ↦
      if is_undefined (get f.name out)
      then (do value ← default_of d c; ok (insert f.name value out))
      else ok out
]

unfoldable pub fill_fields : List FieldDef → RequestContext → Row → Throws Row
unfolding fill_field
fill_fields [] c out = ok out
fill_fields (f ∷ fields) c out = fill_field f c out >>= fill_fields fields c

-- `applyFieldDefaults`, of an object; the defaults of the form come first.
unfoldable pub apply_field_defaults :
    Row → Option (List FieldDef) → Row → RequestContext → Throws Row
unfolding fill_values fill_fields
apply_field_defaults default_values fields input c =
    fill_fields (or_else fields []) c (fill_values default_values input)

abbrev first_message : Result (List Issue) Value → Option String
first_message (ok v) = none
first_message (err []) = none
first_message (err (issue ∷ issues)) = some issue.message

abbrev non_empty : Option String → Option String
non_empty none = none
non_empty (some message) = if message == "" then none else some message

-- What a validator says of a value; an empty complaint of a function is none.
abbrev pub complaint : Validator → Value → Row → Throws (Option String)
complaint (check f) value values = do message ← f value values; ok (non_empty message)
complaint (schema parse) value values = do result ← parse value; ok (first_message result)

-- What the loop of `runFieldValidators` asks about one field.
unfoldable pub field_complaint : FieldDef → Row → Throws (Option String)
unfolding lookup
field_complaint f values = elim f.validate [
  | none ↦ ok none
  | some v ↦
      if is_undefined (get f.name values) then ok none else complaint v (get f.name values) values
]

unfoldable pub note : String → Option String → List (String × String) → List (String × String)
unfolding insert
note name none out = out
note name (some message) out = insert name message out

unfoldable pub validate_fields :
    List FieldDef → Row → List (String × String) → Throws (List (String × String))
unfolding field_complaint note
validate_fields [] values out = ok out
validate_fields (f ∷ fields) values out =
    field_complaint f values >>= λ message. validate_fields fields values (note f.name message out)

-- `runFieldValidators`.
unfoldable pub run_field_validators :
    Option (List FieldDef) → Row → Throws (Option (List (String × String)))
unfolding validate_fields
run_field_validators none values = ok none
run_field_validators (some fields) values = do
  out ← validate_fields fields values []
  ok (elim out [ [] ↦ none | first ∷ others ↦ some (first ∷ others) ])

-- `isMissingValueIssue`.
unfoldable pub is_missing_value_issue : Issue → Bool
is_missing_value_issue issue =
    issue.code == "invalid_type"
    || issue.code == "too_small"
      && (elim issue.minimum [ none ↦ false | some n ↦ eqb n 1 ])
      && starts_with issue.message "Too small"

-- `path.join(".")`.
join_path : List String → String
join_path [] = ""
join_path (step ∷ []) = step
join_path (step ∷ (next ∷ steps)) = append step (append "." (join_path (next ∷ steps)))

abbrev is_empty : Value → Bool
is_empty undefined = true
is_empty null = true
is_empty (str s) = s == ""
is_empty _ = false

-- `fieldByName.get(key)`: the last field of a name.
find_field : List FieldDef → String → Option FieldDef
find_field [] name = none
find_field (f ∷ fields) name =
    let later = find_field fields name in
    elim later [ some g ↦ some g | none ↦ if f.name == name then some f else none ]

-- `formatLabel(labels.form.required, { label })`, and `humanize`.
pub record Labels : Type 0 where
  pub required : String → String
  pub humanize : String → String

label_of : Labels → List FieldDef → String → String
unfolding find_field
label_of labels fields name =
    or_else (elim (find_field fields name) [ none ↦ none | some f ↦ f.label ])
      (labels.humanize name)

unfoldable pub friendly_message : Labels → List FieldDef → Row → String → Issue → String
unfolding label_of is_missing_value_issue lookup
friendly_message labels fields values name issue =
    if is_empty (get name values) && is_missing_value_issue issue
    then labels.required (label_of labels fields name)
    else issue.message

friendly_from :
    Labels → List FieldDef → Row → List Issue → List (String × String) → List (String × String)
unfolding join_path friendly_message lookup insert
friendly_from labels fields values [] out = out
friendly_from labels fields values (issue ∷ issues) out =
    let name = join_path issue.path in
    friendly_from labels fields values issues (
      if name == "" || is_some (lookup name out)
      then out
      else insert name (friendly_message labels fields values name issue) out)

-- `friendlyFieldErrors`, of an object.
unfoldable pub friendly_field_errors :
    Labels → Option (List FieldDef) → Row → List Issue → List (String × String)
unfolding friendly_from
friendly_field_errors labels fields values issues =
    friendly_from labels (or_else fields []) values issues []
