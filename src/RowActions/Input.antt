-- ===== src/RowActions/Input.antt =====
-- packages/next/src/runtime/action-schema.ts: the input of an action. Zod is a parameter.
use flowpanel.Base.{
  String, Bool, true, false, ◌&&◌, ◌==◌, Option, none, some, List, [], ◌∷◌, ◌++◌, Result, ok, err,
  ◌>>=◌, ◌>>◌, map, if◌then◌else◌,
}
use Prim.Native.String.{◌++◌ as append}
use flowpanel.Base.Dict.{lookup, keys}
use flowpanel.Base.Value.{Value, undefined, null, str, Row}
use flowpanel.Errors.{Throws}
use flowpanel.Policy.{check_declared}
use flowpanel.Writes.{get, is_undefined}

-- `ActionInputIssue`, each step of the path as a text.
pub record InputIssue : Type 0 where
  pub path : List String
  pub message : String

-- What a validator answers: at once, or through a promise.
pub data Answer : Type 0 where
  now : Option String → Answer
  later : Throws (Option String) → Answer

pub data ActionValidator : Type 0 where
  check : (Value → Row → Throws Answer) → ActionValidator
  schema : (Value → Throws (List InputIssue)) → ActionValidator

pub record ActionField : Type 0 where
  pub name : String
  pub required : Bool
  pub validate : Option ActionValidator

-- An input schema: the keys of its `shape`, and `safeParse`.
pub record InputSchema : Type 0 where
  pub shape : List String
  pub parse : Row → Throws (Result (List InputIssue) Row)

-- The issues found so far, and the promises with the names of their fields.
pub record Found : Type 0 where
  pub issues : List InputIssue
  pub pending : List (String × Throws (Option String))

abbrev issue : String → String → InputIssue
issue name message = record { path = name ∷ []; message = message }

abbrev complain : String → Option String → List InputIssue → List InputIssue
complain name none issues = issues
complain name (some message) issues =
    if message == "" then issues else issues ++ issue name message ∷ []

abbrev below : String → InputIssue → InputIssue
below name i = record i { path = name ∷ i.path }

abbrev is_missing : Value → Bool
is_missing undefined = true
is_missing null = true
is_missing (str s) = s == ""
is_missing _ = false

abbrev noted : String → Found → Answer → Found
noted name f (now message) = record f { issues = complain name message f.issues }
noted name f (later promise) = record f { pending = f.pending ++ (name, promise) ∷ [] }

-- One turn of the loop of `validateActionInput`.
unfoldable pub validate_one : ActionField → Row → Found → Throws Found
unfolding lookup
validate_one field values f =
    if field.required && is_missing (get field.name values)
    then ok
        (record f { issues = f.issues ++ issue field.name (append field.name " is required") ∷ [] })
    else elim field.validate [
      | none ↦ ok f
      | some v ↦ if is_undefined (get field.name values) then ok f else elim v [
        | check validate ↦ do
          answer ← validate (get field.name values) values
          ok (noted field.name f answer)
        | schema parse ↦ do
          issues ← parse (get field.name values)
          ok (record f { issues = f.issues ++ map (below field.name) issues })
      ]
    ]

unfoldable pub validate_all : List ActionField → Row → Found → Throws Found
unfolding validate_one
validate_all [] values f = ok f
validate_all (field ∷ form) values f = validate_one field values f >>= validate_all form values

-- The promises, in the order of the fields.
unfoldable pub await_all :
    List (String × Throws (Option String)) → List InputIssue → Throws (List InputIssue)
await_all [] issues = ok issues
await_all ((name, promise) ∷ pending) issues =
    promise >>= λ message. await_all pending (complain name message issues)

-- `validateActionInput`, of an object; no issue is `null`.
unfoldable pub validate_action_input : List ActionField → Row → Throws (List InputIssue)
unfolding validate_all await_all
validate_action_input form input = do
  f ← validate_all form input (record { issues = []; pending = [] })
  await_all f.pending f.issues

abbrev pub allowed_keys : List ActionField → Option InputSchema → List String
allowed_keys form none = map (λ (f : ActionField). f.name) form
allowed_keys form (some s) = map (λ (f : ActionField). f.name) form ++ s.shape

-- `assertActionInputFields`: the first key that is not allowed is an error.
unfoldable pub assert_action_input_fields :
    List ActionField → Option InputSchema → Row → Throws (Unit {0})
unfolding check_declared
assert_action_input_fields form s input = check_declared (allowed_keys form s) (keys input)

-- `parseActionInputSchema`: the data, or the issues.
unfoldable pub parse_action_input :
    List ActionField → Option InputSchema → Row → Throws (Result (List InputIssue) Row)
unfolding assert_action_input_fields validate_action_input
parse_action_input form s input = do
  assert_action_input_fields form s input
  issues ← validate_action_input form input
  elim issues [
    | first ∷ others ↦ ok (err (first ∷ others))
    | [] ↦ elim s [ none ↦ ok (ok input) | some schema' ↦ schema'.parse input ]
  ]
