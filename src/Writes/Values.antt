-- ===== src/Writes/Values.antt =====
-- The values that a write carries: what the defaults add, and what the validators accept.
use flowpanel.Base.{
  String, Bool, true, false, ◌≡◌, refl, sym, ap, subst, ◌≢◌, ◌⊎◌, err, ◌∙◌, ◌↔◌, inl, inr, Option,
  none, some, List, [], ◌∷◌, ok, >>=-eq-ok, Result-cases, Option-cases, Bool-cases, ok_inj, or_else,
  All, eq_iff, arith,
}
use flowpanel.Base.Dict.{lookup, insert, lookup-insert}
use flowpanel.Base.Value.{Value, undefined, null, bool, num, str, arr, obj, Row}
use flowpanel.Guards.{RequestContext}
use flowpanel.Writes.Fields.{FieldDef, Validator, check, schema}
use flowpanel.Writes.Filling.{
  get, is_undefined, fill_values, fill_field, fill_fields, apply_field_defaults, default_of,
  field_complaint, complaint, validate_fields, run_field_validators, note,
}

-- A value that is there stays.
abbrev Keeps : String → Row → Row → Type 0
Keeps k before after = is_undefined (get k before) ≡ false → get k after ≡ get k before

insert_missing-Keeps :
    (k name : String) (value : Value) (out : Row)
    → is_undefined (get name out) ≡ true
    → Keeps k out (insert name value out)
insert_missing-Keeps k name value out absent present =
    ground (arith, lookup-insert name k value out, eq_iff name k)

fill_values-Keeps : (k : String) (values out : Row) → Keeps k out (fill_values values out)
unfolding fill_values
fill_values-Keeps k [] out present = refl
fill_values-Keeps k ((name, value) ∷ values) out present =
    elim (Bool-cases (is_undefined (get name out))) [
      | inl absent ↦
          rw (absent, fill_values)
            (let kept = insert_missing-Keeps k name value out absent present in
              fill_values-Keeps k values (insert name value out) (ap is_undefined kept ∙ present)
              ∙ kept)
      | inr there ↦ rw (there, fill_values) (fill_values-Keeps k values out present)
    ]

fill_field-Keeps :
    (k : String) (f : FieldDef) (c : RequestContext) (out after : Row)
    → fill_field f c out ≡ ok after
    → Keeps k out after
unfolding fill_field
fill_field-Keeps k f c out after same present = elim (Option-cases f.default_value) [
  | inl bare ↦ ground arith
  | inr (d, has) ↦ elim (Bool-cases (is_undefined (get f.name out))) [
    | inr there ↦ ground arith
    | inl absent ↦ elim (Result-cases (default_of d c)) [
      | inl (v, resolved) ↦ ground (arith, insert_missing-Keeps k f.name v out absent present)
      | inr (t, thrown) ↦ ground arith
    ]
  ]
]

fill_fields-Keeps :
    (k : String) (fields : List FieldDef) (c : RequestContext) (out after : Row)
    → fill_fields fields c out ≡ ok after
    → Keeps k out after
unfolding fill_fields
fill_fields-Keeps k [] c out after same present = ap (get k) (sym (ok_inj same))
fill_fields-Keeps k (f ∷ fields) c out after same present =
    let (step, first, later) = >>=-eq-ok (fill_field f c out) _ same in
    let kept = fill_field-Keeps k f c out step first present in
    fill_fields-Keeps k fields c step after later (ap is_undefined kept ∙ present) ∙ kept

-- A default never takes the place of a value that was submitted.
pub apply_field_defaults-get :
    (k : String) (default_values : Row) (fields : Option (List FieldDef)) (input after : Row)
    (c : RequestContext)
    → apply_field_defaults default_values fields input c ≡ ok after
    → is_undefined (get k input) ≡ false
    → get k after ≡ get k input
unfolding apply_field_defaults
apply_field_defaults-get k default_values fields input after c same present =
    let kept = fill_values-Keeps k default_values input present in
    fill_fields-Keeps k (or_else fields []) c _ after same (ap is_undefined kept ∙ present) ∙ kept

abbrev is_cons {ℓ} : {A : Type ℓ} → List A → Bool
is_cons [] = false
is_cons (x ∷ xs) = true

insert-is_cons :
    (name message : String) (out : List (String × String))
    → is_cons (insert name message out) ≡ true
unfolding insert
insert-is_cons name message [] = refl
insert-is_cons name message ((first, old) ∷ later) = ground arith

note-is_cons :
    (name : String) (message : Option String) (out : List (String × String))
    → is_cons out ≡ true
    → is_cons (note name message out) ≡ true
unfolding note
note-is_cons name none out there = there
note-is_cons name (some message) out there = insert-is_cons name message out

validate_fields-is_cons :
    (fields : List FieldDef) (values : Row) (out after : List (String × String))
    → is_cons out ≡ true
    → validate_fields fields values out ≡ ok after
    → is_cons after ≡ true
unfolding validate_fields
validate_fields-is_cons [] values out after there same = ap is_cons (sym (ok_inj same)) ∙ there
validate_fields-is_cons (f ∷ fields) values out after there same =
    let (message, first, later) = >>=-eq-ok (field_complaint f values) _ same in
    validate_fields-is_cons fields values _ after (note-is_cons f.name message out there) later

never_quiet :
    (fields : List FieldDef) (values : Row) (name message : String)
    → validate_fields fields values (note name (some message) []) ≡ ok []
    → ⊥
unfolding note
never_quiet fields values name message same =
    let impossible =
      validate_fields-is_cons fields values _ [] (insert-is_cons name message []) same in
    cc

validate_fields_iff :
    (fields : List FieldDef) (values : Row)
    → (validate_fields fields values [] ≡ ok [])
      ↔ All (λ f. field_complaint f values ≡ ok none) fields
unfolding validate_fields note
validate_fields_iff [] values = ground arith
validate_fields_iff (f ∷ fields) values = elim (Result-cases (field_complaint f values)) [
  | inr (t, thrown) ↦ ground arith
  | inl (none, quiet) ↦ ground (arith, validate_fields_iff fields values)
  | inl (some message, loud) ↦ ground (arith, never_quiet fields values f.name message)
]

-- A field that has no validator, or no value in the form, is accepted; else its function, called with the
-- value and with all values, answers no message or an empty one, or its schema parses the value or
-- rejects it without an issue.
abbrev pub Says : Validator → Value → Row → Type 0
Says (check f) value values = (f value values ≡ ok none) ⊎ (f value values ≡ ok (some ""))
Says (schema parse) value values =
    ((v : Value) × (parse value ≡ ok (ok v))) ⊎ (parse value ≡ ok (err []))

abbrev pub Accepts : FieldDef → Row → Type 0
Accepts f values =
    (v : Validator) (value : Value)
    → f.validate ≡ some v
    → lookup f.name values ≡ some value
    → value ≢ undefined
    → Says v value values

complaint-Says :
    (v : Validator) (value : Value) (values : Row)
    → (complaint v value values ≡ ok none) ↔ Says v value values
complaint-Says (check f) value values = elim (Result-cases (f value values)) [
  | inr (t, thrown) ↦ ground (arith, thrown)
  | inl (none, quiet) ↦ ground (arith, quiet)
  | inl (some message, loud) ↦ ground (arith, loud, eq_iff message "")
]
complaint-Says (schema parse) value values = elim (Result-cases (parse value)) [
  | inr (t, thrown) ↦ (λ h. cc, λ h. elim h [ inl (v, e) ↦ cc | inr e ↦ cc ])
  | inl (ok v, good) ↦ (λ h. inl (v, good), λ h. rw good refl)
  | inl (err [], blank) ↦ (λ h. inr blank, λ h. rw blank refl)
  | inl (err (issue ∷ issues), bad) ↦
      (λ h. absurd (ground (arith, bad, h)), λ h. elim h [ inl (v, e) ↦ cc | inr e ↦ cc ])
]

undefined-is_undefined : (v : Value) → is_undefined v ≡ true → v ≡ undefined
undefined-is_undefined undefined h = refl
undefined-is_undefined null h = cc
undefined-is_undefined (bool b) h = cc
undefined-is_undefined (num n) h = cc
undefined-is_undefined (str s) h = cc
undefined-is_undefined (arr vs) h = cc
undefined-is_undefined (obj ps) h = cc

field_complaint-Accepts :
    (f : FieldDef) (values : Row) → (field_complaint f values ≡ ok none) ↔ Accepts f values
unfolding field_complaint
field_complaint-Accepts f values = elim (Option-cases f.validate) [
  | inl bare ↦ (λ h v value has at there. cc, λ h. rw bare refl)
  | inr (v, has) ↦ elim (Option-cases (lookup f.name values)) [
    | inl absent ↦ (λ h w value named at there. cc, λ h. rw (has, absent) refl)
    | inr (value, at) ↦ elim (Bool-cases (is_undefined value)) [
      | inl missing ↦
          let gone = undefined-is_undefined value missing in
          (
            λ h w other named found apart.
                (let blank : other ≡ undefined = cc in absurd (apart blank)),
            λ h. rw (has, at, missing) refl,
          )
      | inr there ↦
          let asked : field_complaint f values ≡ complaint v value values =
            rw (has, at, there) refl in
          let differs : value ≢ undefined = λ same. ground (arith, there, same) in
          (
            λ h w other named found apart.
                (let same_v : v ≡ w = ground (arith, has, named) in
                  let same_value : value ≡ other = ground (arith, at, found) in
                  subst (λ x. Says w x values) same_value
                    (subst (λ x. Says x value values) same_v
                      ((complaint-Says v value values).0 (sym asked ∙ h)))),
            λ h. asked ∙ (complaint-Says v value values).1 (h v value has at differs),
          )
    ]
  ]
]

validate_fields-Accept :
    (fields : List FieldDef) (values : Row)
    → All (λ f. field_complaint f values ≡ ok none) fields ↔ All (λ f. Accepts f values) fields
validate_fields-Accept [] values = (λ h. tt, λ h. tt)
validate_fields-Accept (f ∷ fields) values =
    let first = field_complaint-Accepts f values in
    let later = validate_fields-Accept fields values in
    (λ h. (first.0 h.0, later.0 h.1), λ h. (first.1 h.0, later.1 h.1))

quiet_iff :
    (fields : List FieldDef) (values : Row)
    → (run_field_validators (some fields) values ≡ ok none)
      ↔ All (λ f. field_complaint f values ≡ ok none) fields
unfolding run_field_validators
quiet_iff fields values = elim (Result-cases (validate_fields fields values [])) [
  | inr (t, thrown) ↦ ground (arith, validate_fields_iff fields values)
  | inl ([], quiet) ↦ ground (arith, validate_fields_iff fields values)
  | inl (first ∷ others, loud) ↦ ground (arith, validate_fields_iff fields values)
]

-- The validators accept the values of a form exactly when every field does: it has no validator, or no
-- value, or its validator, asked about its own value, has nothing to say and does not throw.
pub run_field_validators_iff :
    (fields : List FieldDef) (values : Row)
    → (run_field_validators (some fields) values ≡ ok none) ↔ All (λ f. Accepts f values) fields
run_field_validators_iff fields values =
    let quiet = quiet_iff fields values in
    let each = validate_fields-Accept fields values in
    (λ h. each.0 (quiet.0 h), λ h. quiet.1 (each.1 h))
