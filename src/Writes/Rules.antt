-- ===== src/Writes/Rules.antt =====
-- Which rule decides on the write of a field: that of `fieldAccess`, else that of the field of the
-- form; and what an accepted input has passed.
use flowpanel.Base.{
  String, true, ◌==◌, ◌≡◌, refl, sym, ap, subst, ◌∙◌, inl, inr, Option, none, some, List, [], ◌∷◌,
  ok, err, >>=-eq-ok, Result-cases, Option-cases, ok_inj, or_else, All, All-map, eq_iff, arith,
  if◌then◌else◌,
}
use flowpanel.Base.Text.{contains}
use flowpanel.Base.Dict.{lookup, lookup-insert, keys}
use flowpanel.Base.Value.{obj, Props, props, Row}
use flowpanel.Errors.{Throws}
use flowpanel.Policy.{Rule, FieldAccess, FieldWriteContext, Policies, write_of, access_allows}
use flowpanel.Policy.Writing.{assert_writable_input_iff}
use flowpanel.Guards.{RequestContext}
use flowpanel.Writes.Fields.{
  FieldDef, Column, field_rule, with_write, add_policy, effective_field_policies,
  declared_write_fields, assert_resource_writable_input,
}

-- The rule of a field, `none` where there is none.
abbrev pub WriteRule : Type 0
WriteRule = Option (Rule FieldWriteContext)

abbrev pub or_rule : WriteRule → WriteRule → WriteRule
or_rule (some r) other = some r
or_rule none other = other

abbrev pub ruled : Throws WriteRule → WriteRule
ruled (ok r) = r
ruled (err t) = none

-- The first rule that a form has for a field of this name.
abbrev pub form_rule : List FieldDef → Option Row → String → WriteRule
form_rule [] current k = none
form_rule (f ∷ fields) current k =
    or_rule (if f.name == k then ruled (field_rule f current) else none)
      (form_rule fields current k)

or_rule_assoc : (a b c : WriteRule) → or_rule (or_rule a b) c ≡ or_rule a (or_rule b c)
or_rule_assoc (some r) b c = refl
or_rule_assoc none b c = refl

or_rule-none : (a : WriteRule) → or_rule a none ≡ a
or_rule-none (some r) = refl
or_rule-none none = refl

write_of-with_write :
    (p : Option FieldAccess) (r : Rule FieldWriteContext)
    → write_of (some (with_write p r)) ≡ some r
write_of-with_write none r = refl
write_of-with_write (some p) r = refl

add_policy-write_of :
    (f : FieldDef) (current : Option Row) (p q : Policies) (k : String)
    → add_policy f current p ≡ ok q
    → write_of (lookup k q)
      ≡ or_rule (write_of (lookup k p)) (if f.name == k then ruled (field_rule f current) else none)
unfolding add_policy
add_policy-write_of f current p q k same = elim (Option-cases (write_of (lookup f.name p))) [
  | inr (r, there) ↦ ground (arith, eq_iff f.name k)
  | inl absent ↦ elim (Result-cases (field_rule f current)) [
    | inr (t, thrown) ↦ ground arith
    | inl (none, found) ↦ ground (arith, eq_iff f.name k)
    | inl (some r, found) ↦ ground (
      arith,
      eq_iff f.name k,
      lookup-insert f.name k (with_write (lookup f.name p) r) p,
      write_of-with_write (lookup f.name p) r,
    )
  ]
]

-- `fieldAccess` wins over the form, and of two fields of one name the first that has a rule.
pub effective_field_policies-write_of :
    (fields : List FieldDef) (current : Option Row) (p q : Policies) (k : String)
    → effective_field_policies fields current p ≡ ok q
    → write_of (lookup k q) ≡ or_rule (write_of (lookup k p)) (form_rule fields current k)
unfolding effective_field_policies
effective_field_policies-write_of [] current p q k same =
    ap (λ r. write_of (lookup k r)) (sym (ok_inj same)) ∙ sym (or_rule-none _)
effective_field_policies-write_of (f ∷ fields) current p q k same =
    let (step, first, later) = >>=-eq-ok (add_policy f current p) _ same in
    effective_field_policies-write_of fields current step q k later
    ∙ ap (λ r. or_rule r (form_rule fields current k))
        (add_policy-write_of f current p step k first)
    ∙ or_rule_assoc (write_of (lookup k p)) _ (form_rule fields current k)

-- The rule of a field in a form of a resource.
abbrev pub effective_rule : Policies → Option (List FieldDef) → Option Row → String → WriteRule
effective_rule access fields current k =
    or_rule (write_of (lookup k access)) (form_rule (or_else fields []) current k)

-- The context that a write rule is asked in.
abbrev pub write_context : RequestContext → Option Row → Row → FieldWriteContext
write_context c current input = record { caller = c.caller; current = current; input = input }

-- An accepted object is accepted whole, with no key dropped or added; each of its keys is declared,
-- and the rule that decides on it has answered true for this caller and this row.
pub assert_resource_writable_input-accepted :
    (columns : List Column) (access : Policies) (fields : Option (List FieldDef)) (ps : Props)
    (current : Option Row) (c : RequestContext) (safe : Row)
    → assert_resource_writable_input columns access fields (obj ps) current c ≡ ok safe
    → (safe ≡ props ps)
      × All (λ k. contains (declared_write_fields columns fields) k ≡ true) (keys (props ps))
      × All
          (λ k.
            access_allows
              (effective_rule access fields current k)
              c.role
              (write_context c current (props ps))
            ≡ ok true)
          (keys (props ps))
unfolding assert_resource_writable_input
assert_resource_writable_input-accepted columns access fields ps current c safe same =
    let (policies, resolved, accepted) =
      >>=-eq-ok (effective_field_policies (or_else fields []) current access) _ same in
    let (whole, declared, allowed) =
      (assert_writable_input_iff (declared_write_fields columns fields) policies
          (write_context c current (props ps)) (props ps) safe).0
        accepted in
    (
      whole,
      declared,
      All-map
          (λ k may.
            subst (λ rule. access_allows rule c.role (write_context c current (props ps)) ≡ ok true)
              (effective_field_policies-write_of (or_else fields []) current access policies k
                resolved)
              may)
          (keys (props ps)) allowed,
    )
