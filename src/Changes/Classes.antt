-- ===== src/Changes/Classes.antt =====
-- What the operations of a plan say of the files that it was made from.
use flowpanel.Base.{
  ok_inj, String, true, false, ◌≡◌, ◌≢◌, ◌↔◌, refl, Option, none, some, List, [], ◌∷◌, ok, ◌==◌,
  eq_iff, arith, All, Option-cases, Result-cases, Bool-cases, inl, inr, is_some, All-map, subst,
  sym, ◌∙◌,
}
use flowpanel.Base.Text.{contains}
use flowpanel.Base.Dict.{lookup}
use flowpanel.Errors.{Thrown}
use flowpanel.Changes.{
  Files, Kind, create, skip, Intent, Operation, Paths, classify, plan_from, is_conflict,
  normalize_relative_path, read_existing,
}

-- What each kind of operation says of its file.
abbrev pub Describes : Kind → Operation → Option String → Type 0
Describes create o held = held ≡ none
Describes skip o held = held ≡ some o.content
Describes _ o held = (held ≡ o.previous_content) × (is_some held ≡ true) × (held ≢ some o.content)

abbrev pub IsCurrent : Files → Operation → Type 0
IsCurrent files o = Describes o.kind o (lookup o.path files)

-- No two operations have the same path.
abbrev pub AreDistinct : List Operation → Type 0
AreDistinct [] = Unit
AreDistinct (o ∷ os) = All (λ u. (o.path == u.path) ≡ false) os × AreDistinct os

classify-path :
    (intent : Intent) (relative : String) (held : Option String)
    → (classify intent relative held).path ≡ relative
unfolding classify
classify-path intent relative none = refl
classify-path intent relative (some previous) = ground arith

classify-Describes :
    (intent : Intent) (relative : String) (held : Option String)
    → Describes (classify intent relative held).kind (classify intent relative held) held
unfolding classify
classify-Describes intent relative none = refl
classify-Describes intent relative (some previous) = ground (arith, eq_iff previous intent.content)

-- A file that is there and differs is a conflict, unless the intent says that it may be overwritten
-- or names just what the file holds; nothing else is one.
pub classify-is_conflict :
    (intent : Intent) (relative : String) (held : Option String)
    → (is_conflict (classify intent relative held) ≡ true) ↔ (
        (previous : String) × (held ≡ some previous)
        × (previous ≢ intent.content)
        × (intent.overwrite ≡ false)
        × (intent.expected_content ≢ some previous))
unfolding classify
classify-is_conflict intent relative none = ground arith
classify-is_conflict intent relative (some previous) = elim (Option-cases intent.expected_content) [
  | inl free ↦ ground (arith, free, eq_iff previous intent.content)
  | inr (e, expected) ↦ ground (arith, expected, eq_iff previous intent.content, eq_iff previous e)
]

module _ (p : Paths) (unreadable : String → Option Thrown) (files : Files) where
  -- A plan whose operations are as they must be behind the paths `seen`.
  abbrev pub IsGood : List String → List Operation → Type 0
  IsGood seen plan =
      All (λ o. contains seen o.path ≡ false) plan × AreDistinct plan × All (IsCurrent files) plan

  held-lookup :
      (relative : String) (held : Option String)
      → read_existing unreadable files relative ≡ ok held
      → held ≡ lookup relative files
  held-lookup relative held e = ground arith

  contains-first :
      (first : String) (seen : List String) (k : String)
      → contains (first ∷ seen) k ≡ false
      → ((first == k) ≡ false) × (contains seen k ≡ false)
  unfolding contains
  contains-first first seen k e = ground arith

  classify-IsGood :
      (intent : Intent) (relative : String) (seen : List String) (later : List Operation)
      → contains seen relative ≡ false
      → IsGood (relative ∷ seen) later
      → IsGood seen (classify intent relative (lookup relative files) ∷ later)
  classify-IsGood intent relative seen later new (fresh, distinct, current) =
      let held = lookup relative files in
      let o = classify intent relative held in
      let same = classify-path intent relative held in
      (
        (rw same new, All-map (λ u h. (contains-first relative seen u.path h).1) later fresh),
        (All-map (λ u h. rw same (contains-first relative seen u.path h).0) later fresh, distinct),
        (
          subst (λ path. Describes o.kind o (lookup path files)) (sym same)
              (classify-Describes intent relative held),
          current,
        ),
      )

  pub plan_from_lem :
      (intents : List Intent) (seen : List String) (plan : List Operation)
      → plan_from p unreadable files intents seen ≡ ok plan
      → IsGood seen plan
  unfolding plan_from
  plan_from_lem [] seen plan e = subst (IsGood seen) (ok_inj e) (tt, tt, tt)
  plan_from_lem (intent ∷ intents) seen plan e =
      elim (Result-cases (normalize_relative_path p intent.path)) [
        | inr (t, unsafe) ↦ ground (arith, unsafe)
        | inl (relative, safe) ↦ elim (Bool-cases (contains seen relative)) [
          | inl twice ↦ ground (arith, safe, twice)
          | inr new ↦ elim (Result-cases (read_existing unreadable files relative)) [
            | inr (t, failed) ↦ ground (arith, safe, new, failed)
            | inl (held, there) ↦
                elim (Result-cases (plan_from p unreadable files intents (relative ∷ seen))) [
                  | inr (t, failed) ↦ ground (arith, safe, new, there, failed)
                  | inl (later, made) ↦
                      let o = classify intent relative (lookup relative files) in
                      let at = held-lookup relative held there in
                      let all : plan_from p unreadable files (intent ∷ intents) seen
                          ≡ ok (o ∷ later) =
                        ground (arith, safe, new, there, made, at) in
                      subst (IsGood seen) (ok_inj (sym all ∙ e)) (
                        classify-IsGood intent relative seen later new
                          (plan_from_lem intents (relative ∷ seen) later made))
                ]
          ]
        ]
      ]
