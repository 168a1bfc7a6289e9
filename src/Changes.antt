-- ===== src/Changes.antt =====
-- packages/cli/src/plan/types.ts, filesystem-plan.ts and transaction.ts: what the command line is
-- about to write, and the transaction that writes it. The files of the project are an association
-- list from relative paths to contents; directories are not part of it. `node:path` is a parameter.
pub mod Classes
pub mod Rollback
pub mod Atomic
use flowpanel.Base.{
  ℕ, suc, String, Bool, true, false, not, ◌&&◌, ◌||◌, ◌==◌, Option, none, some, List, [], ◌∷◌, ok,
  err, ◌>>=◌, ◌>>◌, keep, map, any, or_else, if◌then◌else◌,
}
use Prim.Native.String.{◌++◌ as append}
use flowpanel.Base.Text.{contains}
use flowpanel.Base.Dict.{lookup, insert, remove}
use flowpanel.Errors.{Throws, Thrown, new_error}

abbrev pub Files : Type 0
Files = List (String × String)

-- `FileOperationKind`.
pub data Kind : Type 0 where
  create modify skip conflict : Kind

-- `FileIntent`.
pub record Intent : Type 0 where
  pub path : String
  pub content : String
  pub overwrite : Bool
  pub expected_content : Option String

-- `FileOperation`, without its reason, which its kind determines.
pub record Operation : Type 0 where
  pub kind : Kind
  pub path : String
  pub content : String
  pub previous_content : Option String

-- What is used of `node:path`: `leaves` says that a normal path is ".." or begins with ".." and the
-- separator, `to_posix` writes slashes for separators.
pub record Paths : Type 0 where
  pub normalize : String → String
  pub is_absolute : String → Bool
  pub leaves : String → Bool
  pub to_posix : String → String

-- `normalizeRelativePath`.
unfoldable pub normalize_relative_path : Paths → String → Throws String
normalize_relative_path p input =
    let normal = p.normalize input in
    if input == "" || p.is_absolute input || p.leaves normal
    then err (new_error (append "Unsafe project path: " (if input == "" then "<empty>" else input)))
    else ok (p.to_posix normal)

-- `readExisting`. `unreadable` says which error other than a missing file a read ends in.
abbrev read_existing : (String → Option Thrown) → Files → String → Throws (Option String)
read_existing unreadable files file = elim (unreadable file) [
  | none ↦ ok (lookup file files)
  | some t ↦ err t
]

abbrev is_expected : Option String → String → Bool
is_expected none previous = false
is_expected (some e) previous = previous == e

-- The operation of one intent, from what the file holds.
unfoldable pub classify : Intent → String → Option String → Operation
classify intent relative none = record {
  kind = create;
  path = relative;
  content = intent.content;
  previous_content = none;
}
classify intent relative (some previous) =
    if previous == intent.content
    then record { kind = skip; path = relative; content = intent.content; previous_content = none }
    else record {
      kind =
          if intent.overwrite || is_expected intent.expected_content previous
          then modify
          else conflict;
      path = relative;
      content = intent.content;
      previous_content = some previous;
    }

module _ (p : Paths) (unreadable : String → Option Thrown) (files : Files) where
  -- The loop of `createFilesystemPlan`.
  unfoldable pub plan_from : List Intent → List String → Throws (List Operation)
  unfolding normalize_relative_path classify lookup contains
  plan_from [] seen = ok []
  plan_from (intent ∷ intents) seen = do
    relative ← normalize_relative_path p intent.path
    if contains seen relative
        then err (new_error (append "Duplicate planned path: " relative))
        else do
          previous ← read_existing unreadable files relative
          later ← plan_from intents (relative ∷ seen)
          ok (classify intent relative previous ∷ later)

  -- `createFilesystemPlan`.
  unfoldable pub create_plan : List Intent → Throws (List Operation)
  unfolding plan_from
  create_plan intents = plan_from intents []

abbrev pub is_conflict : Operation → Bool
is_conflict o = elim o.kind [ conflict ↦ true | _ ↦ false ]

abbrev pub is_change : Operation → Bool
is_change o = elim o.kind [ create ↦ true | modify ↦ true | _ ↦ false ]

-- What throws while a plan is applied: at each change, the hook or the write, either of which leaves
-- the file as it was; and at each restoring step.
pub record Faults : Type 0 where
  pub at_change : ℕ → Option Thrown
  pub at_restore : ℕ → Option Thrown

-- What the first loop of `applyFilesystemPlan` ends with; the latest change stands first in
-- `applied`, as in `applied.reverse()`.
pub record Applied : Type 0 where
  pub failure : Option Thrown
  pub applied : List Operation
  pub files : Files

unfoldable pub apply_from : Faults → ℕ → List Operation → List Operation → Files → Applied
unfolding insert
apply_from f i [] applied files = record { failure = none; applied = applied; files = files }
apply_from f i (o ∷ os) applied files = elim (f.at_change i) [
  | some t ↦ record { failure = some t; applied = applied; files = files }
  | none ↦ apply_from f (suc i) os (o ∷ applied) (insert o.path o.content files)
]

-- One step of the second loop.
unfoldable pub undo : Operation → Files → Files
unfolding insert remove
undo o files = elim o.kind [
  | create ↦ remove o.path files
  | _ ↦ insert o.path (or_else o.previous_content "") files
]

-- The second loop; an error of its own ends it.
unfoldable pub restore : Faults → ℕ → List Operation → Files → Option Thrown × Files
unfolding undo
restore f i [] files = (none, files)
restore f i (o ∷ os) files = elim (f.at_restore i) [
  | some t ↦ (some t, files)
  | none ↦ restore f (suc i) os (undo o files)
]

-- `join(", ")`.
join : List String → String
join [] = ""
join (s ∷ []) = s
join (s ∷ more) = append s (append ", " (join more))

-- `assertPlanHasNoConflicts`.
unfoldable pub assert_no_conflicts : List Operation → Throws (Unit {0})
unfolding join
assert_no_conflicts plan =
    if any is_conflict plan
    then err (
        new_error (
          append "Refusing to overwrite " (
            append (join (map (λ o. o.path) (keep is_conflict plan)))
              ". Move the file, make the change manually, or explicitly allow replacement.")))
    else ok tt

-- The end of `applyFilesystemPlan`, with the paths it answers.
abbrev settle : Faults → List Operation → Applied → Throws (List String) × Files
settle f changes a = elim a.failure [
  | none ↦ (ok (map (λ o. o.path) changes), a.files)
  | some t ↦ let (failed, files) = restore f 0 a.applied a.files in (err (or_else failed t), files)
]

-- `applyFilesystemPlan`.
unfoldable pub apply_plan : Faults → List Operation → Files → Throws (List String) × Files
unfolding assert_no_conflicts apply_from restore
apply_plan f plan files =
    let changes = keep is_change plan in
    elim (assert_no_conflicts plan) [
      | err t ↦ (err t, files)
      | ok _ ↦ settle f changes (apply_from f 0 changes [] files)
    ]
