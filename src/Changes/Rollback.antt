-- ===== src/Changes/Rollback.antt =====
-- What a plan leaves behind when it is applied.
use flowpanel.Base.{
  ℕ, suc, String, true, false, ◌≡◌, refl, sym, ◌∙◌, ap, subst, Option, none, some, List, [], ◌∷◌,
  ◌==◌, eq_iff, arith, All, if◌then◌else◌, Option-cases, inl, inr, or_else,
}
use flowpanel.Base.Dict.{lookup, insert, lookup-insert, lookup-remove}
use flowpanel.Errors.{Thrown}
use flowpanel.Changes.{Files, Operation, Faults, Applied, is_change, apply_from, undo, restore}
use flowpanel.Changes.Classes.{Describes, IsCurrent, AreDistinct}

-- The same contents under every path.
abbrev pub AreSame : Files → Files → Type 0
AreSame files files' = (path : String) → lookup path files ≡ lookup path files'

abbrev pub undo_all : List Operation → Files → Files
undo_all [] files = files
undo_all (o ∷ os) files = undo_all os (undo o files)

undo-AreSame : (o : Operation) (a b : Files) → AreSame a b → AreSame (undo o a) (undo o b)
unfolding undo
undo-AreSame o a b same path = ground (
  arith,
  lookup-remove o.path path a,
  lookup-remove o.path path b,
  lookup-insert o.path path (or_else o.previous_content "") a,
  lookup-insert o.path path (or_else o.previous_content "") b,
  same path,
)

undo_all-AreSame :
    (os : List Operation) (a b : Files) → AreSame a b → AreSame (undo_all os a) (undo_all os b)
undo_all-AreSame [] a b same = same
undo_all-AreSame (o ∷ os) a b same =
    undo_all-AreSame os (undo o a) (undo o b) (undo-AreSame o a b same)

-- The step that undoes a change restores its file.
undo-insert :
    (o : Operation) (files : Files)
    → is_change o ≡ true
    → IsCurrent files o
    → AreSame (undo o (insert o.path o.content files)) files
unfolding undo
undo-insert o files change current path =
    let files' = insert o.path o.content files in
    ground (
      arith,
      eq_iff o.path path,
      lookup-remove o.path path files',
      lookup-insert o.path path o.content files,
      lookup-insert o.path path (or_else o.previous_content "") files',
    )

-- A write changes nothing that another operation says.
IsCurrent-insert :
    (path content : String) (files : Files) (o : Operation)
    → (path == o.path) ≡ false
    → IsCurrent files o
    → IsCurrent (insert path content files) o
IsCurrent-insert path content files o ne current =
    subst (Describes o.kind o) (sym (lookup-insert path o.path content files ∙ rw ne refl)) current

IsCurrent-insert-All :
    (path content : String) (files : Files) (os : List Operation)
    → All (λ u. (path == u.path) ≡ false) os
    → All (IsCurrent files) os
    → All (IsCurrent (insert path content files)) os
IsCurrent-insert-All path content files [] d k = tt
IsCurrent-insert-All path content files (o ∷ os) (d, ds) (k, ks) =
    (IsCurrent-insert path content files o d k, IsCurrent-insert-All path content files os ds ks)

-- The files with the contents of the operations in the place of what they held.
abbrev pub written : Files → List Operation → String → Option String
written files [] path = lookup path files
written files (o ∷ os) path = if o.path == path then some o.content else written files os path

written-insert :
    (path content : String) (files : Files) (os : List Operation) (k : String)
    → All (λ u. (path == u.path) ≡ false) os
    → written (insert path content files) os k
      ≡ (if path == k then some content else written files os k)
written-insert path content files [] k d = lookup-insert path k content files
written-insert path content files (o ∷ os) k (d, ds) = ground (
  arith,
  eq_iff path k,
  eq_iff o.path k,
  eq_iff path o.path,
  written-insert path content files os k ds,
)

module _ (f : Faults) where
  apply_from_fails :
      (i : ℕ) (o : Operation) (os applied : List Operation) (files : Files) (t : Thrown)
      → f.at_change i ≡ some t
      → apply_from f i (o ∷ os) applied files
        ≡ record { failure = some t; applied = applied; files = files }
  unfolding apply_from
  apply_from_fails i o os applied files t failed = rw (failed, apply_from)

  pub apply_from_goes_on :
      (i : ℕ) (o : Operation) (os applied : List Operation) (files : Files)
      → f.at_change i ≡ none
      → apply_from f i (o ∷ os) applied files
        ≡ apply_from f (suc i) os (o ∷ applied) (insert o.path o.content files)
  unfolding apply_from
  apply_from_goes_on i o os applied files sound = rw (sound, apply_from)

  -- The files that come of undoing what has been applied.
  abbrev pub undone : Applied → Files
  undone a = undo_all a.applied a.files

  -- Undoing what has been applied gives the files of the start, wherever the writes ended.
  pub apply_from-undo_all :
      (start : Files) (i : ℕ) (os applied : List Operation) (files : Files)
      → All (λ o. is_change o ≡ true) os
      → AreDistinct os
      → All (IsCurrent files) os
      → AreSame (undo_all applied files) start
      → AreSame (undone (apply_from f i os applied files)) start
  unfolding apply_from
  apply_from-undo_all start i [] applied files c d k h = h
  apply_from-undo_all start i (o ∷ os) applied files (c, cs) (d, ds) (k, ks) h =
      elim (Option-cases (f.at_change i)) [
        | inr (t, failed) ↦
            subst (λ a. AreSame (undone a) start)
              (sym (apply_from_fails i o os applied files t failed)) h
        | inl sound ↦
            let files' = insert o.path o.content files in
            subst (λ a. AreSame (undone a) start)
              (sym (apply_from_goes_on i o os applied files sound))
              (apply_from-undo_all start (suc i) os (o ∷ applied) files' cs ds
                (IsCurrent-insert-All o.path o.content files os d ks)
                (λ path.
                  undo_all-AreSame applied (undo o files') files (undo-insert o files c k) path
                  ∙ h path))
      ]

  pub restore-undo_all :
      (i : ℕ) (os : List Operation) (files : Files)
      → ((j : ℕ) → f.at_restore j ≡ none)
      → restore f i os files ≡ (none, undo_all os files)
  unfolding restore
  restore-undo_all i [] files sound = refl
  restore-undo_all i (o ∷ os) files sound =
      rw (sound i, restore) (restore-undo_all (suc i) os (undo o files) sound)

  -- What the writes have come to when none failed: they have different paths, so each stays.
  pub apply_from-lookup :
      (i : ℕ) (os applied : List Operation) (files : Files) (path : String)
      → AreDistinct os
      → (apply_from f i os applied files).failure ≡ none
      → lookup path (apply_from f i os applied files).files ≡ written files os path
  unfolding apply_from
  apply_from-lookup i [] applied files path d e = refl
  apply_from-lookup i (o ∷ os) applied files path (d, ds) e = elim (Option-cases (f.at_change i)) [
    | inr (t, failed) ↦ cc (apply_from_fails i o os applied files t failed, e)
    | inl sound ↦
        let files' = insert o.path o.content files in
        let goes_on = apply_from_goes_on i o os applied files sound in
        ap (λ a. lookup path a.files) goes_on
        ∙ apply_from-lookup (suc i) os (o ∷ applied) files' path ds
            (ap (λ a. a.failure) (sym goes_on) ∙ e)
        ∙ written-insert o.path o.content files os path d
  ]
