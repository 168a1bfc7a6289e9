-- ===== src/Changes/Atomic.antt =====
-- A plan is applied whole or not at all.
use flowpanel.Base.{
  ℕ, suc, String, true, false, ◌≡◌, ◌⊎◌, refl, sym, ◌∙◌, ap, subst, Option, none, some, List, [],
  ◌∷◌, ok, err, ◌==◌, eq_iff, arith, All, any, keep, map, Option-cases, Result-cases, Bool-cases,
  inl, inr,
}
use flowpanel.Base.Dict.{lookup, insert}
use flowpanel.Errors.{Thrown, Throws}
use flowpanel.Changes.{
  Files, Intent, Operation, Paths, Faults, Applied, create_plan, is_change, is_conflict, apply_from,
  restore, apply_plan, settle, assert_no_conflicts,
}
use flowpanel.Changes.Classes.{IsCurrent, AreDistinct, plan_from_lem}
use flowpanel.Changes.Rollback.{
  AreSame, written, undone, apply_from-undo_all, restore-undo_all, apply_from-lookup,
  apply_from_goes_on,
}

keep-is_change : (os : List Operation) → All (λ o. is_change o ≡ true) (keep is_change os)
keep-is_change [] = tt
keep-is_change (o ∷ os) = elim (Bool-cases (is_change o)) [
  | inl change ↦ rw (change, keep) (change, keep-is_change os)
  | inr same ↦ rw (same, keep) (keep-is_change os)
]

module _ (P : Operation → Type 0) where
  All-keep : (os : List Operation) → All P os → All P (keep is_change os)
  All-keep [] h = tt
  All-keep (o ∷ os) (h, hs) = elim (Bool-cases (is_change o)) [
    | inl change ↦ rw (change, keep) (h, All-keep os hs)
    | inr same ↦ rw (same, keep) (All-keep os hs)
  ]

keep-AreDistinct : (os : List Operation) → AreDistinct os → AreDistinct (keep is_change os)
keep-AreDistinct [] d = tt
keep-AreDistinct (o ∷ os) (d, ds) = elim (Bool-cases (is_change o)) [
  | inl change ↦
      rw (change, keep) (All-keep (λ u. (o.path == u.path) ≡ false) os d, keep-AreDistinct os ds)
  | inr same ↦ rw (same, keep) (keep-AreDistinct os ds)
]

written-lookup :
    (files : Files) (os : List Operation) (path : String)
    → All (λ u. (path == u.path) ≡ false) os
    → written files os path ≡ lookup path files
written-lookup files [] path d = refl
written-lookup files (o ∷ os) path (d, ds) =
    ground (arith, eq_iff path o.path, eq_iff o.path path, written-lookup files os path ds)

-- An operation that changes nothing finds its content in its file.
written-keep :
    (files : Files) (os : List Operation) (path : String)
    → any is_conflict os ≡ false
    → AreDistinct os
    → All (IsCurrent files) os
    → written files (keep is_change os) path ≡ written files os path
written-keep files [] path c d k = refl
written-keep files (o ∷ os) path c (d, ds) (k, ks) = ground (
  arith,
  eq_iff o.path path,
  written-keep files os path,
  written-lookup files os o.path d,
  written-lookup files os path,
)

module _ (f : Faults) (files : Files) where
  -- Every file is as the plan wants it.
  abbrev pub Complete : List Operation → Throws (List String) × Files → Type 0
  Complete plan out =
      (out.0 ≡ ok (map (λ o. o.path) (keep is_change plan)))
      × ((path : String) → lookup path out.1 ≡ written files plan path)

  -- An error is answered and every file is as before.
  abbrev pub Untouched : Throws (List String) × Files → Type 0
  Untouched out = ((t : Thrown) × (out.0 ≡ err t)) × AreSame out.1 files

  assert_no_conflicts-any :
      (plan : List Operation) → assert_no_conflicts plan ≡ ok tt → any is_conflict plan ≡ false
  unfolding assert_no_conflicts
  assert_no_conflicts-any plan e = ground arith

  settle_whole :
      (changes : List Operation) (a : Applied)
      → a.failure ≡ none
      → settle f changes a ≡ (ok (map (λ o. o.path) changes), a.files)
  settle_whole changes a whole = rw (whole, settle)

  settle_undone :
      (changes : List Operation) (a : Applied) (t : Thrown) (back : Files)
      → a.failure ≡ some t
      → restore f 0 a.applied a.files ≡ (none, back)
      → settle f changes a ≡ (err t, back)
  settle_undone changes a t back failed restored = rw (failed, restored, settle)

  settle_lem :
      (plan : List Operation)
      → ((j : ℕ) → f.at_restore j ≡ none)
      → any is_conflict plan ≡ false
      → AreDistinct plan
      → All (IsCurrent files) plan
      → let out = settle f (keep is_change plan) (apply_from f 0 (keep is_change plan) [] files) in
        Complete plan out ⊎ Untouched out
  settle_lem plan sound c d k =
      let changes = keep is_change plan in
      let a = apply_from f 0 changes [] files in
      elim (Option-cases a.failure) [
        | inl whole ↦ inl (
          ap (λ out. out.0) (settle_whole changes a whole),
          λ path.
              ap (λ out. lookup path out.1) (settle_whole changes a whole)
              ∙ apply_from-lookup f 0 changes [] files path (keep-AreDistinct plan d) whole
              ∙ written-keep files plan path c d k,
        )
        | inr (t, failed) ↦
            let back = undone f a in
            let settled =
              settle_undone changes a t back failed
                (restore-undo_all f 0 a.applied a.files sound) in
            let same =
              apply_from-undo_all f files 0 changes [] files (keep-is_change plan)
                (keep-AreDistinct plan d) (All-keep (IsCurrent files) plan k) (λ path. refl) in
            inr (
              (t, ap (λ out. out.0) settled),
              λ path. ap (λ out. lookup path out.1) settled ∙ same path,
            )
      ]

module _ (f : Faults) (files : Files) where
  apply_plan_refused :
      (plan : List Operation) (t : Thrown)
      → assert_no_conflicts plan ≡ err t
      → apply_plan f plan files ≡ (err t, files)
  unfolding apply_plan
  apply_plan_refused plan t refused = rw (refused, apply_plan)

  apply_plan_free :
      (plan : List Operation)
      → assert_no_conflicts plan ≡ ok tt
      → apply_plan f plan files
        ≡ settle f (keep is_change plan) (apply_from f 0 (keep is_change plan) [] files)
  unfolding apply_plan
  apply_plan_free plan free = rw (free, apply_plan)

  apply_from-failure :
      (i : ℕ) (os applied : List Operation) (held : Files)
      → ((j : ℕ) → f.at_change j ≡ none)
      → (apply_from f i os applied held).failure ≡ none
  unfolding apply_from
  apply_from-failure i [] applied held sound = refl
  apply_from-failure i (o ∷ os) applied held sound =
      ap (λ a. a.failure) (apply_from_goes_on f i o os applied held (sound i))
      ∙ apply_from-failure (suc i) os (o ∷ applied) (insert o.path o.content held) sound

  -- A plan without conflicts is applied, if neither the hook nor a write fails; the answer is the
  -- paths that were created or modified, in the order of the plan.
  pub apply_plan_lem :
      (plan : List Operation)
      → any is_conflict plan ≡ false
      → ((j : ℕ) → f.at_change j ≡ none)
      → (apply_plan f plan files).0 ≡ ok (map (λ o. o.path) (keep is_change plan))
  unfolding assert_no_conflicts
  apply_plan_lem plan free sound =
      let changes = keep is_change plan in
      let a = apply_from f 0 changes [] files in
      ap (λ out. out.0) (apply_plan_free plan (ground (arith, free)))
      ∙ ap (λ out. out.0)
          (settle_whole f files changes a (apply_from-failure 0 changes [] files sound))

module _ (p : Paths) (unreadable : String → Option Thrown) (f : Faults) (files : Files) where
  -- A plan made from the files and applied to them is applied whole, so that every file that it names
  -- has the content that it names and every other file its own; or an error is answered and every
  -- file is as before, wherever the hook or a write failed. It is assumed that the steps that
  -- restore the files do not fail themselves.
  pub apply_plan-create_plan :
      (intents : List Intent) (plan : List Operation)
      → create_plan p unreadable files intents ≡ ok plan
      → ((j : ℕ) → f.at_restore j ≡ none)
      → Complete f files plan (apply_plan f plan files)
        ⊎ Untouched f files (apply_plan f plan files)
  unfolding create_plan apply_plan
  apply_plan-create_plan intents plan made sound =
      let (_, d, k) = plan_from_lem p unreadable files intents [] plan made in
      elim (Result-cases (assert_no_conflicts plan)) [
        | inr (t, refused) ↦ inr (
            subst (Untouched f files) (sym (apply_plan_refused f files plan t refused))
              ((t, refl), λ path. refl))
        | inl (_, free) ↦
            subst (λ out. Complete f files plan out ⊎ Untouched f files out)
              (sym (apply_plan_free f files plan free))
              (settle_lem f files plan sound (assert_no_conflicts-any f files plan free) d k)
      ]
