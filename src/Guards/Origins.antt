-- ===== src/Guards/Origins.antt =====
-- What the guards say no to, whatever the handler.
use flowpanel.Base.{String, true, false, ◌≡◌, some, ◌∷◌, err, Option-cases, inl, inr}
use flowpanel.Base.Text.{contains}
use flowpanel.Base.Dict.{lookup}
use flowpanel.Guards.Context.{Platform, Config, Request, browser_origin}
use flowpanel.Guards.{
  Spec, World, Handler, writes, guard_same_origin, with_guards, error_response, cross_origin,
  collect, normal,
}

-- An origin that is neither the one the browser addressed nor one of the trusted ones.
abbrev pub IsForeign : Platform → Config → Request → String → Type 0
IsForeign p config req origin =
    contains (browser_origin p req ∷ collect (normal p.origin_of config.trusted_origins)) origin
    ≡ false

guard_same_origin-foreign :
    (p : Platform) (config : Config) (req : Request) (header : String)
    → config.same_origin_off ≡ false
    → lookup "origin" req.headers ≡ some header
    → ((origin : String) → p.origin_of header ≡ some origin → IsForeign p config req origin)
    → guard_same_origin p config req ≡ err cross_origin
unfolding guard_same_origin
guard_same_origin-foreign p config req header on there foreign =
    elim (Option-cases (p.origin_of header)) [
      | inl unparsed ↦ rw (on, there, unparsed)
      | inr (origin, parsed) ↦ rw (on, there, parsed, foreign origin parsed)
    ]

module _ {A R : Type 0} (p : Platform) (config : Config) (req : Request) (id : String) (spec : Spec)
    (handler : Handler A R) (w : World A) where
  -- A write from a foreign origin, or with an `Origin` header that is no URL, is answered with
  -- status 403 before anything else happens: no session is read, the limiter is not asked, nothing
  -- is reported, and the handler does not run.
  pub with_guards-foreign :
      (header : String)
      → writes spec ≡ true
      → config.same_origin_off ≡ false
      → lookup "origin" req.headers ≡ some header
      → ((origin : String) → p.origin_of header ≡ some origin → IsForeign p config req origin)
      → with_guards p config req id spec handler w
        ≡ (error_response cross_origin id spec.result_envelope, w)
  unfolding with_guards
  with_guards-foreign header may on there foreign =
      rw (may, guard_same_origin-foreign p config req header on there foreign)
