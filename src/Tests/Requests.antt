-- ===== src/Tests/Requests.antt =====
-- The guards at a concrete request.

use flowpanel.Base.{
  ℕ, String, true, false, ◌≡◌, refl, ap, subst, or_else, ◌⊎◌, none, some, [], ◌∷◌, ok,
}
use flowpanel.Base.Dict.{lookup}
use flowpanel.Base.Text.{contains}
use flowpanel.Policy.{only}
use flowpanel.Errors.Report.{no_reports}
use flowpanel.Guards.{
  Platform, Config, Request, RequestContext, browser_origin, build_request_context, Spec, World,
  Handler, with_guards, finish,
}
use flowpanel.Guards.Admission.{Admitted, Refused, with_guards-Admitted}

-- Every text is its own origin.
abbrev pub platform : Platform
platform = record { origin_of = λ s. some s; protocol_of = λ _. "https"; trim = λ s. s }

abbrev config : Config
config = record {
  same_origin_off = false;
  trusted_origins = [];
  read_only = false;
  session_of = λ _. ok none;
  role_of = λ _. ok "editor";
  require_role = none;
  actor_id = λ _. none;
  scope = none;
  rate_limit = none;
  on_error = none;
}

abbrev foreign_request : Request
foreign_request = record {
  url = "https://admin.test";
  method = "POST";
  headers = ("origin", "https://evil.test") ∷ ("host", "admin.test") ∷ [];
  bound = none;
}

abbrev spec : Spec
spec = record {
  resource = none;
  page_require_role = some (only "editor");
  action_require_role = none;
  action_access = none;
  operation = none;
  write = none;
  result_envelope = true;
}

abbrev world : World ℕ
world = record {
  limiter = record { now = 0; buckets = []; calls = [] };
  reports = no_reports;
  app = 0;
}

abbrev handler : Handler ℕ String
handler c n = (ok "done", 1)

abbrev pub own_request : Request
own_request = record foreign_request { headers = ("host", "admin.test") ∷ [] }

with_guards-Admitted_example :
    ((c : RequestContext) × Admitted platform config own_request "r" spec world c
      × (with_guards platform config own_request "r" spec handler world
          ≡ finish config "r" true
              (record world {
                limiter = (build_request_context platform config own_request "r" world.limiter).1;
              })
              (handler c 0)))
    ⊎ (((c : RequestContext) → ¬ Admitted platform config own_request "r" spec world c)
        × Refused platform config own_request "r" spec world
            (with_guards platform config own_request "r" spec handler world))
with_guards-Admitted_example =
    with_guards-Admitted platform config own_request "r" spec handler world

evil_is_foreign :
    (origin : String)
    → platform.origin_of "https://evil.test" ≡ some origin
    → contains (browser_origin platform foreign_request ∷ []) origin ≡ false
unfolding lookup contains browser_origin
evil_is_foreign origin e =
    subst (λ o. contains (browser_origin platform foreign_request ∷ []) o ≡ false)
      (ap (λ o. or_else o "") e) refl
