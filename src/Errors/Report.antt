-- ===== src/Errors/Report.antt =====
-- `reportUnexpectedError` of runtime/result.ts: the diagnostic hook runs at most once for one
-- `Error` object. The `WeakSet` is the list of the objects reported so far; what the hook is called
-- with and whether it fails are entries of a log.
use flowpanel.Base.{
  ℕ, suc, ◌≤◌, String, Bool, false, ◌||◌, ◌≡◌, refl, Option, none, some, List, [], ◌∷◌, arith, eqb,
  if◌then◌else◌,
}
use flowpanel.Errors.{Thrown, known, js_error, non_error}

pub data Entry : Type 0 where
  hook_called : Option ℕ → String → Entry
  hook_failed : Entry

pub record Reports : Type 0 where
  pub reported : List ℕ
  pub log : List Entry

seen : List ℕ → ℕ → Bool
seen [] n = false
seen (m ∷ ms) n = eqb m n || seen ms n

-- Calls the hook, if there is one. `hook message` says whether the hook itself throws.
invoke : Option (String → Bool) → Option ℕ → String → List Entry → List Entry
invoke none object message log = log
invoke (some hook) object message log =
    if hook message
    then hook_failed ∷ hook_called object message ∷ log
    else hook_called object message ∷ log

report_object : Option (String → Bool) → ℕ → String → Reports → Reports
unfolding invoke seen
report_object hook n message r =
    if seen r.reported n
    then r
    else record { reported = n ∷ r.reported; log = invoke hook (some n) message r.log }

-- `reportUnexpectedError(thrown, context, onError)`.
pub report : Option (String → Bool) → Thrown → Reports → Reports
unfolding report_object
report hook (known e) r = r
report hook (js_error (some n) message) r = report_object hook n message r
report hook (js_error none message) r = record r { log = invoke hook none message r.log }
report hook (non_error v) r = record r { log = invoke hook none "Non-Error value was thrown" r.log }

pub report_all : Option (String → Bool) → List Thrown → Reports → Reports
report_all hook [] r = r
report_all hook (t ∷ ts) r = report_all hook ts (report hook t r)

-- How often the hook was called with the object `n`.
abbrev pub calls : ℕ → List Entry → ℕ
calls n [] = 0
calls n (hook_failed ∷ es) = calls n es
calls n (hook_called none m ∷ es) = calls n es
calls n (hook_called (some k) m ∷ es) = if eqb k n then suc (calls n es) else calls n es

record IsOnce (n : ℕ) (r : Reports) : Type 0 where
  at_most : calls n r.log ≤ 1
  unseen : seen r.reported n ≡ false → calls n r.log ≡ 0

report-IsOnce :
    (n : ℕ) (hook : Option (String → Bool)) (t : Thrown) (r : Reports)
    → IsOnce n r
    → IsOnce n (report hook t r)
unfolding report
report-IsOnce n hook (known e) r v = v
report-IsOnce n hook (js_error (some k) m) r v = ground arith
report-IsOnce n hook (js_error none m) r v = ground arith
report-IsOnce n hook (non_error w) r v = ground arith

report_all-IsOnce :
    (n : ℕ) (hook : Option (String → Bool)) (ts : List Thrown) (r : Reports)
    → IsOnce n r
    → IsOnce n (report_all hook ts r)
unfolding report_all
report_all-IsOnce n hook [] r v = v
report_all-IsOnce n hook (t ∷ ts) r v =
    report_all-IsOnce n hook ts (report hook t r) (report-IsOnce n hook t r v)

abbrev pub no_reports : Reports
no_reports = record { reported = []; log = [] }

-- Whatever is thrown in whatever order, and whether or not the hook fails, the hook is called at
-- most once with one and the same `Error` object.
pub report_once :
    (hook : Option (String → Bool)) (ts : List Thrown) (n : ℕ)
    → calls n (report_all hook ts no_reports).log ≤ 1
report_once hook ts n =
    let start : IsOnce n no_reports = record { at_most = omega arith; unseen = λ _. refl } in
    let final = report_all-IsOnce n hook ts no_reports start in final.at_most
