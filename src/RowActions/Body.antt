-- ===== src/RowActions/Body.antt =====
-- `parseBulkBody` of packages/next/src/actions/bulk-action.ts: the identifiers and the input of a bulk
-- action. The platform of the request bodies and `trim` are parameters.
use Prim.Native.Char.{code}
use Prim.Native.String.{◌++◌ as append}
use flowpanel.Base.{
  String, Bool, true, false, ◌==◌, eqb, Option, none, some, List, [], ◌∷◌, ◌++◌, Result, ok, err,
  or_else, if◌then◌else◌,
}
use flowpanel.Base.Dict.{lookup, remove}
use flowpanel.Base.Value.{Value, Values, nil, cons, undefined, null, str, arr, obj, Row, props}
use flowpanel.RequestBody.{
  BodyError, Platform, Request, read_json_object, read_form_data, form_data_object,
}
use flowpanel.RowActions.Bulk.{BulkBody, given, unreadable, no_ids, no_input}

texts_of : Values → List String
texts_of nil = []
texts_of (cons (str s) vs) = s ∷ texts_of vs
texts_of (cons v vs) = texts_of vs

-- `obj.input ?? {}`, which must be an object.
abbrev with_input : List String → Option Value → BulkBody
with_input ids none = given ids []
with_input ids (some undefined) = given ids []
with_input ids (some null) = given ids []
with_input ids (some (obj ps)) = given ids (props ps)
with_input ids (some v) = no_input

abbrev with_ids : List String → Option Value → BulkBody
with_ids [] input = no_ids
with_ids (id ∷ ids) input = with_input (id ∷ ids) input

abbrev json_ids : Option Value → Option Value → BulkBody
json_ids (some (arr vs)) input = with_ids (texts_of vs) input
json_ids ids input = no_ids

abbrev onto_first : String → List String → List String
onto_first c [] = c ∷ []
onto_first c (item ∷ items) = append c item ∷ items

-- `text.split(",")`.
unfoldable pub split_commas : String → List String
split_commas String.[] = "" ∷ []
split_commas (String.◌∷◌ c s) =
    let items = split_commas s in
    if eqb (code c) b',' then "" ∷ items else onto_first (String.◌∷◌ c String.[]) items

abbrev has_comma : List String → Bool
has_comma (item ∷ (next ∷ items)) = true
has_comma _ = false

trimmed : (String → String) → List String → List String
trimmed trim [] = []
trimmed trim (item ∷ items) =
    let others = trimmed trim items in if trim item == "" then others else trim item ∷ others

-- What one `ids` entry of a form adds: the items of a list, or itself.
unfoldable pub ids_of : (String → String) → Value → List String
unfolding split_commas trimmed
ids_of trim (str s) =
    if has_comma (split_commas s)
    then trimmed trim (split_commas s)
    else if s == ""
    then []
    else s ∷ []
ids_of trim v = []

-- `form.getAll("ids")`, each with what it adds.
unfoldable pub form_ids : (String → String) → List (String × Value) → List String
unfolding ids_of
form_ids trim [] = []
form_ids trim ((name, v) ∷ form) =
    let others = form_ids trim form in if name == "ids" then ids_of trim v ++ others else others

abbrev from_json : Result BodyError Row → BulkBody
unfolding lookup texts_of
from_json (err reason) = unreadable reason
from_json (ok o) = json_ids (lookup "ids" o) (lookup "input" o)

abbrev filled : List String → Row → BulkBody
filled [] input = no_ids
filled (id ∷ ids) input = given (id ∷ ids) input

abbrev from_form : (String → String) → Result BodyError (List (String × Value)) → BulkBody
unfolding form_ids form_data_object remove
from_form trim (err reason) = unreadable reason
from_form trim (ok form) = filled (form_ids trim form) (remove "ids" (form_data_object form []))

-- `parseBulkBody`.
unfoldable pub parse_bulk_body : Platform → (trim : String → String) → Request → BulkBody
unfolding read_json_object read_form_data from_json from_form
parse_bulk_body p trim req =
    if p.includes (or_else req.content_type "") "application/json"
    then from_json (read_json_object p req)
    else from_form trim (read_form_data p req)
