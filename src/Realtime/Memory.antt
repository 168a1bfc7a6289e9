-- ===== src/Realtime/Memory.antt =====
-- `createMemoryPublisher` of runtime/publish.ts. The sets of handlers are objects in a store, since
-- the function that `subscribe` returns keeps the set that it was made with: `sets` is the store,
-- by index, and `subs` the map from channels to sets. A handler is a number.
pub mod Views
pub mod Heard
use flowpanel.Base.{
  ℕ, zero, suc, ◌+◌, String, Bool, true, false, Option, none, some, List, [], ◌∷◌, ◌++◌, ◌==◌, eqb,
  length, get_elem?, if◌then◌else◌, or_else, ok, err, ◌>>=◌, keep, not, any, map,
}
use flowpanel.Base.Dict.{lookup, insert, remove}
use flowpanel.Base.Value.{Value}
use flowpanel.Errors.{Throws, new_error}
use flowpanel.Realtime.{Json, encode_payload, decode_payload}

abbrev pub Handlers : Type 0
Handlers = List ℕ

pub record Publisher : Type 0 where
  pub sets : List Handlers
  pub subs : List (String × ℕ)
  pub closed : Bool

-- What `subscribe` returns: nothing to undo once closed, else the channel, the set and the handler.
pub data Unsubscribe : Type 0 where
  no_op : Unsubscribe
  undo : String → ℕ → ℕ → Unsubscribe

-- The contents of a set of the store; a set that is not there is empty.
abbrev pub members : List Handlers → ℕ → Handlers
members [] i = []
members (s ∷ ss) zero = s
members (s ∷ ss) (suc i) = members ss i

abbrev pub write : List Handlers → ℕ → Handlers → List Handlers
write [] i s = []
write (t ∷ ts) zero s = s ∷ ts
write (t ∷ ts) (suc i) s = t ∷ write ts i s

abbrev pub has : Handlers → ℕ → Bool
has s h = any (λ m. eqb m h) s

-- `set.add` and `set.delete`.
abbrev pub add : Handlers → ℕ → Handlers
add s h = if has s h then s else s ++ h ∷ []

abbrev pub delete : Handlers → ℕ → Handlers
delete s h = keep (λ m. not (eqb m h)) s

unfoldable pub subscribe : String → ℕ → Publisher → Publisher × Unsubscribe
subscribe channel h p = if p.closed then (p, no_op) else elim (lookup channel p.subs) [
  | none ↦ (
    record p { sets = p.sets ++ (h ∷ []) ∷ []; subs = insert channel (length p.sets) p.subs },
    undo channel (length p.sets) h,
  )
  | some i ↦ (record p { sets = write p.sets i (add (members p.sets i) h) }, undo channel i h)
]

abbrev pub is_empty : Handlers → Bool
is_empty [] = true
is_empty (_ ∷ _) = false

-- Calling what `subscribe` returned.
unfoldable pub unsubscribe : Unsubscribe → Publisher → Publisher
unsubscribe no_op p = p
unsubscribe (undo channel i h) p =
    let left = delete (members p.sets i) h in
    let p' : Publisher = record p { sets = write p.sets i left } in
    if is_empty left then record p' { subs = remove channel p.subs } else p'

unfoldable pub close : Publisher → Publisher
close p = record p { closed = true; subs = [] }

-- The handlers of a channel, in the order in which they are called.
unfoldable pub receivers : Publisher → String → Handlers
receivers p channel = elim (lookup channel p.subs) [ none ↦ [] | some i ↦ members p.sets i ]

-- `publish`: the calls that it makes, as handlers with what each is handed.
unfoldable pub publish : (j : Json) → String → Value → Publisher → Throws (List (ℕ × Value))
unfolding receivers
publish j channel payload p =
    if p.closed then err (new_error "[flowpanel] this realtime publisher is closed.") else do
      body ← encode_payload j channel payload
      ok (map (λ h. (h, decode_payload j body)) (receivers p channel))
