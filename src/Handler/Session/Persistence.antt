-- ===== src/Handler/Session/Persistence.antt =====
-- What the session filter of cheshire/filters.go leaves for the next request.
use goshire.Base.{
  [], Bool, Bool-cases, Option, Option-cases, none, inl, inr, refl, ltb, arith, ℕ, some, false,
  true, ◌≡◌,
}
use goshire.Text.{Str, codes, str_eq}
use goshire.DynMap.Fields.{Value, bool, str, Fields, end, put, size}
use goshire.DynMap.Getters.{get_string, must_bool}
use goshire.Bin.{JsonCodec}
use goshire.Handler.Session.{Cache, Cookie, Visit, before, before_html_write}

-- A request of a page with the session cookie.
abbrev pub with_cookie : Str → Visit
with_cookie id = record { type = codes "html"; has_http_writer = true; cookie = some id }

-- The session that a request with the cookie begins with.
abbrev pub next_session : JsonCodec → {C : Type 0} → Cache C → C → Str → Str → Fields
next_session json cache c id new_id = before json cache c new_id (with_cookie id) end

abbrev pub bytes_or_none : Option Str → Str
bytes_or_none none = []
bytes_or_none (some b) = b

abbrev pub read_or_empty : Option Fields → Fields
read_or_empty none = end
read_or_empty (some m) = m

-- What encoding/json makes of the session when it is written and read again: nothing is written where
-- MarshalJSON fails, and nothing is read where UnmarshalJSON fails.
abbrev pub written_and_read : JsonCodec → Fields → Fields
written_and_read json session =
    read_or_empty (json.unmarshal end (bytes_or_none (json.marshal session)))

module _ (json : JsonCodec) {C : Type 0} (cache : Cache C) (age : ℕ) (c : C) (id new_id : Str)
    (session : Fields) where
  -- What the page has done, and the next request finds: where the session has an id or not, is marked
  -- for deletion or not, and has more in it than its id or not.
  abbrev pub IsFollowed : Bool → Bool → Bool → Fields × C × Option Cookie → Type 0
  IsFollowed true true full (session', c', cookie) =
      (session' ≡ session)
      × (cookie ≡ some (record { value = id; max_age = 0 }))
      × (next_session json cache c' id new_id ≡ put (codes "session_id") (str new_id) end)
  IsFollowed true false true (session', c', cookie) =
      (session' ≡ put (codes "_persisted") (bool true) session)
      × (cookie ≡ some (record { value = id; max_age = age }))
      × (next_session json cache c' id new_id
          ≡ put (codes "session_id") (str id) (written_and_read json session'))
  IsFollowed _ _ _ (session', c', cookie) = (session' ≡ session) × (cookie ≡ none) × (c' ≡ c)

  next_of_found :
      (c' : C) (bytes : Str)
      → cache.get c' id ≡ some bytes
      → next_session json cache c' id new_id
        ≡ put (codes "session_id") (str id) (read_or_empty (json.unmarshal end bytes))
  unfolding before str_eq
  next_of_found c' bytes held = elim (Option-cases (json.unmarshal end bytes)) [
    | inl e ↦ ground (arith, held, e)
    | inr (m, e) ↦ ground (arith, held, e)
  ]

  next_of_absent :
      (c' : C)
      → cache.get c' id ≡ none
      → next_session json cache c' id new_id ≡ put (codes "session_id") (str new_id) end
  unfolding before str_eq
  next_of_absent c' absent = ground (arith, absent)

-- The session filter over a page and the next request with its cookie, to a cache that holds what was
-- set until then and nothing that was deleted. A session with an id that is marked for deletion is
-- deleted: its cookie gets the age 0, and the next request begins a new session under a new id. Any
-- other with an id that has more in it is marked and written, its cookie gets the age of the session, and
-- the next request begins with what encoding/json makes of what was written, under the same id: nothing
-- but the id where it cannot be written or read. A session without an id, or with an id alone that is
-- not marked for deletion, stays as it is, the cache too, and no cookie is set.
pub session_persists :
    (json : JsonCodec) {C : Type 0} (cache : Cache C) (sprint : Value → Str) (age : ℕ) (c : C)
    (session : Fields) (new_id : Str)
    → ((c : C) (k v : Str) (age : ℕ) → cache.get (cache.set c k v age) k ≡ some v)
    → ((c : C) (k : Str) → cache.get (cache.delete c k) k ≡ none)
    → IsFollowed json cache age c
        (get_string sprint session (codes "session_id")).0
        new_id
        session
        (get_string sprint session (codes "session_id")).1
        (must_bool session (codes "delete_session") false)
        (ltb 1 (size session))
        (before_html_write json cache sprint age c session)
unfolding before_html_write
session_persists json cache sprint age c session new_id holds deletes =
    let named = get_string sprint session (codes "session_id") in
    let found = next_of_found json cache age c named.0 new_id session in
    let absent = next_of_absent json cache age c named.0 new_id session in
    elim (Bool-cases named.1) [
      | inr nameless ↦ rw nameless (refl, refl, refl)
      | inl has_id ↦ elim (Bool-cases (must_bool session (codes "delete_session") false)) [
        | inl marked ↦ rw (has_id, marked) (refl, refl, absent _ (deletes c named.0))
        | inr kept ↦ elim (Bool-cases (ltb 1 (size session))) [
          | inl full ↦ rw (has_id, kept, full) (refl, refl, found _ _ (holds c named.0 _ age))
          | inr alone ↦ rw (has_id, kept, alone) (refl, refl, refl)
        ]
      ]
    ]
