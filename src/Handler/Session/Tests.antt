-- ===== src/Handler/Session/Tests.antt =====
-- The theorem about sessions at a session with one entry besides its id.
use goshire.Base.{
  true, false, ℕ, ◌≡◌, List, [], ◌∷◌, Option, none, some, refl, if◌then◌else◌, arith,
}
use goshire.Text.{Str, codes, str_eq, str_eq_self, split}
use goshire.DynMap.Fields.{Value, str, Fields, end, field, lookup, size}
use goshire.DynMap.Path.{get, walk}
use goshire.DynMap.Cast.{to_text}
use goshire.DynMap.Getters.{get_string, must_bool}
use goshire.Bin.{JsonCodec}
use goshire.Handler.Session.{Cache, before_html_write}
use goshire.Handler.Session.Persistence.{IsFollowed, session_persists}

abbrev Entries : Type 0
Entries = List (Str × Str)

abbrev entry : Entries → Str → Option Str
entry [] k = none
entry ((j, v) ∷ c) k = if str_eq j k then some v else entry c k

-- Nothing expires.
abbrev entries : Cache Entries
entries = record { get = entry; set = λ c k v age. (k, v) ∷ c; delete = λ c k. [] }

entries_hold : (c : Entries) (k v : Str) (age : ℕ) → entries.get (entries.set c k v age) k ≡ some v
entries_hold c k v age = ground (arith, str_eq_self k)

abbrev bob : Fields
bob = field (codes "session_id") (str (codes "s1")) (field (codes "user") (str (codes "bob")) end)

-- A codec that knows one session.
abbrev codec : JsonCodec
codec = record { marshal = λ m. some (codes "bob"); unmarshal = λ m s. some bob }

abbrev sprint : Value → Str
sprint v = codes "?"

-- bob has an id, is not marked for deletion, and has more in it than its id.
session_persists_example :
    IsFollowed codec entries 60 []
      (codes "s1")
      (codes "s2")
      bob
      true
      false
      true
      (before_html_write codec entries sprint 60 [] bob)
unfolding get_string must_bool get walk split lookup str_eq to_text size
session_persists_example =
    session_persists codec entries sprint 60 [] bob (codes "s2") entries_hold (λ c k. refl)
