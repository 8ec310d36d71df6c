-- ===== src/Http/Tests.antt =====
-- The theorem about HTTP answers at two responses.
use goshire.Base.{refl, arith, ◌≡◌, length, List, some, none, ◌∷◌, [], pos}
use goshire.Text.{str_eq, Str, codes}
use goshire.Bin.{JsonCodec}
use goshire.Strest.{new_request, Response, new_response}
use goshire.Http.{to_strest_request, has_prefix, contains, HttpRequest, set_header}
use goshire.DynMap.Fields.{str, field, lookup, end, Value, Fields, map}
use goshire.DynMap.Url.Leaves.{IsForm, IsPlain}
use goshire.DynMap.Url.{marshal_url_values, unmarshal_url_values}
use goshire.DynMap.Url.RoundTrip.{unmarshal-marshal_url_values}
use goshire.Http.Forms.{to_strest_request-form}
use goshire.Http.Laws.{write_all, write_all_lem, fresh, lines}

-- A codec that knows the empty map.
abbrev codec : JsonCodec
codec = record { marshal = λ m. some (codes "{}"); unmarshal = λ m s. none }

abbrev not_found : Response
not_found = record new_response { status_code = pos 404 }

abbrev both : List Response
both = not_found ∷ new_response ∷ []

write_all_lem_example :
    ((write_all codec both (fresh [] (length (lines codec both)))).answer.body ≡ lines codec both)
    × ((write_all codec both (fresh [] (length (lines codec both)))).answer.sent
        ≡ some (pos 404, set_header (codes "Content-Type") (codes "application/json") []))
write_all_lem_example =
    write_all_lem codec not_found (new_response ∷ []) [] (length (lines codec both)) (omega arith)

-- user: {name: bob}, q: x.
abbrev form : Fields
form =
    field (codes "user") (map (field (codes "name") (str (codes "bob")) end))
      (field (codes "q") (str (codes "x")) end)

abbrev sprint : Value → Str
sprint v = []

IsPlain-user : IsPlain (codes "user")
IsPlain-user = ground arith

IsPlain-name : IsPlain (codes "name")
IsPlain-name = ground arith

IsPlain-q : IsPlain (codes "q")
IsPlain-q = ground arith

form-IsForm : IsForm form
unfolding lookup str_eq
form-IsForm =
    (IsPlain-user, refl, (omega arith, (IsPlain-name, refl, tt, tt)), (IsPlain-q, refl, tt, tt))

unmarshal-marshal_url_values_example :
    unmarshal_url_values end (marshal_url_values sprint form []) ≡ form
unmarshal-marshal_url_values_example = unmarshal-marshal_url_values sprint form form-IsForm

abbrev request : HttpRequest
request = record {
  path = codes "/a";
  method = codes "GET";
  header = λ k. [];
  form = marshal_url_values sprint form [];
  body = [];
}

to_strest_request-form_example :
    to_strest_request codec request ≡ record (new_request (codes "/a") (codes "GET")) {
      txn_id = [];
      txn_accept = codes "single";
      params = form;
    }
unfolding contains has_prefix
to_strest_request-form_example =
    to_strest_request-form codec sprint request form form-IsForm refl refl
