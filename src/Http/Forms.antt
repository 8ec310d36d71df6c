-- ===== src/Http/Forms.antt =====
-- A form that is sent over HTTP, in cheshire/httplistener.go and dynmap/dynmap.go together.
use goshire.Http.{HttpRequest, to_strest_request, contains, or_single}
use goshire.DynMap.Url.{unmarshal_url_values, marshal_url_values}
use goshire.DynMap.Url.Leaves.{IsForm}
use goshire.DynMap.Url.RoundTrip.{unmarshal-marshal_url_values}
use goshire.Base.{arith, ◌∙◌, ap, ◌≡◌, false, []}
use goshire.Bin.{JsonCodec}
use goshire.DynMap.Fields.{end, Fields, Value}
use goshire.Text.{codes, Str}
use goshire.Strest.{new_request}

-- An HTTP request whose Form is what urlEncode makes of a form, and whose body is no JSON, becomes the
-- strest request with the form as its parameters, the path as its uri, the method, and the txn id and
-- the accept of its headers, where a missing accept is "single".
pub to_strest_request-form :
    (json : JsonCodec) (sprint : Value → Str) (req : HttpRequest) (m : Fields)
    → IsForm m
    → req.form ≡ marshal_url_values sprint m []
    → contains (codes "json") (req.header (codes "Content-Type")) ≡ false
    → to_strest_request json req ≡ record (new_request req.path req.method) {
      txn_id = req.header (codes "Strest-Txn-Id");
      txn_accept = or_single (req.header (codes "Strest-Txn-Accept"));
      params = m;
    }
unfolding to_strest_request
to_strest_request-form json sprint req m h form plain =
    let decoded = ap (unmarshal_url_values end) form ∙ unmarshal-marshal_url_values sprint m h in
    ground (arith, plain, decoded)
