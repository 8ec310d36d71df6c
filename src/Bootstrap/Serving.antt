-- ===== src/Bootstrap/Serving.antt =====
-- From RegisterApi to the binary listener and back: cheshire/bootstrap.go, cheshire/router.go,
-- cheshire/binarylistener.go and cheshire/protocol_bin.go together.
use goshire.Bin.Stream.{Queue}
use goshire.Bin.Layout.{delivered}
use goshire.Base.{◌≡◌, List, ◌∷◌, []}
use goshire.Bin.{JsonCodec}
use goshire.DynMap.Fields.{Fields}
use goshire.Router.{Router, Controller}
use goshire.Text.{to_upper, Str}
use goshire.Strest.{Request}

-- Every request is for the route and, up to case, for the method.
abbrev pub AreFor : {json : JsonCodec} → Str → Str → Queue json → Type 0
AreFor route method [] = Unit
AreFor route method ((r, h) ∷ q) =
    (r.uri ≡ route) × (to_upper r.method ≡ to_upper method) × AreFor route method q

-- The requests as they are delivered, each with the controller.
abbrev pub all_to : {json : JsonCodec} → Controller → Queue json → List (Request × Controller)
all_to c [] = []
all_to c ((r, h) ∷ q) = (delivered r h, c) ∷ all_to c q
