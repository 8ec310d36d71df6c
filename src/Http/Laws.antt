-- ===== src/Http/Laws.antt =====
-- What a client sees of the responses that are written to one HTTP request.
use goshire.Http.{
  has_body, header_once, json_bytes, HttpWriter, Answer, Headers, http_write, write_body,
  write_header, set_header,
}
use goshire.Base.{
  Bool, Bool-cases, inl, inr, if◌then◌else◌, ◌∙◌, sym, append_assoc, append-nil, ap, refl,
  length-append, arith, ◌-◌, ◌≤◌, length, ◌≡◌, ◌++◌, ℤ, List, ℕ, some, none, false, true, ◌∷◌, [],
}
use goshire.Bin.{JsonCodec}
use goshire.Text.{codes, Str}
use goshire.Strest.{Response}
use goshire.Strest.Json.{marshal_response}

-- Several responses written in turn: the writer afterwards.
abbrev pub write_all : JsonCodec → List Response → HttpWriter → HttpWriter
write_all json [] w = w
write_all json (r ∷ rs) w = write_all json rs (http_write json r w).2

-- Each response as a line of JSON.
abbrev pub line : JsonCodec → Response → Str
line json r = json_bytes (marshal_response json r) ++ 10 ∷ []

abbrev pub lines : JsonCodec → List Response → Str
lines json [] = []
lines json (r ∷ rs) = line json r ++ lines json rs

-- A writer as ServeHTTP makes it, on an answer that nothing has been written to.
abbrev pub fresh : Headers → ℕ → HttpWriter
fresh headers room = record {
  answer = record { headers = headers; sent = none; body = []; room = room; flushes = true };
  header_written = false;
}

-- Room for what is written gives the whole of it.
body_fits :
    (bytes : Str) (a : Answer) (s : ℤ × Headers)
    → a.sent ≡ some s
    → has_body s.0 ≡ true
    → length bytes ≤ a.room
    → write_body bytes a ≡ (record a { body = a.body ++ bytes; room = a.room - length bytes }, true)
unfolding write_body write_header
body_fits bytes a s e allowed h = ground (arith, e, allowed, h)

-- The answer after some more bytes.
abbrev grown : Str → Answer → Answer
grown bytes a = record a { body = a.body ++ bytes; room = a.room - length bytes }

grown_twice :
    (bytes : Str) (a : Answer) → grown (10 ∷ []) (grown bytes a) ≡ grown (bytes ++ 10 ∷ []) a
grown_twice bytes a =
    let room : a.room - length bytes - 1 ≡ a.room - length (bytes ++ 10 ∷ []) =
      omega (arith, length-append bytes (10 ∷ [])) in
    cc (append_assoc a.body bytes (10 ∷ []), room)

both_written :
    (json : JsonCodec) (r : Response) (w : HttpWriter) (a b : Answer)
    → write_body (json_bytes (marshal_response json r)) (header_once r.status_code w) ≡ (a, true)
    → write_body (10 ∷ []) a ≡ (b, true)
    → (http_write json r w).2 ≡ record { answer = b; header_written = true }
unfolding http_write
both_written json r w a b first second = ground (arith, first, second)

-- One response on an answer whose header is sent, or is sent by it.
write_line :
    (json : JsonCodec) (r : Response) (w : HttpWriter) (a : Answer) (s : ℤ × Headers)
    → header_once r.status_code w ≡ a
    → a.sent ≡ some s
    → has_body s.0 ≡ true
    → length (line json r) ≤ a.room
    → (http_write json r w).2 ≡ record { answer = grown (line json r) a; header_written = true }
write_line json r w a s once e allowed h =
    let bytes = json_bytes (marshal_response json r) in
    let total = length-append bytes (10 ∷ []) in
    both_written json r w (grown bytes a) (grown (10 ∷ []) (grown bytes a))
      (ap (write_body bytes) once ∙ body_fits bytes a s e allowed (omega (arith, h, total)))
      (body_fits (10 ∷ []) (grown bytes a) s e allowed (omega (arith, h, total)))
    ∙ ap (λ b. record { answer = b; header_written = true }) (grown_twice bytes a)

abbrev opened : Answer → HttpWriter
opened a = record { answer = a; header_written = true }

grown_nothing : (a : Answer) → grown [] a ≡ a
grown_nothing a = let room : a.room - 0 ≡ a.room = omega arith in cc (append-nil a.body, room)

grown_more : (xs ys : Str) (a : Answer) → grown ys (grown xs a) ≡ grown (xs ++ ys) a
grown_more xs ys a =
    let room : a.room - length xs - length ys ≡ a.room - length (xs ++ ys) =
      omega (arith, length-append xs ys) in
    cc (append_assoc a.body xs ys, room)

write_lines :
    (json : JsonCodec) (rs : List Response) (a : Answer) (s : ℤ × Headers)
    → a.sent ≡ some s
    → has_body s.0 ≡ true
    → length (lines json rs) ≤ a.room
    → write_all json rs (opened a) ≡ opened (grown (lines json rs) a)
write_lines json [] a s e allowed h = ap opened (sym (grown_nothing a))
write_lines json (r ∷ rs) a s e allowed h =
    let total = length-append (line json r) (lines json rs) in
    ap (write_all json rs)
      (write_line json r (opened a) a s refl e allowed (omega (arith, h, total)))
    ∙ write_lines json rs (grown (line json r) a) s e allowed (omega (arith, h, total))
    ∙ ap opened (grown_more (line json r) (lines json rs) a)

-- Where the status that was sent has no body.
module _ (json : JsonCodec) (a : Answer) (s : ℤ × Headers) (e : a.sent ≡ some s)
    (none_allowed : has_body s.0 ≡ false) where
  body_refused : (bytes : Str) → (write_body bytes a).0 ≡ a
  unfolding write_body write_header
  body_refused [] =
      let room : a.room - 0 ≡ a.room = omega arith in ground (arith, e, append-nil a.body, room)
  body_refused (b ∷ bytes) = ground (arith, e, none_allowed)

  write_refused :
      (r : Response) (w : HttpWriter)
      → header_once r.status_code w ≡ a
      → (http_write json r w).2 ≡ opened a
  unfolding http_write
  write_refused r w once =
      let bytes = json_bytes (marshal_response json r) in
      let one = write_body bytes (header_once r.status_code w) in
      let first : one.0 ≡ a = ap (λ b. (write_body bytes b).0) once ∙ body_refused bytes in
      let two = write_body (10 ∷ []) one.0 in
      let second : two.0 ≡ a =
        ap (λ b. (write_body (10 ∷ []) b).0) first ∙ body_refused (10 ∷ []) in
      elim (Bool-cases one.1) [
        | inr failed ↦ rw failed (ap opened first)
        | inl done ↦ elim (Bool-cases two.1) [
          | inr failed ↦ rw (done, failed) (ap opened second)
          | inl done2 ↦ rw (done, done2) (ap opened second)
        ]
      ]

  writes_refused : (rs : List Response) → write_all json rs (opened a) ≡ opened a
  writes_refused [] = refl
  writes_refused (r ∷ rs) =
      ap (write_all json rs) (write_refused r (opened a) refl) ∙ writes_refused rs

abbrev pub typed : Headers → Headers
typed headers = set_header (codes "Content-Type") (codes "application/json") headers

abbrev first_answer : ℤ → Headers → ℕ → Answer
first_answer code headers room = record {
  headers = typed headers;
  sent = some (code, typed headers);
  body = [];
  room = room;
  flushes = true;
}

first_written :
    (json : JsonCodec) (r : Response) (rs : List Response) (headers : Headers) (room : ℕ)
    → length (lines json (r ∷ rs)) ≤ room
    → (b : Bool) → has_body r.status_code ≡ b
    → write_all json (r ∷ rs) (fresh headers room)
      ≡ opened
          (grown (if b then lines json (r ∷ rs) else []) (first_answer r.status_code headers room))
first_written json r rs headers room h true allowed =
    let a = first_answer r.status_code headers room in
    let s : ℤ × Headers = (r.status_code, typed headers) in
    let total = length-append (line json r) (lines json rs) in
    ap (write_all json rs) (
      write_line json r (fresh headers room) a s (unfold write_header in refl) refl allowed
        (omega (arith, h, total)))
    ∙ write_lines json rs (grown (line json r) a) s refl allowed (omega (arith, h, total))
    ∙ ap opened (grown_more (line json r) (lines json rs) a)
first_written json r rs headers room h false refused =
    let a = first_answer r.status_code headers room in
    let s : ℤ × Headers = (r.status_code, typed headers) in
    ap (write_all json rs)
      (write_refused json a s refl refused r (fresh headers room) (unfold write_header in refl))
    ∙ writes_refused json a s refl refused rs
    ∙ ap opened (sym (grown_nothing a))

-- The responses that are written to one HTTP request, where the answer has room for them: the header is
-- sent once, with the status of the first response and the content type "application/json", whatever
-- the statuses of the later ones; the body is the JSON of each response, in order, each on a line, or
-- nothing where the status is one that has no body.
pub write_all_lem :
    (json : JsonCodec) (r : Response) (rs : List Response) (headers : Headers) (room : ℕ)
    → length (lines json (r ∷ rs)) ≤ room
    → (write_all json (r ∷ rs) (fresh headers room)).answer.body
        ≡ (if has_body r.status_code then lines json (r ∷ rs) else [])
      × (write_all json (r ∷ rs) (fresh headers room)).answer.sent
        ≡ some (r.status_code, set_header (codes "Content-Type") (codes "application/json") headers)
write_all_lem json r rs headers room h =
    let all = first_written json r rs headers room h (has_body r.status_code) refl in
    (ap (λ w. w.answer.body) all, ap (λ w. w.answer.sent) all)
