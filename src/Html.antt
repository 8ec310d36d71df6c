-- ===== src/Html.antt =====
-- cheshire/html.go: pages, redirects and flashes. What the filters keep besides the answer is a state
-- `S`. The text of a page comes from the templates, which are a package of their own.
pub mod Pages
pub mod Flash
pub mod Tests
use goshire.Base.{if◌then◌else◌, Option, List, Bool, some, none, false, true, ◌∷◌, [], ℤ, pos}
use goshire.Text.{Str, codes, str_eq}
use goshire.DynMap.Fields.{map, Rows, Value, str, dynmap, maps, other, Fields, end, put, remove}
use goshire.DynMap.Path.{add_to_slice}
use goshire.DynMap.Getters.{get_dyn_map_slice}
use goshire.Handler.{Handlers, new_controller, choose_handler}
use goshire.Http.{Answer, with_header, write_header, write_body}

-- The writer of a transaction, by its type: an *HttpWriter, an *HtmlWriter or another.
pub data WriterKind : Type 0 where
  http_writer html_writer other_writer : WriterKind

-- The error of ToHttpWriter.
abbrev pub to_http_writer : WriterKind → Bool
to_http_writer http_writer = true
to_http_writer html_writer = true
to_http_writer other_writer = false

-- BeforeHtmlWrite of the filters of a transaction, in order; `none` for one that is no HtmlFilter.
abbrev pub HtmlHooks : Type 0 → Type 0
HtmlHooks S = List (Option (Answer × S → (Answer × S) × Bool))

-- How a call ends: it returns, or it uses the writer that is nil.
pub data Ended (A : Type 0) : Type 0 where
  returned : A → Ended A
  nil_dereference : A → Ended A

-- writeContent of a text.
abbrev write_content : Str → Answer → Answer
write_content text a = (write_body text a).0

-- The body of Redirect: its placeholders are not filled in.
abbrev pub moved : Str
moved =
    codes
      "<html><head><title>Moved</title></head><body><h1>Moved</h1><p>This page has moved to <a href=\"%s\">%s</a>.</p></body></html>"

module _ {S : Type 0} where
  -- beforeWrite, where there is a writer.
  unfoldable pub before_page_write : HtmlHooks S → Answer × S → (Answer × S) × Bool
  before_page_write [] w = (w, true)
  before_page_write (none ∷ hooks) w = before_page_write hooks w
  before_page_write (some hook ∷ hooks) w =
      let rest = before_page_write hooks (hook w).0 in if (hook w).1 then rest else hook w

  -- After the hooks: one header, the status and the text.
  abbrev respond : Str → Str → ℤ → Str → (Answer × S) × Bool → Ended (Answer × S)
  respond key value code text (w, false) = returned w
  respond key value code text ((a, s), true) =
      returned (write_content text (write_header code (with_header key value a)), s)

  -- What writeResponse and Redirect share. `send_error` is SendError with the status 400; after it the
  -- code goes on with a nil writer, which beforeWrite or the header is read from.
  unfoldable pub write_page :
      WriterKind
      → HtmlHooks S
      → (Answer × S → Answer × S)
      → Str
      → Str
      → ℤ
      → Str
      → Answer × S
      → Ended (Answer × S)
  write_page kind hooks send_error key value code text w =
      if to_http_writer kind
      then respond key value code text (before_page_write hooks w)
      else nil_dereference (send_error w)

  -- writeResponse, of a page.
  abbrev pub write_html_response :
      WriterKind
      → HtmlHooks S
      → (Answer × S → Answer × S)
      → Str
      → Str
      → Answer × S
      → Ended (Answer × S)
  write_html_response kind hooks send_error content_type text =
      write_page kind hooks send_error (codes "Content-Type") content_type (pos 200) text

  -- Redirect.
  abbrev pub redirect :
      WriterKind → HtmlHooks S → (Answer × S → Answer × S) → Str → Answer × S → Ended (Answer × S)
  redirect kind hooks send_error url =
      write_page kind hooks send_error (codes "Location") url (pos 301) moved

-- Flash: the session afterwards.
unfoldable pub flash : Fields → Str → Str → Fields
flash session severity message =
    add_to_slice session (codes "_flash")
      (dynmap (put (codes "message") (str message) (put (codes "severity") (str severity) end)))

abbrev with_flash : Option Rows → Fields → Fields
with_flash none context = context
with_flash (some rows) context = put (codes "flash") (maps rows) context

-- contxt: the context and the session afterwards. `request` is the printed form of the *Request; a
-- context that is nil is an empty one. The []map of the flashes is a `maps` of them.
unfoldable pub contxt : Str → Fields → Fields → Fields → Fields × Fields
contxt request params context session =
    let a = put (codes "request") (other request) context in
    let b = put (codes "params") (map params) a in
    (with_flash (get_dyn_map_slice session (codes "_flash")) b, (remove (codes "_flash") session).1)

-- What HandleRequest of an HtmlController does.
pub data HtmlAction (H : Type 0) : Type 0 where
  not_found : HtmlAction H
  not_html : HtmlAction H
  calls : H → HtmlAction H

-- HandleRequest of an HtmlController, whose handlers NewHtmlController makes as NewController does: the
-- error 404 or 400 that it sends, or the handler that it calls.
unfoldable pub html_handle_request : {H : Type 0} → Handlers H → Str → WriterKind → HtmlAction H
html_handle_request handlers method kind = elim (choose_handler handlers method) [
  | none ↦ not_found
  | some h ↦ elim kind [ html_writer ↦ calls h | _ ↦ not_html ]
]
