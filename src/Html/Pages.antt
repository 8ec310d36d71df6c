-- ===== src/Html/Pages.antt =====
-- What writeResponse and Redirect of cheshire/html.go send.
use goshire.Html.{
  redirect, moved, write_html_response, nil_dereference, HtmlHooks, Ended, returned,
  before_page_write, write_page, WriterKind, to_http_writer,
}
use goshire.Http.{Answer, with_header, write_header, write_body}
use goshire.Base.{
  pos, arith, ap, Bool-cases, ◌⊎◌, ℤ, ◌≡◌, Bool, some, none, false, true, refl, inr, inl, ◌∷◌, [],
}
use goshire.Text.{codes, Str}

module _ {S : Type 0} where
  -- Every hook of the filters lets the page pass, from the first state to the second.
  pub data Agreed : HtmlHooks S → Answer × S → Answer × S → Type 0 where
    no_more : {w : Answer × S} → Agreed [] w w
    not_asked :
        {hooks : HtmlHooks S} {w v : Answer × S} → Agreed hooks w v → Agreed (none ∷ hooks) w v
    agrees :
        {hook : Answer × S → (Answer × S) × Bool} {hooks : HtmlHooks S} {w u v : Answer × S}
        → hook w ≡ (u, true)
        → Agreed hooks u v
        → Agreed (some hook ∷ hooks) w v

  -- The hooks up to the first that refuses the page, and the state that it leaves.
  pub data Refused : HtmlHooks S → Answer × S → Answer × S → Type 0 where
    refuses :
        {hook : Answer × S → (Answer × S) × Bool} {hooks : HtmlHooks S} {w v : Answer × S}
        → hook w ≡ (v, false)
        → Refused (some hook ∷ hooks) w v
    refused_later :
        {hook : Answer × S → (Answer × S) × Bool} {hooks : HtmlHooks S} {w u v : Answer × S}
        → hook w ≡ (u, true)
        → Refused hooks u v
        → Refused (some hook ∷ hooks) w v
    refused_after :
        {hooks : HtmlHooks S} {w v : Answer × S} → Refused hooks w v → Refused (none ∷ hooks) w v

  before_page_write_lem :
      (hooks : HtmlHooks S) (w : Answer × S)
      → ((v : Answer × S) × Agreed hooks w v × (before_page_write hooks w ≡ (v, true)))
        ⊎ ((v : Answer × S) × Refused hooks w v × (before_page_write hooks w ≡ (v, false)))
  unfolding before_page_write
  before_page_write_lem [] w = inl (w, no_more, refl)
  before_page_write_lem (none ∷ hooks) w = elim (before_page_write_lem hooks w) [
    | inl (v, a, e) ↦ inl (v, not_asked a, e)
    | inr (v, a, e) ↦ inr (v, refused_after a, e)
  ]
  before_page_write_lem (some hook ∷ hooks) w = elim (Bool-cases (hook w).1) [
    | inl go_on ↦
        let step : hook w ≡ ((hook w).0, true) = ap (λ b. ((hook w).0, b)) go_on in
        elim (before_page_write_lem hooks (hook w).0) [
          | inl (v, a, e) ↦ inl (v, agrees step a, ground (arith, go_on, e))
          | inr (v, a, e) ↦ inr (v, refused_later step a, ground (arith, go_on, e))
        ]
    | inr stop ↦
        let step : hook w ≡ ((hook w).0, false) = ap (λ b. ((hook w).0, b)) stop in
        inr ((hook w).0, refuses step, ground (arith, stop))
  ]

  -- The three ways in which a page or a redirect ends.
  abbrev pub PageEnds :
      WriterKind
      → HtmlHooks S
      → (Answer × S → Answer × S)
      → (Answer → Answer)
      → Answer × S
      → Ended (Answer × S)
      → Type 0
  PageEnds kind hooks send_error written w end =
      ((to_http_writer kind ≡ false) × (end ≡ nil_dereference (send_error w)))
      ⊎ ((to_http_writer kind ≡ true)
          × (((v : Answer × S) × Agreed hooks w v × (end ≡ returned (written v.0, v.1)))
              ⊎ ((v : Answer × S) × Refused hooks w v × (end ≡ returned v))))

  page_written :
      (kind : WriterKind) (hooks : HtmlHooks S) (send_error : Answer × S → Answer × S)
      (key value text : Str) (code : ℤ) (w : Answer × S)
      → PageEnds kind hooks send_error
          (λ a. (write_body text (write_header code (with_header key value a))).0)
          w
          (write_page kind hooks send_error key value code text w)
  unfolding write_page
  page_written kind hooks send_error key value text code w =
      elim (Bool-cases (to_http_writer kind)) [
        | inr no_writer ↦ inl (no_writer, ground (arith, no_writer))
        | inl http ↦ inr (
          http,
          elim (before_page_write_lem hooks w) [
            | inl (v, agreed, e) ↦ inl (v, agreed, ground (arith, http, e))
            | inr (v, refused, e) ↦ inr (v, refused, ground (arith, http, e))
          ],
        )
      ]

  -- A page and a redirect, on every branch. Without an HTTP writer, SendError is called and then a nil
  -- writer is used. With one, the BeforeHtmlWrite of the filters run in order, each on the answer and
  -- the state that the one before left. Where all agree, the page is sent with its content type, the
  -- status 200 and its text, and the redirect with its location, the status 301 and its body; where one
  -- refuses, those after it are not called and nothing more is sent.
  pub write_page_lem :
      (kind : WriterKind) (hooks : HtmlHooks S) (send_error : Answer × S → Answer × S)
      (content_type text url : Str) (w : Answer × S)
      → PageEnds kind hooks send_error
          (λ a.
            (write_body text
              (write_header (pos 200) (with_header (codes "Content-Type") content_type a))).0)
          w
          (write_html_response kind hooks send_error content_type text w)
        × PageEnds kind hooks send_error
            (λ a.
              (write_body moved (write_header (pos 301) (with_header (codes "Location") url a))).0)
            w
            (redirect kind hooks send_error url w)
  write_page_lem kind hooks send_error content_type text url w = (
    page_written kind hooks send_error (codes "Content-Type") content_type text (pos 200) w,
    page_written kind hooks send_error (codes "Location") url moved (pos 301) w,
  )
