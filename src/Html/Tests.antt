-- ===== src/Html/Tests.antt =====
-- The theorems about pages and flashes at one filter and two messages.
use goshire.Base.{◌≡◌, ◌+◌, some, none, true, refl, ◌∷◌, [], ℕ, pos}
use goshire.Text.{Str, codes}
use goshire.DynMap.Fields.{end, lookup, maps}
use goshire.Http.{Answer, with_header, write_header, write_body}
use goshire.Html.{HtmlHooks, html_writer, write_html_response, redirect, moved, contxt}
use goshire.Html.Pages.{PageEnds, write_page_lem}
use goshire.Html.Flash.{Message, flash_all, flash_rows, flash_all_once}

abbrev blank : Answer
blank = record { headers = []; sent = none; body = []; room = 1000; flushes = true }

abbrev state : Answer × ℕ
state = (blank, 3)

-- Counts, and agrees.
abbrev hooks : HtmlHooks ℕ
hooks = none ∷ some (λ w. ((w.0, w.1 + 1), true)) ∷ []

abbrev send_error : Answer × ℕ → Answer × ℕ
send_error w = w

write_page_lem_example :
    PageEnds html_writer hooks send_error
      (λ a.
        (write_body
          (codes "hi")
          (write_header (pos 200) (with_header (codes "Content-Type") (codes "text/html") a))).0)
      state
      (write_html_response html_writer hooks send_error (codes "text/html") (codes "hi") state)
    × PageEnds html_writer hooks send_error
        (λ a.
          (write_body moved
            (write_header (pos 301) (with_header (codes "Location") (codes "/b") a))).0)
        state
        (redirect html_writer hooks send_error (codes "/b") state)
write_page_lem_example =
    write_page_lem html_writer hooks send_error (codes "text/html") (codes "hi") (codes "/b") state

abbrev warning : Message
warning = (codes "warn", codes "late")

abbrev notice : Message
notice = (codes "info", codes "saved")

abbrev request : Str
request = codes "r"

flash_all_once_example :
    (lookup (codes "flash") (contxt request end end (flash_all end (warning ∷ notice ∷ []))).0
      ≡ some (maps (flash_rows (warning ∷ notice ∷ []))))
    × (lookup
          (codes "flash")
          (contxt request end end
            (contxt request end end (flash_all end (warning ∷ notice ∷ []))).1).0
        ≡ lookup (codes "flash") end)
unfolding lookup
flash_all_once_example =
    flash_all_once end warning (notice ∷ []) request request end end end end refl
