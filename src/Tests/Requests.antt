-- ===== src/Tests/Requests.antt =====
-- Requests of a browser.
use stream_os.Base.{ℕ, ◌≡◌, ◌↔◌, refl, arith, List, [], ◌∷◌, Option, none, some, ok}
use stream_os.Http.{
  handle_http_request, line_end, split, split_once, respond, slash, slash_form, new, text_html,
}
use stream_os.Http.Laws.{request, uri_of, IsAnswer, request-panics_iff}

abbrev get : List ℕ
get = 0x47 ∷ 0x45 ∷ 0x54 ∷ []

abbrev version : List ℕ
version = 0x48 ∷ 0x54 ∷ 0x54 ∷ 0x50 ∷ 0x2f ∷ 0x31 ∷ 0x2e ∷ 0x31 ∷ []

abbrev page : List ℕ
page = 0x3c ∷ 0x70 ∷ 0x3e ∷ []

request-panics_iff_example :
    ((handle_http_request page (request get (uri_of slash_form none) version []) ≡ none)
      ↔ ((slash_form ≡ slash_form) × (◌≡◌ {A = Option (List ℕ)} none none)))
    × IsAnswer page slash_form none
        (handle_http_request page (request get (uri_of slash_form none) version []))
request-panics_iff_example =
    request-panics_iff page get slash_form version [] none (omega arith) (omega arith) (omega arith)
      tt (omega arith)

root_served :
    handle_http_request page (request get slash version []) ≡ some (ok (new page text_html))
unfolding handle_http_request line_end split split_once respond
root_served = refl
