-- ===== src/Http.antt =====
-- src/main.rs, `handle_http_request`: the bytes of a request, and the response to it.
use stream_os.Base.{
  ℕ, zero, suc, List, [], ◌∷◌, ◌++◌, Option, none, some, Result, ok, err, Bool, true, false, ◌==◌,
  ◌&&◌, if◌then◌else◌, ◌>>=◌, length, take, get_elem?,
}
use mathlib.Core.Option
use stream_os.Packets.{bytes_eq}
pub mod Laws

pub data IncompleteHttpRequest : Type 0 where
  incomplete : IncompleteHttpRequest

-- The headers are given as their values; the third one is fixed.
pub record HttpResponse : Type 0 where
  pub content_length : ℕ
  pub content_type : List ℕ
  pub body : List ℕ

abbrev pub text_html : List ℕ
text_html = 0x74 ∷ 0x65 ∷ 0x78 ∷ 0x74 ∷ 0x2f ∷ 0x68 ∷ 0x74 ∷ 0x6d ∷ 0x6c ∷ []

abbrev pub new : List ℕ → List ℕ → HttpResponse
new body content_type = record {
  content_length = length body;
  content_type = content_type;
  body = body;
}

-- `windows(2).position(..)` for a line's end.
unfoldable pub line_end : List ℕ → Option ℕ
line_end [] = none
line_end (x ∷ []) = none
line_end (x ∷ y ∷ rest) =
    let later = Option.map suc (line_end (y ∷ rest)) in
    if (x == 0x0d) && (y == 0x0a) then some zero else later

abbrev pub cons_first : ℕ → List (List ℕ) → List (List ℕ)
cons_first x [] = (x ∷ []) ∷ []
cons_first x (part ∷ parts) = (x ∷ part) ∷ parts

-- `split`.
unfoldable pub split : ℕ → List ℕ → List (List ℕ)
split b [] = [] ∷ []
split b (x ∷ xs) = let parts = split b xs in if x == b then [] ∷ parts else cons_first x parts

-- The two items of `splitn(2, ..)`.
unfoldable pub split_once : ℕ → List ℕ → List ℕ × Option (List ℕ)
split_once b [] = ([], none)
split_once b (x ∷ xs) =
    let (first, second) = split_once b xs in if x == b then ([], some xs) else (x ∷ first, second)

abbrev pub slash : List ℕ
slash = 0x2f ∷ []

abbrev pub slash_form : List ℕ
slash_form = 0x2f ∷ 0x66 ∷ 0x6f ∷ 0x72 ∷ 0x6d ∷ []

-- "Got form request with params: " and "Uh oh".
abbrev pub got_form : List ℕ
got_form =
    0x47 ∷ 0x6f ∷ 0x74 ∷ 0x20 ∷ 0x66 ∷ 0x6f ∷ 0x72 ∷ 0x6d ∷ 0x20 ∷ 0x72 ∷ 0x65 ∷ 0x71 ∷ 0x75 ∷ 0x65
    ∷ 0x73 ∷ 0x74 ∷ 0x20 ∷ 0x77 ∷ 0x69 ∷ 0x74 ∷ 0x68 ∷ 0x20 ∷ 0x70 ∷ 0x61 ∷ 0x72 ∷ 0x61 ∷ 0x6d
    ∷ 0x73 ∷ 0x3a ∷ 0x20 ∷ []

abbrev pub uh_oh : List ℕ
uh_oh = 0x55 ∷ 0x68 ∷ 0x20 ∷ 0x6f ∷ 0x68 ∷ []

-- The text of the included file is a parameter. `none` is a panic.
module _ (index_html : List ℕ) where
  unfoldable pub respond : List ℕ → Option (List ℕ) → Option HttpResponse
  respond path params =
      let form = params >>= λ text. some (new (got_form ++ text) text_html) in
      if bytes_eq path slash
      then some (new index_html text_html)
      else if bytes_eq path slash_form
      then form
      else some (new uh_oh text_html)

  abbrev pub after_uri : Option (List ℕ) → Option (Result HttpResponse IncompleteHttpRequest)
  after_uri none = some (err incomplete)
  after_uri (some uri) =
      let (path, params) = split_once 0x3f uri in
      respond path params >>= λ response. some (ok response)

  abbrev pub after_line : Option ℕ → List ℕ → Option (Result HttpResponse IncompleteHttpRequest)
  after_line none bytes = some (err incomplete)
  after_line (some first_line_end) bytes =
      after_uri (get_elem? (split 0x20 (take first_line_end bytes)) 1)

  unfoldable pub handle_http_request : List ℕ → Option (Result HttpResponse IncompleteHttpRequest)
  handle_http_request bytes = after_line (line_end bytes) bytes
