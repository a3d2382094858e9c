-- ===== src/Http/Laws.antt =====
-- What `handle_http_request` answers to a well-formed request line.
use stream_os.Base.{
  Result, ◌⊎◌, ℕ, ◌≡◌, ◌≢◌, ◌↔◌, inl, inr, refl, arith, List, [], ◌∷◌, ◌++◌, Option, none, some, ok,
  true, false, ◌>>=◌, length, get_elem?, Bool-cases, take-append_length,
}
use stream_os.Packets.{bytes_eq}
use stream_os.Http.{
  line_end, split, split_once, respond, handle_http_request, slash, slash_form, new, got_form,
  uh_oh, text_html, HttpResponse, IncompleteHttpRequest,
}

-- A list of bytes without some byte.
abbrev pub Without : ℕ → List ℕ → Type 0
Without b [] = Unit
Without b (x ∷ xs) = (x ≢ b) × Without b xs

Without-append : (b : ℕ) (xs ys : List ℕ) → Without b xs → Without b ys → Without b (xs ++ ys)
Without-append b [] ys h k = k
Without-append b (x ∷ xs) ys h k = (h.0, Without-append b xs ys h.1 k)

line_end-crlf :
    (line more : List ℕ)
    → Without 0x0d line
    → line_end (line ++ (0x0d ∷ 0x0a ∷ more)) ≡ some (length line)
unfolding line_end
line_end-crlf [] more h = refl
line_end-crlf (x ∷ []) more h = ground arith
line_end-crlf (x ∷ y ∷ line) more h = ground (arith, line_end-crlf (y ∷ line) more h.1)

split-Without : (b : ℕ) (xs : List ℕ) → Without b xs → split b xs ≡ xs ∷ []
unfolding split
split-Without b [] h = refl
split-Without b (x ∷ xs) h = ground (arith, split-Without b xs h.1)

split-append :
    (b : ℕ) (xs rest : List ℕ) → Without b xs → split b (xs ++ (b ∷ rest)) ≡ xs ∷ split b rest
unfolding split
split-append b [] rest h = ground arith
split-append b (x ∷ xs) rest h = ground (arith, split-append b xs rest h.1)

split_once-none : (b : ℕ) (xs : List ℕ) → Without b xs → split_once b xs ≡ (xs, none)
unfolding split_once
split_once-none b [] h = refl
split_once-none b (x ∷ xs) h = ground (arith, split_once-none b xs h.1)

split_once-some :
    (b : ℕ) (xs rest : List ℕ) → Without b xs → split_once b (xs ++ (b ∷ rest)) ≡ (xs, some rest)
unfolding split_once
split_once-some b [] rest h = ground arith
split_once-some b (x ∷ xs) rest h = ground (arith, split_once-some b xs rest h.1)

abbrev pub uri_of : List ℕ → Option (List ℕ) → List ℕ
uri_of path none = path
uri_of path (some params) = path ++ (0x3f ∷ params)

-- A request line: a method, an address and a version, with what follows its end.
abbrev pub request_line : List ℕ → List ℕ → List ℕ → List ℕ
request_line method uri version = method ++ (0x20 ∷ (uri ++ (0x20 ∷ version)))

abbrev pub request : List ℕ → List ℕ → List ℕ → List ℕ → List ℕ
request method uri version more = request_line method uri version ++ (0x0d ∷ 0x0a ∷ more)

-- Bytes that end neither a word nor the line.
abbrev pub IsWord : List ℕ → Type 0
IsWord xs = Without 0x20 xs × Without 0x0d xs

abbrev pub IsWord? : Option (List ℕ) → Type 0
IsWord? none = Unit
IsWord? (some xs) = IsWord xs

uri-IsWord :
    (path : List ℕ) (params : Option (List ℕ))
    → IsWord path
    → IsWord? params
    → IsWord (uri_of path params)
uri-IsWord path none h k = h
uri-IsWord path (some params) h k = (
  Without-append 0x20 path (0x3f ∷ params) h.0 (omega arith, k.0),
  Without-append 0x0d path (0x3f ∷ params) h.1 (omega arith, k.1),
)

split_once-uri :
    (path : List ℕ) (params : Option (List ℕ))
    → Without 0x3f path
    → split_once 0x3f (uri_of path params) ≡ (path, params)
split_once-uri path none h = split_once-none 0x3f path h
split_once-uri path (some params) h = split_once-some 0x3f path params h

second-word :
    (method uri version : List ℕ)
    → Without 0x20 method
    → Without 0x20 uri
    → get_elem? (split 0x20 (request_line method uri version)) 1 ≡ some uri
second-word method uri version h k =
    rw (split-append 0x20 method (uri ++ (0x20 ∷ version)) h, split-append 0x20 uri version k)

bytes_eq_iff : (xs ys : List ℕ) → (bytes_eq xs ys ≡ true) ↔ (xs ≡ ys)
bytes_eq_iff [] [] = ((λ e. refl), λ e. refl)
bytes_eq_iff [] (y ∷ ys) = ((λ e. cc), λ e. cc)
bytes_eq_iff (x ∷ xs) [] = ((λ e. cc), λ e. cc)
bytes_eq_iff (x ∷ xs) (y ∷ ys) = ground (arith, bytes_eq_iff xs ys)

module _ (index_html : List ℕ) where
  -- The address decides alone.
  pub request-served :
      (method path version more : List ℕ) (params : Option (List ℕ))
      → IsWord method
      → IsWord path
      → Without 0x3f path
      → IsWord? params
      → Without 0x0d version
      → handle_http_request index_html (request method (uri_of path params) version more)
        ≡ (respond index_html path params >>= λ response. some (ok response))
  unfolding handle_http_request
  request-served method path version more params hm hp hq hs hv =
      let uri = uri_of path params in
      let word = uri-IsWord path params hp hs in
      let line = request_line method uri version in
      let inside : Without 0x0d line =
        Without-append 0x0d method (0x20 ∷ (uri ++ (0x20 ∷ version))) hm.1
          (omega arith, Without-append 0x0d uri (0x20 ∷ version) word.1 (omega arith, hv)) in
      rw (
        line_end-crlf line more inside,
        take-append_length (length line) line (0x0d ∷ 0x0a ∷ more) refl,
        second-word method uri version hm.0 word.0,
        split_once-uri path params hq,
      )

  -- What the kernel serves: the included page, the parameters of the form, which panics without any,
  -- and a page of its own for every other path.
  abbrev pub IsAnswer :
      List ℕ → Option (List ℕ) → Option (Result HttpResponse IncompleteHttpRequest) → Type 0
  IsAnswer path params out =
      (path ≡ slash × (out ≡ some (ok (new index_html text_html))))
      ⊎ (path ≡ slash_form × (params ≡ none) × (out ≡ none))
      ⊎ (path ≡ slash_form
          × (text : List ℕ) × (params ≡ some text)
          × (out ≡ some (ok (new (got_form ++ text) text_html))))
      ⊎ (path ≢ slash × path ≢ slash_form × (out ≡ some (ok (new uh_oh text_html))))

  form-IsAnswer :
      (path : List ℕ) (params : Option (List ℕ))
      → path ≡ slash_form
      → IsAnswer path params (
          (params >>= λ text. some (new (got_form ++ text) text_html)) >>= λ response.
          some (ok response))
  form-IsAnswer path none h = inr (inl (h, refl, refl))
  form-IsAnswer path (some text) h = inr (inr (inl (h, text, refl, refl)))

  respond-IsAnswer :
      (path : List ℕ) (params : Option (List ℕ))
      → IsAnswer path params (respond index_html path params >>= λ response. some (ok response))
  unfolding respond
  respond-IsAnswer path params = elim (Bool-cases (bytes_eq path slash)) [
    | inl root ↦ rw root (inl ((bytes_eq_iff path slash).0 root, refl))
    | inr other ↦ rw other (elim (Bool-cases (bytes_eq path slash_form)) [
      | inl form ↦ rw form (form-IsAnswer path params ((bytes_eq_iff path slash_form).0 form))
      | inr unknown ↦ rw unknown (
          inr (
            inr (
              inr (
                (λ e. cc (other, (bytes_eq_iff path slash).1 e)),
                (λ e. cc (unknown, (bytes_eq_iff path slash_form).1 e)),
                refl,
              ))))
    ])
  ]

  form-none :
      (params : Option (List ℕ))
      → ((params >>= λ text. some (new (got_form ++ text) text_html)) ≡ none) ↔ (params ≡ none)
  form-none none = ((λ e. refl), λ e. refl)
  form-none (some params) = ((λ e. cc), λ e. cc)

  respond-none_iff :
      (path : List ℕ) (params : Option (List ℕ))
      → (respond index_html path params ≡ none) ↔ ((path ≡ slash_form) × (params ≡ none))
  unfolding respond
  respond-none_iff path params = elim (Bool-cases (bytes_eq path slash)) [
    | inl root ↦ rw root ((λ e. cc), λ h. absurd (apart h.0 root))
    | inr other ↦ rw other (elim (Bool-cases (bytes_eq path slash_form)) [
      | inl form ↦ rw form (
        (λ e. ((bytes_eq_iff path slash_form).0 form, (form-none params).0 e)),
        (λ h. (form-none params).1 h.1),
      )
      | inr unknown ↦
          rw unknown ((λ e. cc), λ h. absurd (cc (unknown, (bytes_eq_iff path slash_form).1 h.0)))
    ])
  ]
    where
      apart : path ≡ slash_form → bytes_eq path slash ≡ true → ⊥
      apart e h = let k : bytes_eq path slash ≡ false = rw e refl in cc

  -- Let the method, the path and the parameters of a request have no space and no carriage return, its
  -- path no question mark, and its version no carriage return. Whatever follows the line, the request
  -- makes the kernel panic exactly if its path is /form and it has no parameters. Every other one gets
  -- a response: the included page for the path /, the parameters for /form, and the page "Uh oh" for
  -- every other path.
  pub request-panics_iff :
      (method path version more : List ℕ) (params : Option (List ℕ))
      → IsWord method
      → IsWord path
      → Without 0x3f path
      → IsWord? params
      → Without 0x0d version
      → ((handle_http_request index_html (request method (uri_of path params) version more) ≡ none)
          ↔ ((path ≡ slash_form) × (params ≡ none)))
        × IsAnswer path params
            (handle_http_request index_html (request method (uri_of path params) version more))
  request-panics_iff method path version more params hm hp hq hs hv =
      rw (request-served method path version more params hm hp hq hs hv)
        (ground (arith, respond-none_iff path params), respond-IsAnswer path params)
