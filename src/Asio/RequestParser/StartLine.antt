-- ===== src/Asio/RequestParser/StartLine.antt =====
-- The parser on the first line of a request, part by part.
use boost.Prelude.{
  ◌≡◌, ◌≢◌, refl, ◌∙◌, ℕ, true, false, [], ◌∷◌, ◌++◌, ◌==◌, Bytes, All, arith, append_assoc,
  append-nil, Bool-cases, ==_iff, inl, inr,
}
use boost.Asio.Request.{Request}
use boost.Asio.RequestParser.{
  State, method_start, method, uri, http_version_h, http_version_major_start, http_version_major,
  http_version_minor_start, http_version_minor, expecting_newline_1, header_line_start, is_char,
  is_ctl, is_tspecial, is_digit, is_no_token, push_digit, push_method, push_uri, go, consume, parse,
}
use boost.Asio.RequestParser.Wire.{IsToken, IsText, IsUri, IsDigit, number}

-- One byte that leaves more to do.
pub parse-cons :
    (s t : State) (req next : Request) (c : ℕ) (input : Bytes)
    → consume s req c ≡ go t next
    → parse s req (c ∷ input) ≡ parse t next input
unfolding parse
parse-cons s t req next c input e = rw (e, parse) (rw e)

-- A token is none of the bytes that end it.
pub token_ne : (k c : ℕ) → is_no_token k ≡ true → IsToken c → (c == k) ≡ false
token_ne k c stops p = elim (Bool-cases (c == k)) [
  | inl same ↦ let e : c ≡ k = (==_iff c k).0 same in absurd (cc)
  | inr other ↦ other
]

pub text_ne : (k c : ℕ) → is_ctl k ≡ true → IsText c → (c == k) ≡ false
text_ne k c stops p = elim (Bool-cases (c == k)) [
  | inl same ↦ let e : c ≡ k = (==_iff c k).0 same in absurd (cc)
  | inr other ↦ other
]

digit_ne : (k c : ℕ) → is_digit k ≡ false → IsDigit c → (c == k) ≡ false
digit_ne k c stops p = elim (Bool-cases (c == k)) [
  | inl same ↦ let e : c ≡ k = (==_iff c k).0 same in absurd (cc)
  | inr other ↦ other
]

pub space_stops : is_no_token b' ' ≡ true
unfolding is_char is_ctl is_tspecial
space_stops = refl

pub colon_stops : is_no_token b':' ≡ true
unfolding is_char is_ctl is_tspecial
colon_stops = refl

pub return_stops : is_no_token b'\r' ≡ true
unfolding is_char is_ctl is_tspecial
return_stops = refl

pub tab_stops : is_no_token b'\t' ≡ true
unfolding is_char is_ctl is_tspecial
tab_stops = refl

pub return_is_ctl : is_ctl b'\r' ≡ true
unfolding is_ctl
return_is_ctl = refl

dot_is_no_digit : is_digit b'.' ≡ false
unfolding is_digit
dot_is_no_digit = refl

return_is_no_digit : is_digit b'\r' ≡ false
unfolding is_digit
return_is_no_digit = refl

parse-method :
    (m rest : Bytes) (req : Request)
    → All IsToken m
    → parse method req (m ++ (b' ' ∷ rest))
      ≡ parse uri (record req { method = req.method ++ m }) rest
unfolding consume
parse-method [] rest req h = parse-cons method uri req req b' ' rest refl ∙ rw append-nil
parse-method (c ∷ m) rest req (p, h) =
    let one : consume method req c ≡ go method (push_method req c) =
      rw (token_ne b' ' c space_stops p, p) in
    parse-cons method method req (push_method req c) c _ one
    ∙ parse-method m rest (push_method req c) h
    ∙ rw append_assoc

pub parse-method_start :
    (m rest : Bytes) (req : Request)
    → All IsToken m
    → m ≢ []
    → parse method_start req (m ++ (b' ' ∷ rest))
      ≡ parse uri (record req { method = req.method ++ m }) rest
unfolding consume
parse-method_start [] rest req h ne = absurd (ne refl)
parse-method_start (c ∷ m) rest req (p, h) ne =
    let one : consume method_start req c ≡ go method (push_method req c) = rw p in
    parse-cons method_start method req (push_method req c) c _ one
    ∙ parse-method m rest (push_method req c) h
    ∙ rw append_assoc

pub parse-uri :
    (u rest : Bytes) (req : Request)
    → All IsUri u
    → parse uri req (u ++ (b' ' ∷ rest))
      ≡ parse http_version_h (record req { uri = req.uri ++ u }) rest
unfolding consume
parse-uri [] rest req h = parse-cons uri http_version_h req req b' ' rest refl ∙ rw append-nil
parse-uri (c ∷ u) rest req ((p, ne), h) =
    let other : (c == b' ') ≡ false = ground arith in
    let one : consume uri req c ≡ go uri (push_uri req c) = rw (other, p) in
    parse-cons uri uri req (push_uri req c) c _ one
    ∙ parse-uri u rest (push_uri req c) h
    ∙ rw append_assoc

-- "HTTP/", and the two numbers start at 0.
pub parse-http :
    (rest : Bytes) (req : Request)
    → parse http_version_h req (b'H' ∷ b'T' ∷ b'T' ∷ b'P' ∷ b'/' ∷ rest)
      ≡ parse http_version_major_start
          (record req { http_version_major = 0; http_version_minor = 0 })
          rest
unfolding parse consume
parse-http rest req = refl

parse-major :
    (ds rest : Bytes) (req : Request)
    → All IsDigit ds
    → parse http_version_major req (ds ++ (b'.' ∷ rest))
      ≡ parse http_version_minor_start
          (record req { http_version_major = number req.http_version_major ds })
          rest
unfolding consume
parse-major [] rest req h =
    parse-cons http_version_major http_version_minor_start req req b'.' rest refl
parse-major (c ∷ ds) rest req (p, h) =
    let next : Request = record req { http_version_major = push_digit req.http_version_major c } in
    let one : consume http_version_major req c ≡ go http_version_major next =
      rw (digit_ne b'.' c dot_is_no_digit p, p) in
    parse-cons http_version_major http_version_major req next c _ one ∙ parse-major ds rest next h

pub parse-major_start :
    (ds rest : Bytes) (req : Request)
    → All IsDigit ds
    → ds ≢ []
    → parse http_version_major_start req (ds ++ (b'.' ∷ rest))
      ≡ parse http_version_minor_start
          (record req { http_version_major = number req.http_version_major ds })
          rest
unfolding consume
parse-major_start [] rest req h ne = absurd (ne refl)
parse-major_start (c ∷ ds) rest req (p, h) ne =
    let next : Request = record req { http_version_major = push_digit req.http_version_major c } in
    let one : consume http_version_major_start req c ≡ go http_version_major next = rw p in
    parse-cons http_version_major_start http_version_major req next c _ one
    ∙ parse-major ds rest next h

parse-minor :
    (ds rest : Bytes) (req : Request)
    → All IsDigit ds
    → parse http_version_minor req (ds ++ (b'\r' ∷ b'\n' ∷ rest))
      ≡ parse header_line_start
          (record req { http_version_minor = number req.http_version_minor ds })
          rest
unfolding consume
parse-minor [] rest req h =
    parse-cons http_version_minor expecting_newline_1 req req b'\r' _ refl
    ∙ parse-cons expecting_newline_1 header_line_start req req b'\n' rest refl
parse-minor (c ∷ ds) rest req (p, h) =
    let next : Request = record req { http_version_minor = push_digit req.http_version_minor c } in
    let one : consume http_version_minor req c ≡ go http_version_minor next =
      rw (digit_ne b'\r' c return_is_no_digit p, p) in
    parse-cons http_version_minor http_version_minor req next c _ one ∙ parse-minor ds rest next h

pub parse-minor_start :
    (ds rest : Bytes) (req : Request)
    → All IsDigit ds
    → ds ≢ []
    → parse http_version_minor_start req (ds ++ (b'\r' ∷ b'\n' ∷ rest))
      ≡ parse header_line_start
          (record req { http_version_minor = number req.http_version_minor ds })
          rest
unfolding consume
parse-minor_start [] rest req h ne = absurd (ne refl)
parse-minor_start (c ∷ ds) rest req (p, h) ne =
    let next : Request = record req { http_version_minor = push_digit req.http_version_minor c } in
    let one : consume http_version_minor_start req c ≡ go http_version_minor next = rw p in
    parse-cons http_version_minor_start http_version_minor req next c _ one
    ∙ parse-minor ds rest next h
