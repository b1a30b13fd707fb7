-- ===== src/Asio/RequestParser/HeaderLines.antt =====
-- The parser on the header lines of a request.
use boost.Prelude.{
  ◌≡◌, ◌≢◌, refl, ap, ◌∙◌, Bool, true, false, not, ◌&&◌, ◌||◌, List, [], ◌∷◌, ◌++◌, ◌==◌, Bytes,
  All, append_assoc, append-nil,
}
use boost.Asio.Request.{Header, Request}
use boost.Asio.RequestParser.{
  header_line_start, header_name, space_before_header_value, header_value, expecting_newline_2,
  expecting_newline_3, is_true, is_empty, go, update_back, consume, parse,
}
use boost.Asio.RequestParser.Wire.{IsToken, IsText, IsHeader, print_headers}
use boost.Asio.RequestParser.StartLine.{
  parse-cons, token_ne, text_ne, space_stops, colon_stops, return_stops, tab_stops, return_is_ctl,
}

-- The request with one more header.
abbrev pub with_header : Request → Bytes → Bytes → Request
with_header req name value = record req {
  headers = req.headers ++ (record { name = name; value = value }) ∷ [];
}

pub update_back-append :
    (f : Header → Header) (hs : List Header) (h : Header)
    → update_back f (hs ++ h ∷ []) ≡ hs ++ f h ∷ []
unfolding update_back
update_back-append f [] h = refl
update_back-append f (x ∷ []) h = refl
update_back-append f (x ∷ (y ∷ hs)) h = ap (◌∷◌ x) (update_back-append f (y ∷ hs) h)

parse-header_value :
    (v rest : Bytes) (req : Request) (name value : Bytes)
    → All IsText v
    → parse header_value (with_header req name value) (v ++ (b'\r' ∷ b'\n' ∷ rest))
      ≡ parse header_line_start (with_header req name (value ++ v)) rest
unfolding consume
parse-header_value [] rest req name value h =
    let this = with_header req name value in
    parse-cons header_value expecting_newline_2 this this b'\r' _ refl
    ∙ parse-cons expecting_newline_2 header_line_start this this b'\n' rest refl
    ∙ rw append-nil
parse-header_value (c ∷ v) rest req name value (p, h) =
    let next = with_header req name (value ++ c ∷ []) in
    let one : consume header_value (with_header req name value) c ≡ go header_value next =
      rw (text_ne b'\r' c return_is_ctl p, p, update_back-append) in
    parse-cons header_value header_value _ next c _ one
    ∙ parse-header_value v rest req name (value ++ c ∷ []) h
    ∙ rw append_assoc

parse-header_name :
    (n rest : Bytes) (req : Request) (name : Bytes)
    → All IsToken n
    → parse header_name (with_header req name []) (n ++ (b':' ∷ b' ' ∷ rest))
      ≡ parse header_value (with_header req (name ++ n) []) rest
unfolding consume
parse-header_name [] rest req name h =
    let this = with_header req name [] in
    parse-cons header_name space_before_header_value this this b':' _ refl
    ∙ parse-cons space_before_header_value header_value this this b' ' rest refl
    ∙ rw append-nil
parse-header_name (c ∷ n) rest req name (p, h) =
    let next = with_header req (name ++ c ∷ []) [] in
    let one : consume header_name (with_header req name []) c ≡ go header_name next =
      rw (token_ne b':' c colon_stops p, p, update_back-append) in
    parse-cons header_name header_name _ next c _ one
    ∙ parse-header_name n rest req (name ++ c ∷ []) h
    ∙ rw append_assoc

not-and_false : (b : Bool) → (b && (false || false)) ≡ false
not-and_false true = refl
not-and_false false = refl

-- The first byte of a name: the state in front of a header, whatever headers came before.
parse-header_start :
    (n rest : Bytes) (req : Request)
    → All IsToken n
    → n ≢ []
    → parse header_line_start req (n ++ (b':' ∷ b' ' ∷ rest))
      ≡ parse header_value (with_header req n []) rest
unfolding consume
parse-header_start [] rest req h ne = absurd (ne refl)
parse-header_start (c ∷ n) rest req (p, h) ne =
    let next = with_header req (c ∷ []) [] in
    let no_fold : (not (is_empty req.headers) && (c == b' ' || c == b'\t')) ≡ false =
      rw (token_ne b' ' c space_stops p, token_ne b'\t' c tab_stops p) (not-and_false _) in
    let one : consume header_line_start req c ≡ go header_name next =
      rw (token_ne b'\r' c return_stops p, no_fold, p) in
    parse-cons header_line_start header_name req next c _ one
    ∙ parse-header_name n rest req (c ∷ []) h

-- All header lines, and the empty line behind them.
pub parse-print_headers :
    (hs : List Header) (rest : Bytes) (req : Request)
    → All IsHeader hs
    → parse header_line_start req (print_headers hs rest) ≡ record {
      step = record {
        state = expecting_newline_3;
        request = record req { headers = req.headers ++ hs };
        result = is_true;
      };
      rest = rest;
    }
unfolding parse consume
parse-print_headers [] rest req h = rw append-nil
parse-print_headers (k ∷ hs) rest req (p, h) =
    parse-header_start k.name _ req p.name p.name_ne_nil
    ∙ parse-header_value k.value _ req k.name [] p.value
    ∙ parse-print_headers hs rest (with_header req k.name k.value) h
    ∙ rw append_assoc
