-- ===== src/Asio/RequestParser.antt =====
-- doc_searcher/data/input/html/boost_asio/example/http/server/request_parser.cpp and
-- request_parser.hpp: the byte-wise parser of HTTP requests, a state machine. A `char` is a byte;
-- one of 128 or more is negative where `char` is signed, and then as here neither `is_char` nor
-- `is_ctl`.
pub mod Chunks
pub mod Headers
pub mod Wire
pub mod StartLine
pub mod HeaderLines
pub mod Accepts
pub mod Awaits
pub mod Clean
pub mod Safety
use boost.Prelude.{
  ◌+◌, ◌-◌, ◌*◌, ◌%◌, ◌^◌, ℕ, Bool, true, false, not, ◌&&◌, ◌||◌, List, [], ◌∷◌, ◌++◌, ◌==◌, leb,
  if◌then◌else◌, Bytes,
}
use boost.Asio.Request.{Header, Request}

-- `enum state`.
pub data State : Type 0 where
  method_start method uri : State
  http_version_h http_version_t_1 http_version_t_2 http_version_p http_version_slash : State
  http_version_major_start http_version_major http_version_minor_start http_version_minor : State
  expecting_newline_1 header_line_start header_lws header_name : State
  space_before_header_value header_value expecting_newline_2 expecting_newline_3 : State

-- `boost::tribool`.
pub data Tribool : Type 0 where
  is_true is_false indeterminate : Tribool

-- The parser's state, the request and the result behind one call of `consume`.
pub record Step : Type 0 where
  pub state : State
  pub request : Request
  pub result : Tribool

unfoldable pub is_char : ℕ → Bool
is_char c = leb c 127

unfoldable pub is_ctl : ℕ → Bool
is_ctl c = leb c 31 || c == 127

unfoldable pub is_tspecial : ℕ → Bool
is_tspecial c =
    c == b'('
    || c == b')'
    || c == b'<'
    || c == b'>'
    || c == b'@'
    || c == b','
    || c == b';'
    || c == b':'
    || c == b'\\'
    || c == b'"'
    || c == b'/'
    || c == b'['
    || c == b']'
    || c == b'?'
    || c == b'='
    || c == b'{'
    || c == b'}'
    || c == b' '
    || c == b'\t'

unfoldable pub is_digit : ℕ → Bool
is_digit c = leb b'0' c && leb c b'9'

-- `!is_char(input) || is_ctl(input) || is_tspecial(input)`.
abbrev pub is_no_token : ℕ → Bool
is_no_token c = not (is_char c) || is_ctl c || is_tspecial c

-- `return boost::indeterminate` in a state, and `return false`, which leaves the state.
abbrev pub go : State → Request → Step
go s req = record { state = s; request = req; result = indeterminate }

abbrev pub refuse : State → Request → Step
refuse s req = record { state = s; request = req; result = is_false }

-- `v * 10 + input - '0'` in 32 bits.
abbrev pub push_digit : ℕ → ℕ → ℕ
push_digit v c = (v * 10 + c - b'0') % 2 ^ 32

-- `headers.back()` changed; there is no last element of an empty vector.
unfoldable pub update_back : (Header → Header) → List Header → List Header
update_back f [] = []
update_back f (h ∷ []) = f h ∷ []
update_back f (h ∷ (k ∷ hs)) = h ∷ update_back f (k ∷ hs)

abbrev pub push_method : Request → ℕ → Request
push_method req c = record req { method = req.method ++ c ∷ [] }

abbrev pub push_uri : Request → ℕ → Request
push_uri req c = record req { uri = req.uri ++ c ∷ [] }

abbrev pub push_name : Request → ℕ → Request
push_name req c = record req {
  headers = update_back (λ h. record h { name = h.name ++ c ∷ [] }) req.headers;
}

abbrev pub push_value : Request → ℕ → Request
push_value req c = record req {
  headers = update_back (λ h. record h { value = h.value ++ c ∷ [] }) req.headers;
}

-- `headers.push_back(header())`, and the first byte of its name.
abbrev pub new_header : Request → ℕ → Request
new_header req c = record req {
  headers = req.headers ++ (record { name = c ∷ []; value = [] }) ∷ [];
}

abbrev pub is_empty : List Header → Bool
is_empty [] = true
is_empty (_ ∷ _) = false

consume_method_start : Request → ℕ → Step
consume_method_start req c =
    if is_no_token c then refuse method_start req else go method (push_method req c)

consume_method : Request → ℕ → Step
consume_method req c =
    if c == b' '
    then go uri req
    else if is_no_token c
    then refuse method req
    else go method (push_method req c)

consume_uri : Request → ℕ → Step
consume_uri req c =
    if c == b' '
    then go http_version_h req
    else if is_ctl c
    then refuse uri req
    else go uri (push_uri req c)

-- A state that one byte only leaves.
expect : ℕ → State → State → Request → ℕ → Step
expect wanted here next req c = if c == wanted then go next req else refuse here req

consume_http_version_slash : Request → ℕ → Step
consume_http_version_slash req c =
    if c == b'/'
    then go http_version_major_start (record req { http_version_major = 0; http_version_minor = 0 })
    else refuse http_version_slash req

consume_http_version_major_start : Request → ℕ → Step
consume_http_version_major_start req c =
    if is_digit c
    then go http_version_major
        (record req { http_version_major = push_digit req.http_version_major c })
    else refuse http_version_major_start req

consume_http_version_major : Request → ℕ → Step
consume_http_version_major req c =
    if c == b'.'
    then go http_version_minor_start req
    else if is_digit c
    then go http_version_major
        (record req { http_version_major = push_digit req.http_version_major c })
    else refuse http_version_major req

consume_http_version_minor_start : Request → ℕ → Step
consume_http_version_minor_start req c =
    if is_digit c
    then go http_version_minor
        (record req { http_version_minor = push_digit req.http_version_minor c })
    else refuse http_version_minor_start req

consume_http_version_minor : Request → ℕ → Step
consume_http_version_minor req c =
    if c == b'\r'
    then go expecting_newline_1 req
    else if is_digit c
    then go http_version_minor
        (record req { http_version_minor = push_digit req.http_version_minor c })
    else refuse http_version_minor req

consume_header_line_start : Request → ℕ → Step
consume_header_line_start req c =
    if c == b'\r'
    then go expecting_newline_3 req
    else if not (is_empty req.headers) && (c == b' ' || c == b'\t')
    then go header_lws req
    else if is_no_token c
    then refuse header_line_start req
    else go header_name (new_header req c)

consume_header_lws : Request → ℕ → Step
consume_header_lws req c =
    if c == b'\r'
    then go expecting_newline_2 req
    else if c == b' ' || c == b'\t'
    then go header_lws req
    else if is_ctl c
    then refuse header_lws req
    else go header_value (push_value req c)

consume_header_name : Request → ℕ → Step
consume_header_name req c =
    if c == b':'
    then go space_before_header_value req
    else if is_no_token c
    then refuse header_name req
    else go header_name (push_name req c)

consume_header_value : Request → ℕ → Step
consume_header_value req c =
    if c == b'\r'
    then go expecting_newline_2 req
    else if is_ctl c
    then refuse header_value req
    else go header_value (push_value req c)

-- `return (input == '\n')`.
consume_expecting_newline_3 : Request → ℕ → Step
consume_expecting_newline_3 req c = record {
  state = expecting_newline_3;
  request = req;
  result = if c == b'\n' then is_true else is_false;
}

-- `consume`, by the state.
unfoldable pub consume : State → Request → ℕ → Step
unfolding consume_method_start consume_method consume_uri expect consume_http_version_slash
    consume_http_version_major_start consume_http_version_major consume_http_version_minor_start
    consume_http_version_minor consume_header_line_start consume_header_lws consume_header_name
    consume_header_value consume_expecting_newline_3
consume method_start = consume_method_start
consume method = consume_method
consume uri = consume_uri
consume http_version_h = expect b'H' http_version_h http_version_t_1
consume http_version_t_1 = expect b'T' http_version_t_1 http_version_t_2
consume http_version_t_2 = expect b'T' http_version_t_2 http_version_p
consume http_version_p = expect b'P' http_version_p http_version_slash
consume http_version_slash = consume_http_version_slash
consume http_version_major_start = consume_http_version_major_start
consume http_version_major = consume_http_version_major
consume http_version_minor_start = consume_http_version_minor_start
consume http_version_minor = consume_http_version_minor
consume expecting_newline_1 = expect b'\n' expecting_newline_1 header_line_start
consume header_line_start = consume_header_line_start
consume header_lws = consume_header_lws
consume header_name = consume_header_name
consume space_before_header_value = expect b' ' space_before_header_value header_value
consume header_value = consume_header_value
consume expecting_newline_2 = expect b'\n' expecting_newline_2 header_line_start
consume expecting_newline_3 = consume_expecting_newline_3

-- What `parse` leaves: the parser and the request, the result, and the input behind the iterator.
pub record Parsed : Type 0 where
  pub step : Step
  pub rest : Bytes

-- The loop of `parse` over a buffer.
unfoldable pub parse : State → Request → Bytes → Parsed
parse s req [] = record { step = go s req; rest = [] }
parse s req (c ∷ input) =
    let step = consume s req c in
    elim step.result [
      | indeterminate ↦ parse step.state step.request input
      | _ ↦ record { step = step; rest = input }
    ]
