-- ===== src/Asio/CoroutineParser.antt =====
-- doc_searcher/data/input/html/boost_asio/example/http/server4/request_parser.cpp and
-- request_parser.hpp: the parser of HTTP requests with their content, as a coroutine. A point is a
-- place where the coroutine was left by `yield`; places with the same code behind them are one point.
-- The functions on characters are those of http/server, of which server4 has copies.
pub mod Chunks
pub mod StartLine
pub mod HeaderLines
pub mod Accepts
use boost.Prelude.{
  ◌+◌, ◌≡◌, ℕ, Bool, true, false, not, ◌&&◌, ◌||◌, Option, List, [], ◌∷◌, ◌++◌, none, some, ◌==◌,
  leb, ltb, if◌then◌else◌, Bytes, codes, length,
}
use boost.Asio.Request.{Header, Request, no_request}
use boost.Asio.RequestParser.{
  Tribool, is_true, is_false, indeterminate, is_char, is_ctl, is_tspecial, is_digit, push_digit,
  update_back, is_empty, push_method, push_uri, push_name, push_value,
}

pub data Point : Type 0 where
  start method uri http_h http_t_1 http_t_2 http_p http_slash : Point
  major_start major minor_start minor newline_1 : Point
  header_line header_lws header_name header_space header_value newline_2 newline_3 : Point
  content complete : Point

-- The coroutine, `content_length_`, and the request with its content.
pub record Parser : Type 0 where
  pub point : Point
  pub content_length : ℕ
  pub request : Request
  pub content : Bytes

-- `lexical_cast<std::size_t>`, or none where it throws.
abbrev pub Cast : Type 0
Cast = Bytes → Option ℕ

abbrev pub is_nil : Bytes → Bool
is_nil [] = true
is_nil (_ ∷ _) = false

-- `yield return boost::indeterminate` at a point.
abbrev pub yield_at : Point → Parser → Parser × Tribool
yield_at point p = (record p { point = point }, indeterminate)

-- `return false`, and the end: a coroutine that does not yield is complete.
abbrev pub refuse : Parser → Parser × Tribool
refuse p = (record p { point = complete }, is_false)

abbrev pub accept : Parser → Parser × Tribool
accept p = (record p { point = complete }, is_true)

abbrev pub is_token : ℕ → Bool
is_token c = is_char c && not (is_ctl c) && not (is_tspecial c)

-- The request is cleared.
abbrev pub clear : Parser → Parser
clear p = record p { content_length = 0; request = no_request; content = [] }

unfoldable pub method_loop : Parser → ℕ → Parser × Tribool
method_loop p c =
    if is_token c && not (c == b' ')
    then yield_at method (record p { request = push_method p.request c })
    else if is_nil p.request.method
    then refuse p
    else if not (c == b' ')
    then refuse p
    else yield_at uri p

unfoldable pub uri_loop : Parser → ℕ → Parser × Tribool
uri_loop p c =
    if not (is_ctl c) && not (c == b' ')
    then yield_at uri (record p { request = push_uri p.request c })
    else if is_nil p.request.uri
    then refuse p
    else if not (c == b' ')
    then refuse p
    else yield_at http_h p

-- A byte that must come, and the point behind it.
unfoldable pub wanted : ℕ → Point → Parser → ℕ → Parser × Tribool
wanted k next p c = if not (c == k) then refuse p else yield_at next p

abbrev pub push_major : Request → ℕ → Request
push_major req c = record req { http_version_major = push_digit req.http_version_major c }

abbrev pub push_minor : Request → ℕ → Request
push_minor req c = record req { http_version_minor = push_digit req.http_version_minor c }

unfoldable pub major_loop : Parser → ℕ → Parser × Tribool
major_loop p c =
    if is_digit c
    then yield_at major (record p { request = push_major p.request c })
    else if not (c == b'.')
    then refuse p
    else yield_at minor_start p

unfoldable pub minor_loop : Parser → ℕ → Parser × Tribool
minor_loop p c =
    if is_digit c
    then yield_at minor (record p { request = push_minor p.request c })
    else if not (c == b'\r')
    then refuse p
    else yield_at newline_1 p

unfoldable pub value_loop : Parser → ℕ → Parser × Tribool
value_loop p c =
    if is_char c && not (is_ctl c) && not (c == b'\r')
    then yield_at header_value (record p { request = push_value p.request c })
    else if not (c == b'\r')
    then refuse p
    else yield_at newline_2 p

unfoldable pub name_loop : Parser → ℕ → Parser × Tribool
name_loop p c =
    if is_token c && not (c == b':')
    then yield_at header_name (record p { request = push_name p.request c })
    else if not (c == b':')
    then refuse p
    else yield_at header_space p

abbrev pub is_blank : ℕ → Bool
is_blank c = c == b' ' || c == b'\t'

unfoldable pub lws_loop : Parser → ℕ → Parser × Tribool
unfolding value_loop
lws_loop p c = if is_blank c then yield_at header_lws p else value_loop p c

-- `req.headers.push_back(header())`.
abbrev pub push_header : Request → Request
push_header req = record req { headers = req.headers ++ record { name = []; value = [] } ∷ [] }

unfoldable pub headers_loop : Parser → ℕ → Parser × Tribool
unfolding lws_loop name_loop
headers_loop p c =
    if (is_token c && not (c == b'\r')) || is_blank c
    then (if is_blank c
        then (if is_empty p.request.headers then refuse p else lws_loop p c)
        else name_loop (record p { request = push_header p.request }) c)
    else if not (c == b'\r')
    then refuse p
    else yield_at newline_3 p

-- `std::tolower` in the locale "C".
abbrev pub tolower : ℕ → ℕ
tolower c = if leb b'A' c && leb c b'Z' then c + 32 else c

unfoldable pub headers_equal : Bytes → Bytes → Bool
headers_equal [] [] = true
headers_equal [] (_ ∷ _) = false
headers_equal (_ ∷ _) [] = false
headers_equal (a ∷ s) (b ∷ t) = (tolower a == tolower b) && headers_equal s t

abbrev pub content_length_name : Bytes
content_length_name = codes "Content-Length"

-- The loop over the headers, with the length so far, and whether every length is a number.
unfoldable pub find_length : Cast → List Header → ℕ → ℕ × Bool
unfolding headers_equal
find_length cast [] len = (len, true)
find_length cast (h ∷ hs) len = elim (headers_equal h.name content_length_name) [
  | true ↦ elim (cast h.value) [ none ↦ (len, false) | some n ↦ find_length cast hs n ]
  | false ↦ find_length cast hs len
]

-- The test of the loop for the content.
unfoldable pub content_loop : Parser → Parser × Tribool
content_loop p = if ltb (length p.content) p.content_length then yield_at content p else accept p

-- What the headers make of the parser.
abbrev pub sized : Bool → Parser → Parser × Tribool
sized false p = refuse p
sized true p = content_loop p

unfoldable pub end_of_headers : Cast → Parser → ℕ → Parser × Tribool
unfolding find_length content_loop
end_of_headers cast p c =
    if not (c == b'\n')
    then refuse p
    else (let found = find_length cast p.request.headers p.content_length in
        sized found.1 (record p { content_length = found.0 }))

-- `consume`, by the point where the coroutine goes on.
unfoldable pub consume : Cast → Parser → ℕ → Parser × Tribool
unfolding method_loop uri_loop wanted major_loop minor_loop headers_loop lws_loop name_loop
    value_loop end_of_headers content_loop
consume cast p c = elim p.point [
  | start ↦ method_loop (clear p) c
  | method ↦ method_loop p c
  | uri ↦ uri_loop p c
  | http_h ↦ wanted b'H' http_t_1 p c
  | http_t_1 ↦ wanted b'T' http_t_2 p c
  | http_t_2 ↦ wanted b'T' http_p p c
  | http_p ↦ wanted b'P' http_slash p c
  | http_slash ↦ wanted b'/' major_start p c
  | major_start ↦ if not (is_digit c) then refuse p else major_loop p c
  | major ↦ major_loop p c
  | minor_start ↦ if not (is_digit c) then refuse p else minor_loop p c
  | minor ↦ minor_loop p c
  | newline_1 ↦ wanted b'\n' header_line p c
  | header_line ↦ headers_loop p c
  | header_lws ↦ lws_loop p c
  | header_name ↦ name_loop p c
  | header_space ↦ wanted b' ' header_value p c
  | header_value ↦ value_loop p c
  | newline_2 ↦ wanted b'\n' header_line p c
  | newline_3 ↦ end_of_headers cast p c
  | content ↦ content_loop (record p { content = p.content ++ c ∷ [] })
  | complete ↦ accept p
]

-- What `parse` leaves: the parser, the result, and the input behind the iterator.
pub record Parsed : Type 0 where
  pub parser : Parser
  pub result : Tribool
  pub rest : Bytes

unfoldable pub parse : Cast → Parser → Bytes → Parsed
unfolding consume
parse cast p [] = record { parser = p; result = indeterminate; rest = [] }
parse cast p (c ∷ input) =
    let step = consume cast p c in
    elim step.1 [
      | indeterminate ↦ parse cast step.0 input
      | _ ↦ record { parser = step.0; result = step.1; rest = input }
    ]
