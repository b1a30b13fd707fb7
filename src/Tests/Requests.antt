-- ===== src/Tests/Requests.antt =====
-- The example HTTP server on small requests.
use boost.Prelude.{
  ◌+◌, ◌-◌, ◌*◌, ◌/◌, ◌%◌, ◌≡◌, ◌<◌, refl, ℕ, zero, suc, true, false, Option, List, [], ◌∷◌, ◌++◌,
  none, some, Bytes, codes, All, All-append, arith, ltb, leb, if◌then◌else◌,
}
use boost.Asio.Request.{Request, no_request}
use boost.Asio.RequestParser.{
  method_start, header_line_start, expecting_newline_3, is_true, indeterminate, is_char, is_ctl,
  is_tspecial, is_digit, parse,
}
use boost.Asio.RequestParser.Awaits.{parse-print_cut}
use boost.Asio.RequestParser.Wire.{Wire, IsWire, IsText, IsHeader, print, request_of}
use boost.Asio.RequestParser.Accepts.{parse-print}
use boost.Asio.Reply.{Reply, ok, to_buffer, to_buffers}
use boost.Asio.Reply.OnTheWire.{gather, to_buffers-parse}
use boost.Asio.RequestHandler.{Environment, url_decode, handle_request}
use boost.Asio.RequestHandler.Urls.{hex_digit, ReadsHex, url_encode, url_decode-url_encode}
use boost.Asio.RequestHandler.Files.{handle_request-IsConfined}
use boost.Asio.Connection.{World, start}
use boost.Asio.Connection.Delivery.{deliver, replied, deliver-start}

-- Decimal digits, and hexadecimal ones.
unfoldable pub decimal : (fuel : ℕ) → ℕ → Bytes
decimal zero n = []
decimal (suc fuel) n =
    let front = decimal fuel (n / 10) in (if ltb n 10 then [] else front) ++ (b'0' + n % 10) ∷ []

unfoldable pub hex_value : ℕ → ℕ
hex_value c = if leb c b'9' then c - b'0' else c - b'A' + 10

unfoldable pub read_two : Bytes → Option ℕ
unfolding hex_value
read_two (x ∷ (y ∷ [])) = some (hex_value x * 16 + hex_value y)
read_two _ = none

pub hex_value-hex_digit : (n : ℕ) → n < 16 → hex_value (hex_digit n) ≡ n
unfolding hex_value
hex_value-hex_digit n h = ground arith

read_two-ReadsHex : ReadsHex read_two
unfolding read_two
read_two-ReadsHex c h =
    let high : hex_value (hex_digit (c / 16)) ≡ c / 16 =
      hex_value-hex_digit (c / 16) (omega arith) in
    let low : hex_value (hex_digit (c % 16)) ≡ c % 16 =
      hex_value-hex_digit (c % 16) (omega arith) in
    let whole : c / 16 * 16 + c % 16 ≡ c = omega arith in rw (high, low, whole)

abbrev site : Bytes → Option Bytes
site path = some (codes "hi")

abbrev pub env : Environment
env = record { lexical_cast = decimal 20; read_hex = read_two; open_file = site }

-- "GET / HTTP/1.0" with one header.
abbrev get : Wire
get = record {
  method = codes "GET";
  uri = codes "/";
  major = codes "1";
  minor = codes "0";
  headers = record { name = codes "Host"; value = codes "h" } ∷ [];
}

host-IsHeader : IsHeader (record { name = codes "Host"; value = codes "h" })
unfolding is_char is_ctl is_tspecial
host-IsHeader = record { name = ground arith; name_ne_nil = λ e. cc; value = ground arith }

get-IsWire : IsWire get
unfolding is_char is_ctl is_tspecial is_digit
get-IsWire = record {
  method = ground arith;
  method_ne_nil = λ e. cc;
  uri = ground arith;
  major = ground arith;
  major_ne_nil = λ e. cc;
  minor = ground arith;
  minor_ne_nil = λ e. cc;
  headers = (host-IsHeader, tt);
}

decimal-IsText : (fuel n : ℕ) → All IsText (decimal fuel n)
unfolding decimal is_ctl
decimal-IsText zero n = tt
decimal-IsText (suc fuel) n =
    let last : IsText (b'0' + n % 10) = ground arith in
    let front : All IsText (if ltb n 10 then [] else decimal fuel (n / 10)) =
      ground (arith, decimal-IsText fuel (n / 10)) in
    All-append IsText (if ltb n 10 then [] else decimal fuel (n / 10)) _ front (last, tt)

-- Cut in the header, with a byte behind.
parse-print_cut_example :
    let first = (parse method_start no_request (codes "GET / HTTP/1.0\r\nHo")).step in
    (first.result ≡ indeterminate)
    × (parse first.state first.request (codes "st: h\r\n\r\n" ++ codes "x") ≡ record {
      step = record { state = expecting_newline_3; request = request_of get; result = is_true };
      rest = codes "x";
    })
parse-print_cut_example =
    parse-print_cut get (codes "GET / HTTP/1.0\r\nHo") (codes "st: h\r\n\r\n") (codes "x")
      get-IsWire refl (λ e. cc)

parse-print_example : parse method_start no_request (print get (codes "x")) ≡ record {
  step = record { state = expecting_newline_3; request = request_of get; result = is_true };
  rest = codes "x";
}
parse-print_example = parse-print get (codes "x") get-IsWire

abbrev short_reply : Reply
short_reply = record {
  status = ok;
  headers = record { name = codes "Host"; value = codes "h" } ∷ [];
  content = codes "hi";
}

to_buffers-parse_example :
    (section : Bytes) × (gather (to_buffers short_reply) ≡ to_buffer ok ++ section)
    × (parse header_line_start no_request section ≡ record {
      step = record {
        state = expecting_newline_3;
        request = record no_request { headers = short_reply.headers };
        result = is_true;
      };
      rest = codes "hi";
    })
to_buffers-parse_example = to_buffers-parse short_reply (host-IsHeader, tt)

url_decode-url_encode_example :
    url_decode read_two (url_encode (λ c. leb b'A' c) (codes "/a b%+")) ≡ some (codes "/a b%+")
url_decode-url_encode_example =
    url_decode-url_encode read_two (λ c. leb b'A' c) (codes "/a b%+") read_two-ReadsHex
      (ground arith)

abbrev ask : Request
ask = request_of get

abbrev pub no_reply : Reply
no_reply = record { status = ok; headers = []; content = [] }

handle_request-IsConfined_example :
    handle_request env (codes "/www") ask no_reply
    ≡ handle_request
        (record env { open_file = λ path. some (codes "hi") })
        (codes "/www")
        ask
        no_reply
handle_request-IsConfined_example =
    handle_request-IsConfined env (codes "/www") ask no_reply (λ path. some (codes "hi"))
      (λ path h. refl)

abbrev fresh : World
fresh = record {
  connections = [];
  self = record {
    parser = method_start;
    request = no_request;
    reply = no_reply;
    pending = none;
    is_open = true;
    is_shut_down = false;
  };
}

abbrev pieces : List Bytes
pieces = codes "GET / HT" ∷ codes "TP/1.0\r\nHo" ∷ codes "st: h\r\n\r\n" ∷ []

deliver-start_example :
    deliver env (codes "/www") 7 (start 7 fresh) pieces
    ≡ replied env (codes "/www") 7 (start 7 fresh) expecting_newline_3 (request_of get)
deliver-start_example =
    deliver-start env (codes "/www") 7 fresh get pieces [] get-IsWire refl refl refl
