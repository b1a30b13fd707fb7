-- ===== src/Asio/RequestParser/Accepts.antt =====
-- The parser accepts the text of a request, and gives back its parts.
use boost.Prelude.{◌≡◌, ◌∙◌, Bytes}
use boost.Asio.Request.{no_request}
use boost.Asio.RequestParser.{method_start, expecting_newline_3, is_true, parse}
use boost.Asio.RequestParser.Wire.{Wire, IsWire, print, request_of}
use boost.Asio.RequestParser.StartLine.{
  parse-method_start, parse-uri, parse-http, parse-major_start, parse-minor_start,
}
use boost.Asio.RequestParser.HeaderLines.{parse-print_headers}

-- The parser of the example HTTP server accepts the text of every well-formed request, whatever
-- follows it, reads no byte behind it, and gives back its method, address, version and headers; the
-- version numbers are those of the digits in 32 bits.
pub parse-print :
    (w : Wire) (rest : Bytes)
    → IsWire w
    → parse method_start no_request (print w rest) ≡ record {
      step = record { state = expecting_newline_3; request = request_of w; result = is_true };
      rest = rest;
    }
parse-print w rest h =
    parse-method_start w.method _ _ h.method h.method_ne_nil
    ∙ parse-uri w.uri _ _ h.uri
    ∙ parse-http _ _
    ∙ parse-major_start w.major _ _ h.major h.major_ne_nil
    ∙ parse-minor_start w.minor _ _ h.minor h.minor_ne_nil
    ∙ parse-print_headers w.headers rest _ h.headers
