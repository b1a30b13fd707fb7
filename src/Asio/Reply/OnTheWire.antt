-- ===== src/Asio/Reply/OnTheWire.antt =====
-- A reply's bytes, read back by the parser of header lines.
use boost.Prelude.{◌≡◌, ap, ℕ, List, [], ◌∷◌, ◌++◌, Bytes, codes, All, append-nil, arith, length}
use boost.Asio.Request.{Header, no_request}
use boost.Asio.RequestParser.{
  expecting_newline_3, header_line_start, is_true, is_char, is_ctl, is_tspecial, parse,
}
use boost.Asio.RequestParser.Wire.{IsText, IsHeader, print_headers}
use boost.Asio.RequestParser.HeaderLines.{parse-print_headers}
use boost.Asio.Reply.{
  StatusType, Reply, to_buffer, to_string, crlf, header_buffers, to_buffers, two_headers,
  stock_reply,
}

-- What `async_write` of a sequence of buffers sends.
abbrev pub gather : List Bytes → Bytes
gather [] = []
gather (b ∷ bs) = b ++ gather bs

gather-header_buffers :
    (hs : List Header) (content : Bytes)
    → gather (header_buffers hs ++ (crlf ∷ content ∷ [])) ≡ print_headers hs content
gather-header_buffers [] content = ap (λ t. b'\r' ∷ b'\n' ∷ t) (append-nil content)
gather-header_buffers (h ∷ hs) content =
    ap (λ t. h.name ++ (b':' ∷ b' ' ∷ (h.value ++ (b'\r' ∷ b'\n' ∷ t))))
      (gather-header_buffers hs content)

-- What the buffers of a reply send is its status line and then a section from which the parser of
-- header lines reads back exactly the reply's headers and leaves exactly its content, if the
-- headers have names of token characters and values with no control characters.
pub to_buffers-parse :
    (rep : Reply)
    → All IsHeader rep.headers
    → (section : Bytes) × (gather (to_buffers rep) ≡ to_buffer rep.status ++ section)
      × (parse header_line_start no_request section ≡ record {
        step = record {
          state = expecting_newline_3;
          request = record no_request { headers = rep.headers };
          result = is_true;
        };
        rest = rep.content;
      })
unfolding to_buffers
to_buffers-parse rep h = (
  print_headers rep.headers rep.content,
  ap (◌++◌ (to_buffer rep.status)) (gather-header_buffers rep.headers rep.content),
  parse-print_headers rep.headers rep.content no_request h,
)

two_headers-IsHeader :
    (lexical_cast : ℕ → Bytes) (content content_type : Bytes)
    → ((n : ℕ) → All IsText (lexical_cast n))
    → All IsText content_type
    → All IsHeader (two_headers lexical_cast content content_type)
unfolding is_char is_ctl is_tspecial
two_headers-IsHeader lexical_cast content content_type h g = (
  record { name = ground arith; name_ne_nil = λ e. cc; value = h (length content) },
  (record { name = ground arith; name_ne_nil = λ e. cc; value = g }, tt),
)

-- What the buffers of a stock reply send is its status line and then a section from which the
-- parser of header lines reads back the two headers and leaves the stock page, if a number is
-- written without control characters.
pub stock_reply-parse :
    (lexical_cast : ℕ → Bytes) (status : StatusType)
    → ((n : ℕ) → All IsText (lexical_cast n))
    → (section : Bytes) × (gather (to_buffers (stock_reply lexical_cast status))
        ≡ to_buffer status ++ section)
      × (parse header_line_start no_request section ≡ record {
        step = record {
          state = expecting_newline_3;
          request = record no_request {
            headers = two_headers lexical_cast (to_string status) (codes "text/html");
          };
          result = is_true;
        };
        rest = to_string status;
      })
unfolding stock_reply is_ctl
stock_reply-parse lexical_cast status h =
    let html : All IsText (codes "text/html") = ground arith in
    to_buffers-parse (stock_reply lexical_cast status)
      (two_headers-IsHeader lexical_cast (to_string status) (codes "text/html") h html)
