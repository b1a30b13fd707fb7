-- ===== src/Tests/Coroutine.antt =====
-- The coroutine parser on a request with two bytes of content.
use boost.Prelude.{◌≡◌, refl, true, [], ◌∷◌, ◌++◌, some, codes, arith}
use boost.Asio.Request.{Header, no_request}
use boost.Asio.RequestParser.{is_true, is_char, is_ctl, is_tspecial, is_digit}
use boost.Asio.RequestParser.Wire.{Wire, IsWire, IsHeader, print, request_of, number}
use boost.Asio.CoroutineParser.{Cast, Parser, start, complete, find_length, headers_equal, parse}
use boost.Asio.CoroutineParser.HeaderLines.{IsPlainValue}
use boost.Asio.CoroutineParser.Accepts.{parse-print_content}

abbrev pub cast : Cast
cast s = some (number 0 s)

abbrev pub two_bytes : Header
two_bytes = record { name = codes "content-length"; value = codes "2" }

abbrev pub post : Wire
post = record {
  method = codes "POST";
  uri = codes "/";
  major = codes "1";
  minor = codes "0";
  headers = two_bytes ∷ [];
}

two_bytes-IsHeader : IsHeader two_bytes
unfolding is_char is_ctl is_tspecial
two_bytes-IsHeader = record { name = ground arith; name_ne_nil = λ e. cc; value = ground arith }

pub post-IsWire : IsWire post
unfolding is_char is_ctl is_tspecial is_digit
post-IsWire = record {
  method = ground arith;
  method_ne_nil = λ e. cc;
  uri = ground arith;
  major = ground arith;
  major_ne_nil = λ e. cc;
  minor = ground arith;
  minor_ne_nil = λ e. cc;
  headers = (two_bytes-IsHeader, tt);
}

pub two_bytes-IsPlainValue : IsPlainValue two_bytes
unfolding is_char
two_bytes-IsPlainValue = ground arith

pub two-find_length : find_length cast (two_bytes ∷ []) 0 ≡ (2, true)
unfolding find_length headers_equal
two-find_length = refl

-- A parser that has parsed something before, whose point is the first one again.
abbrev pub used_parser : Parser
used_parser = record {
  point = start;
  content_length = 9;
  request = no_request;
  content = codes "old";
}

parse-print_content_example :
    parse cast used_parser (print post (codes "hi" ++ codes "x")) ≡ record {
      parser = record {
        point = complete;
        content_length = 2;
        request = request_of post;
        content = codes "hi";
      };
      result = is_true;
      rest = codes "x";
    }
parse-print_content_example =
    parse-print_content cast post (codes "hi") (codes "x") used_parser refl post-IsWire (λ e. cc)
      (two_bytes-IsPlainValue, tt) two-find_length
