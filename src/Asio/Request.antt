-- ===== src/Asio/Request.antt =====
-- doc_searcher/data/input/html/boost_asio/example/http/server/header.hpp and request.hpp: what the
-- example HTTP server of the documentation corpus knows of a request.
use boost.Prelude.{ℕ, List, [], Bytes}

pub record Header : Type 0 where
  pub name : Bytes
  pub value : Bytes

-- The two version numbers are `int`: they are kept as 32-bit patterns.
pub record Request : Type 0 where
  pub method : Bytes
  pub uri : Bytes
  pub http_version_major : ℕ
  pub http_version_minor : ℕ
  pub headers : List Header

abbrev pub no_request : Request
no_request = record {
  method = [];
  uri = [];
  http_version_major = 0;
  http_version_minor = 0;
  headers = [];
}
