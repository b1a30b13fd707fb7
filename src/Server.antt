-- ===== src/Server.antt =====
-- doc_searcher/http_server/http_server.cc: the start of the server and the handler of `/searcher`.
-- cpp-httplib is an argument: what a request says of its parameters.
pub mod Handler
use boost.Prelude.{
  ℕ, Bool, true, false, not, List, [], ◌∷◌, Option, none, some, if◌then◌else◌, Bytes, codes,
}
use boost.Util.{FileSystem}
use boost.Index.{Weight, Index, Libraries, empty}
use boost.Searcher.{Json, ◌>>=◌, init, search}

-- `httplib::Request`, by the two methods that the handler calls.
pub record Request : Type 0 where
  pub has_param : Bytes → Bool
  pub get_param_value : Bytes → Bytes

-- `httplib::Response`, by what `set_content` sets.
pub record Response : Type 0 where
  pub body : Bytes
  pub content_type : Bytes

abbrev pub set_content : Bytes → Bytes → Response → Response
set_content body content_type resp = record resp { body = body; content_type = content_type }

-- The literal of the message, by the bytes that the source file holds.
abbrev pub bad_parameter : Bytes
bad_parameter =
    0xc7 ∷ 0xeb ∷ 0xc7 ∷ 0xf3 ∷ 0xb2 ∷ 0xce ∷ 0xca ∷ 0xfd ∷ 0xb4 ∷ 0xed ∷ 0xce ∷ 0xf3 ∷ []

abbrev pub raw_input : Bytes
raw_input = codes "../data/tmp/raw_input.txt"

abbrev pub text_plain : Bytes
text_plain = codes "text/plain;charset=utf-8"

abbrev pub application_json : Bytes
application_json = codes "application/json;charset=utf-8"

-- What `main` does behind `Init`: it returns 1, or it listens with the index that the handler uses.
pub data Start : Type 0 where
  exited : ℕ → Start
  listening : Index → Start

unfoldable pub main : Libraries → FileSystem → Start
main lib fs =
    let (index, ret) = init lib fs raw_input empty in if not ret then exited 1 else listening index

-- The handler; `none` is a fault of `Search`.
unfoldable pub handle :
    {Value : Type 0}
    → Json Value
    → Libraries
    → (List Weight → List Weight)
    → Index
    → Request
    → Response
    → Option Response
handle json lib sort index req resp =
    if not (req.has_param (codes "query"))
    then some (set_content bad_parameter text_plain resp)
    else do
      results ← search json lib sort index (req.get_param_value (codes "query"))
      some (set_content results application_json resp)
