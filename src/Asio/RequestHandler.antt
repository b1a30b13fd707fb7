-- ===== src/Asio/RequestHandler.antt =====
-- doc_searcher/data/input/html/boost_asio/example/http/server/request_handler.cpp: the example HTTP
-- server's handler, which serves the files below a root.
pub mod Urls
pub mod Files
use mathlib.Core.Option
use boost.Prelude.{
  ◌+◌, ℕ, zero, suc, Bool, true, false, not, ◌&&◌, ◌||◌, Option, List, [], ◌∷◌, ◌++◌, none, some,
  ◌==◌, ltb, if◌then◌else◌, Bytes, codes, length, take, drop, find,
}
use boost.Asio.Request.{Request}
use boost.Asio.Reply.{Reply, ok, bad_request, not_found, two_headers, stock_reply}
use boost.Asio.MimeTypes.{extension_to_type}

-- What the handler calls. `read_hex` is `is >> std::hex >> value` on a stream of these bytes, and
-- the value as a byte; `open` is the file that a C string names, its bytes or that it does not open.
pub record Environment : Type 0 where
  pub lexical_cast : ℕ → Bytes
  pub read_hex : Bytes → Option ℕ
  pub open_file : Bytes → Option Bytes

abbrev pub unplus : ℕ → ℕ
unplus c = if c == b'+' then b' ' else c

-- `url_decode`; `none` is `false`. The two bytes behind a '%' are its number.
unfoldable pub url_decode : (read_hex : Bytes → Option ℕ) → Bytes → Option Bytes
url_decode read_hex [] = some []
url_decode read_hex (c ∷ []) = if c == b'%' then none else some (unplus c ∷ [])
url_decode read_hex (c ∷ (x ∷ [])) =
    let next = url_decode read_hex (x ∷ []) in
    if c == b'%' then none else Option.map (◌∷◌ (unplus c)) next
url_decode read_hex (c ∷ (x ∷ (y ∷ input))) =
    let next = url_decode read_hex (x ∷ (y ∷ input)) in
    let behind = url_decode read_hex input in
    if c == b'%'
    then Option.bind (read_hex (x ∷ y ∷ [])) (λ value. Option.map (◌∷◌ value) behind)
    else Option.map (◌∷◌ (unplus c)) next

abbrev pub is_none : Option ℕ → Bool
is_none none = true
is_none (some _) = false

-- `request_path[0] == '/'`, of a path that is not empty.
unfoldable pub is_absolute : Bytes → Bool
is_absolute [] = false
is_absolute (c ∷ _) = c == b'/'

-- The path is not empty, is absolute and does not contain "..".
unfoldable pub is_allowed : Bytes → Bool
unfolding find is_absolute
is_allowed path = is_absolute path && is_none (find (codes "..") path)

-- `path[path.size() - 1] == '/'`.
unfoldable pub ends_in_slash : Bytes → Bool
ends_in_slash [] = false
ends_in_slash (c ∷ []) = c == b'/'
ends_in_slash (c ∷ (d ∷ path)) = ends_in_slash (d ∷ path)

unfoldable pub with_index : Bytes → Bytes
unfolding ends_in_slash
with_index path = if ends_in_slash path then path ++ codes "index.html" else path

-- `find_last_of` of one byte.
unfoldable pub find_last_of : ℕ → Bytes → Option ℕ
find_last_of wanted [] = none
find_last_of wanted (c ∷ s) = elim (find_last_of wanted s) [
  | some i ↦ some (suc i)
  | none ↦ if c == wanted then some 0 else none
]

-- The bytes behind the last dot, where it stands behind the last slash; `npos` is larger than every
-- place.
unfoldable pub extension_of : Bytes → Bytes
unfolding find_last_of
extension_of path = elim (find_last_of b'.' path) [
  | none ↦ []
  | some dot ↦ elim (find_last_of b'/' path) [
    | none ↦ []
    | some slash ↦ if ltb slash dot then drop (dot + 1) path else []
  ]
]

-- `c_str()` as a file name: it ends at the first zero byte.
unfoldable pub c_str : Bytes → Bytes
c_str [] = []
c_str (c ∷ s) = if c == 0 then [] else c ∷ c_str s

-- The loop that appends what `read` gets, 512 bytes at a time: the content so far and the bytes that
-- the stream has left.
unfoldable pub append_blocks : (fuel : ℕ) → Bytes → Bytes → Bytes
append_blocks zero content left = content
append_blocks (suc fuel) content left =
    let more = append_blocks fuel (content ++ take 512 left) (drop 512 left) in
    if length (take 512 left) == 0 then content else more

-- The reply for a path that is allowed.
unfoldable pub serve : Environment → (doc_root : Bytes) → Bytes → Reply → Reply
unfolding with_index extension_of extension_to_type c_str append_blocks stock_reply
serve env doc_root request_path rep =
    let path = with_index request_path in
    elim (env.open_file (c_str (doc_root ++ path))) [
      | none ↦ stock_reply env.lexical_cast not_found
      | some bytes ↦
          let content = append_blocks (suc (length bytes)) rep.content bytes in
          record {
            status = ok;
            content = content;
            headers = two_headers env.lexical_cast content (extension_to_type (extension_of path));
          }
    ]

unfoldable pub handle_request : Environment → (doc_root : Bytes) → Request → Reply → Reply
unfolding url_decode is_allowed serve stock_reply
handle_request env doc_root req rep = elim (url_decode env.read_hex req.uri) [
  | none ↦ stock_reply env.lexical_cast bad_request
  | some request_path ↦
      if is_allowed request_path
      then serve env doc_root request_path rep
      else stock_reply env.lexical_cast bad_request
]
