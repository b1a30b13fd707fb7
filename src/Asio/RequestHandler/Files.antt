-- ===== src/Asio/RequestHandler/Files.antt =====
-- Which files the handler reads, and what it replies.
use boost.Prelude.{
  ◌≡◌, ◌≢◌, ap, ◌∙◌, ◌<◌, ℕ, zero, suc, true, false, Option, [], ◌∷◌, ◌++◌, some, Bytes, codes,
  length, take, drop, take-append-drop, length-drop, append_assoc, append-nil, arith, Bool-cases,
  inl, inr, ◌==◌, ==_iff, find, Option-cases,
}
use boost.Prelude.Find.{find-ne_of_none}
use boost.Asio.Request.{Request}
use boost.Asio.Reply.{Reply, ok, two_headers}
use boost.Asio.MimeTypes.{extension_to_type}
use boost.Asio.RequestHandler.{
  Environment, url_decode, is_allowed, is_absolute, with_index, extension_of, c_str, append_blocks,
  serve, handle_request,
}

append_blocks_lem :
    (fuel : ℕ) (content left : Bytes)
    → length left < fuel
    → append_blocks fuel content left ≡ content ++ left
unfolding append_blocks
append_blocks_lem zero content left h = absurd (omega arith)
append_blocks_lem (suc fuel) content [] h = rw append-nil
append_blocks_lem (suc fuel) content (c ∷ left) h =
    let less : length (drop 512 (c ∷ left)) < fuel = rw length-drop (omega arith) in
    let full : (length (take 512 (c ∷ left)) == 0) ≡ false = ground arith in
    rw (full, append_blocks)
      (append_blocks_lem fuel (content ++ take 512 (c ∷ left)) (drop 512 (c ∷ left)) less
        ∙ append_assoc content (take 512 (c ∷ left)) (drop 512 (c ∷ left))
        ∙ ap (◌++◌ content) (take-append-drop 512 (c ∷ left)))

-- A path that is absolute and in which ".." is nowhere.
pub IsConfined : Bytes → Type 0
IsConfined path =
    ((rest : Bytes) × (path ≡ b'/' ∷ rest)) × ((a b : Bytes) → path ≢ a ++ (codes ".." ++ b))

is_allowed-IsConfined : (path : Bytes) → is_allowed path ≡ true → IsConfined path
unfolding is_allowed IsConfined is_absolute
is_allowed-IsConfined [] h = absurd (cc)
is_allowed-IsConfined (c ∷ path) h = elim (Option-cases (find (codes "..") (c ∷ path))) [
  | inl nowhere ↦
      let absolute : (c == b'/') ≡ true = elim (Bool-cases (c == b'/')) [
        | inl e ↦ e
        | inr e ↦ absurd (ground (arith, rw (e, is_allowed) at h))
      ] in
      (
        (path, ap (λ x. x ∷ path) ((==_iff c b'/').0 absolute)),
        λ a b. find-ne_of_none (codes "..") (c ∷ path) a b nowhere,
      )
  | inr (i, somewhere) ↦ absurd (ground (arith, rw (somewhere, is_allowed) at h))
]

module _ (env : Environment) (doc_root : Bytes) (req : Request) (rep : Reply) where
  -- The reply to a request does not depend on any file but those that the root names with a path
  -- which starts with a slash and holds no "..", and which has index.html added if it ends in a
  -- slash: on two file systems that agree on those names the handler replies alike.
  pub handle_request-IsConfined :
      (open_file : Bytes → Option Bytes)
      → ((path : Bytes)
          → IsConfined path
          → env.open_file (c_str (doc_root ++ with_index path))
            ≡ open_file (c_str (doc_root ++ with_index path)))
      → handle_request env doc_root req rep
        ≡ handle_request (record env { open_file = open_file }) doc_root req rep
  unfolding handle_request serve
  handle_request-IsConfined open_file same = elim (Option-cases (url_decode env.read_hex req.uri)) [
    | inl undecoded ↦ rw (undecoded, handle_request)
    | inr (path, decoded) ↦ elim (Bool-cases (is_allowed path)) [
      | inl allowed ↦
          rw (
            decoded,
            allowed,
            same path (is_allowed-IsConfined path allowed),
            handle_request,
            serve,
          )
      | inr refused ↦ rw (decoded, refused, handle_request)
    ]
  ]

  -- If the address decodes to a path that is allowed and the file that it names under the root
  -- opens, then the reply to the request is ok with the whole contents of the file, read in blocks,
  -- and the headers for its length and the type of its extension. The reply's content is assumed
  -- empty before.
  pub handle_request_found :
      (path bytes : Bytes)
      → url_decode env.read_hex req.uri ≡ some path
      → is_allowed path ≡ true
      → env.open_file (c_str (doc_root ++ with_index path)) ≡ some bytes
      → rep.content ≡ []
      → handle_request env doc_root req rep ≡ record {
        status = ok;
        content = bytes;
        headers =
            two_headers env.lexical_cast bytes (extension_to_type (extension_of (with_index path)));
      }
  unfolding handle_request serve
  handle_request_found path bytes decoded allowed opened fresh =
      let whole : append_blocks (suc (length bytes)) rep.content bytes ≡ bytes =
        append_blocks_lem (suc (length bytes)) rep.content bytes (omega arith) ∙ rw fresh in
      rw (decoded, allowed, opened, whole, handle_request, serve)
