-- ===== src/Asio/CoroutineParser/HeaderLines.antt =====
-- The coroutine on header lines.
use boost.Prelude.{
  ◌≡◌, ◌≢◌, refl, ◌∙◌, true, false, List, [], ◌∷◌, ◌++◌, Bytes, All, append_assoc, append-nil,
}
use boost.Asio.Request.{Header, Request}
use boost.Asio.RequestParser.{is_char, is_ctl, is_tspecial}
use boost.Asio.RequestParser.Wire.{IsToken, IsText, IsHeader, print_headers}
use boost.Asio.RequestParser.HeaderLines.{with_header, update_back-append}
use boost.Asio.RequestParser.StartLine.{
  token_ne, text_ne, space_stops, colon_stops, return_stops, tab_stops, return_is_ctl,
}
use boost.Asio.CoroutineParser.{
  header_line, header_name, header_space, header_value, newline_2, newline_3, Parser, Cast,
  yield_at, is_token, value_loop, name_loop, headers_loop, wanted, consume, parse,
}
use boost.Asio.CoroutineParser.StartLine.{at, parse-yield, parse-same, token-is_token}

-- A value in the seven-bit characters, which is all that this parser reads.
abbrev pub IsPlainValue : Header → Type 0
IsPlainValue h = All (λ c. is_char c ≡ true) h.value

module _ (cast : Cast) where
  value_of :
      (v rest : Bytes) (req : Request) (p : Parser) (name value : Bytes)
      → All IsText v
      → All (λ c. is_char c ≡ true) v
      → parse cast
          (at cast header_value (with_header req name value) p)
          (v ++ (b'\r' ∷ b'\n' ∷ rest))
        ≡ parse cast (at cast header_line (with_header req name (value ++ v)) p) rest
  unfolding consume value_loop wanted is_char is_ctl
  value_of [] rest req p name value h k =
      let this = with_header req name value in
      parse-yield cast (at cast header_value this p) (at cast newline_2 this p) b'\r' _ refl
      ∙ parse-yield cast (at cast newline_2 this p) (at cast header_line this p) b'\n' rest refl
      ∙ rw append-nil
  value_of (c ∷ v) rest req p name value (t, h) (plain, k) =
      let this = at cast header_value (with_header req name value) p in
      let next = at cast header_value (with_header req name (value ++ c ∷ [])) p in
      let one : consume cast this c ≡ yield_at header_value next =
        rw (plain, t, text_ne b'\r' c return_is_ctl t, update_back-append) refl in
      parse-yield cast this next c _ one
      ∙ value_of v rest req p name (value ++ c ∷ []) h k
      ∙ rw append_assoc

  colon_is_no_token : is_token b':' ≡ false
  unfolding is_char is_ctl is_tspecial
  colon_is_no_token = refl

  name_of :
      (n rest : Bytes) (req : Request) (p : Parser) (name : Bytes)
      → All IsToken n
      → parse cast (at cast header_name (with_header req name []) p) (n ++ (b':' ∷ b' ' ∷ rest))
        ≡ parse cast (at cast header_value (with_header req (name ++ n) []) p) rest
  unfolding consume name_loop wanted
  name_of [] rest req p name h =
      let this = with_header req name [] in
      parse-yield cast (at cast header_name this p) (at cast header_space this p) b':' _
        (rw colon_is_no_token refl)
      ∙ parse-yield cast (at cast header_space this p) (at cast header_value this p) b' ' rest refl
      ∙ rw append-nil
  name_of (c ∷ n) rest req p name (t, h) =
      let this = at cast header_name (with_header req name []) p in
      let next = at cast header_name (with_header req (name ++ c ∷ []) []) p in
      let one : consume cast this c ≡ yield_at header_name next =
        rw (token-is_token cast c t, token_ne b':' c colon_stops t, update_back-append) refl in
      parse-yield cast this next c _ one ∙ name_of n rest req p (name ++ c ∷ []) h ∙ rw append_assoc

  -- A line starts a new header where its first byte is that of a name.
  line_of :
      (n rest : Bytes) (req : Request) (p : Parser)
      → All IsToken n
      → n ≢ []
      → parse cast (at cast header_line req p) (n ++ (b':' ∷ b' ' ∷ rest))
        ≡ parse cast (at cast header_value (with_header req n []) p) rest
  unfolding consume headers_loop
  line_of [] rest req p h ne = absurd (ne refl)
  line_of (c ∷ n) rest req p (t, h) ne =
      let fresh = at cast header_name (with_header req [] []) p in
      let same : consume cast (at cast header_line req p) c ≡ consume cast fresh c =
        rw
          (
            token-is_token cast c t,
            token_ne b'\r' c return_stops t,
            token_ne b' ' c space_stops t,
            token_ne b'\t' c tab_stops t,
          )
          refl in
      parse-same cast (at cast header_line req p) fresh c _ same
      ∙ name_of (c ∷ n) rest req p [] (t, h)

  return_is_no_token : is_token b'\r' ≡ false
  unfolding is_char is_ctl is_tspecial
  return_is_no_token = refl

  pub parse-lines :
      (hs : List Header) (rest : Bytes) (req : Request) (p : Parser)
      → All IsHeader hs
      → All IsPlainValue hs
      → parse cast (at cast header_line req p) (print_headers hs rest)
        ≡ parse cast
            (at cast newline_3 (record req { headers = req.headers ++ hs }) p)
            (b'\n' ∷ rest)
  unfolding consume headers_loop
  parse-lines [] rest req p h k =
      parse-yield cast (at cast header_line req p) (at cast newline_3 req p) b'\r' _
        (rw return_is_no_token refl)
      ∙ rw append-nil
  parse-lines (x ∷ hs) rest req p (here, h) (plain, k) =
      line_of x.name _ req p here.name here.name_ne_nil
      ∙ value_of x.value _ req p x.name [] here.value plain
      ∙ parse-lines hs rest (with_header req x.name x.value) p h k
      ∙ rw append_assoc
