-- ===== src/Asio/CoroutineParser/StartLine.antt =====
-- The coroutine on the first line of a request.
use boost.Prelude.{
  ◌≡◌, ◌≢◌, refl, ap, ◌∙◌, ℕ, true, false, [], ◌∷◌, ◌++◌, ◌==◌, Bytes, All, arith, append_assoc,
  append-nil,
}
use boost.Asio.Request.{Request}
use boost.Asio.RequestParser.{
  is_true, is_false, indeterminate, is_char, is_ctl, is_tspecial, is_digit, push_method, push_uri,
}
use boost.Asio.RequestParser.Wire.{IsToken, IsUri, IsDigit, number}
use boost.Asio.RequestParser.StartLine.{token_ne, space_stops}
use boost.Asio.CoroutineParser.{
  Point, start, method, uri, http_h, major_start, major, minor_start, minor, newline_1, header_line,
  Parser, Cast, is_nil, yield_at, is_token, clear, method_loop, uri_loop, wanted, push_major,
  push_minor, major_loop, minor_loop, consume, parse, Parsed,
}

module _ (cast : Cast) where
  -- One byte behind which the coroutine yields.
  pub parse-yield :
      (p q : Parser) (c : ℕ) (input : Bytes)
      → consume cast p c ≡ (q, indeterminate)
      → parse cast p (c ∷ input) ≡ parse cast q input
  unfolding parse
  parse-yield p q c input e = rw (e, parse) (rw e)

  -- Two parsers that do the same with the next byte.
  pub parse-same :
      (p q : Parser) (c : ℕ) (input : Bytes)
      → consume cast p c ≡ consume cast q c
      → parse cast p (c ∷ input) ≡ parse cast q (c ∷ input)
  unfolding parse
  parse-same p q c input e =
      ap
        (λ step. elim step.1 as (λ r. Parsed) [
          | is_true ↦ record { parser = step.0; result = step.1; rest = input }
          | is_false ↦ record { parser = step.0; result = step.1; rest = input }
          | indeterminate ↦ parse cast step.0 input
        ])
        e

  pub token-is_token : (c : ℕ) → IsToken c → is_token c ≡ true
  token-is_token c h = ground arith

  pub is_nil-false : (s : Bytes) → s ≢ [] → is_nil s ≡ false
  is_nil-false [] ne = absurd (ne refl)
  is_nil-false (c ∷ s) ne = refl

  -- The parser at a point, with a request.
  abbrev pub at : Point → Request → Parser → Parser
  at point req p = record p { point = point; request = req }

  space_is_no_token : is_token b' ' ≡ false
  unfolding is_char is_ctl is_tspecial
  space_is_no_token = refl

  parse-method :
      (m rest : Bytes) (req : Request) (p : Parser)
      → All IsToken m
      → req.method ++ m ≢ []
      → parse cast (at method req p) (m ++ (b' ' ∷ rest))
        ≡ parse cast (at uri (record req { method = req.method ++ m }) p) rest
  unfolding consume method_loop
  parse-method [] rest req p h ne =
      let some_method : is_nil req.method ≡ false =
        is_nil-false req.method (λ e. ne (append-nil req.method ∙ e)) in
      let one : consume cast (at method req p) b' ' ≡ yield_at uri (at method req p) =
        rw (space_is_no_token, some_method) refl in
      parse-yield (at method req p) (at uri req p) b' ' rest one ∙ rw append-nil
  parse-method (c ∷ m) rest req p (t, h) ne =
      let one : consume cast (at method req p) c
          ≡ yield_at method (at method (push_method req c) p) =
        rw (token-is_token c t, token_ne b' ' c space_stops t) refl in
      parse-yield (at method req p) (at method (push_method req c) p) c _ one
      ∙ parse-method m rest (push_method req c) p h (rw append_assoc ne)
      ∙ rw append_assoc

  -- The first byte is read as any other of the method, once the request is cleared.
  pub parse-start :
      (m rest : Bytes) (p : Parser)
      → p.point ≡ start
      → All IsToken m
      → m ≢ []
      → parse cast p (m ++ (b' ' ∷ rest))
        ≡ parse cast (at uri (record (clear p).request { method = m }) (clear p)) rest
  unfolding consume
  parse-start [] rest p e h ne = absurd (ne refl)
  parse-start (c ∷ m) rest p e (t, h) ne =
      let same : consume cast p c ≡ consume cast (at method (clear p).request (clear p)) c =
        rw (e, consume) refl in
      parse-same p (at method (clear p).request (clear p)) c _ same
      ∙ (parse-method (c ∷ m) rest (clear p).request (clear p) (t, h) ne)

  pub parse-uri :
      (u rest : Bytes) (req : Request) (p : Parser)
      → All IsUri u
      → req.uri ++ u ≢ []
      → parse cast (at uri req p) (u ++ (b' ' ∷ rest))
        ≡ parse cast (at http_h (record req { uri = req.uri ++ u }) p) rest
  unfolding consume uri_loop is_ctl
  parse-uri [] rest req p h ne =
      let some_uri : is_nil req.uri ≡ false =
        is_nil-false req.uri (λ e. ne (append-nil req.uri ∙ e)) in
      let one : consume cast (at uri req p) b' ' ≡ yield_at http_h (at uri req p) =
        rw some_uri refl in
      parse-yield (at uri req p) (at http_h req p) b' ' rest one ∙ rw append-nil
  parse-uri (c ∷ u) rest req p ((t, other), h) ne =
      let no_space : (c == b' ') ≡ false = ground arith in
      let one : consume cast (at uri req p) c ≡ yield_at uri (at uri (push_uri req c) p) =
        rw (t, no_space) refl in
      parse-yield (at uri req p) (at uri (push_uri req c) p) c _ one
      ∙ parse-uri u rest (push_uri req c) p h (rw append_assoc ne)
      ∙ rw append_assoc

  pub parse-http :
      (rest : Bytes) (req : Request) (p : Parser)
      → parse cast (at http_h req p) (b'H' ∷ b'T' ∷ b'T' ∷ b'P' ∷ b'/' ∷ rest)
        ≡ parse cast (at major_start req p) rest
  unfolding parse consume wanted
  parse-http rest req p = refl

  parse-major :
      (ds rest : Bytes) (req : Request) (p : Parser)
      → All IsDigit ds
      → parse cast (at major req p) (ds ++ (b'.' ∷ rest))
        ≡ parse cast
            (at minor_start
              (record req { http_version_major = number req.http_version_major ds })
              p)
            rest
  unfolding consume major_loop is_digit
  parse-major [] rest req p h = parse-yield (at major req p) (at minor_start req p) b'.' rest refl
  parse-major (c ∷ ds) rest req p (d, h) =
      let one : consume cast (at major req p) c ≡ yield_at major (at major (push_major req c) p) =
        rw d refl in
      parse-yield (at major req p) (at major (push_major req c) p) c _ one
      ∙ parse-major ds rest (push_major req c) p h

  pub parse-major_start :
      (ds rest : Bytes) (req : Request) (p : Parser)
      → All IsDigit ds
      → ds ≢ []
      → parse cast (at major_start req p) (ds ++ (b'.' ∷ rest))
        ≡ parse cast
            (at minor_start
              (record req { http_version_major = number req.http_version_major ds })
              p)
            rest
  unfolding consume
  parse-major_start [] rest req p h ne = absurd (ne refl)
  parse-major_start (c ∷ ds) rest req p (d, h) ne =
      let same : consume cast (at major_start req p) c ≡ consume cast (at major req p) c =
        rw d refl in
      parse-same (at major_start req p) (at major req p) c _ same
      ∙ parse-major (c ∷ ds) rest req p (d, h)

  parse-minor :
      (ds rest : Bytes) (req : Request) (p : Parser)
      → All IsDigit ds
      → parse cast (at minor req p) (ds ++ (b'\r' ∷ b'\n' ∷ rest))
        ≡ parse cast
            (at header_line
              (record req { http_version_minor = number req.http_version_minor ds })
              p)
            rest
  unfolding consume minor_loop is_digit wanted
  parse-minor [] rest req p h =
      parse-yield (at minor req p) (at newline_1 req p) b'\r' _ refl
      ∙ parse-yield (at newline_1 req p) (at header_line req p) b'\n' rest refl
  parse-minor (c ∷ ds) rest req p (d, h) =
      let one : consume cast (at minor req p) c ≡ yield_at minor (at minor (push_minor req c) p) =
        rw d refl in
      parse-yield (at minor req p) (at minor (push_minor req c) p) c _ one
      ∙ parse-minor ds rest (push_minor req c) p h

  pub parse-minor_start :
      (ds rest : Bytes) (req : Request) (p : Parser)
      → All IsDigit ds
      → ds ≢ []
      → parse cast (at minor_start req p) (ds ++ (b'\r' ∷ b'\n' ∷ rest))
        ≡ parse cast
            (at header_line
              (record req { http_version_minor = number req.http_version_minor ds })
              p)
            rest
  unfolding consume
  parse-minor_start [] rest req p h ne = absurd (ne refl)
  parse-minor_start (c ∷ ds) rest req p (d, h) ne =
      let same : consume cast (at minor_start req p) c ≡ consume cast (at minor req p) c =
        rw d refl in
      parse-same (at minor_start req p) (at minor req p) c _ same
      ∙ parse-minor (c ∷ ds) rest req p (d, h)
