-- ===== src/Asio/CoroutineParser/Accepts.antt =====
-- The coroutine on a whole request with its content.
use boost.Prelude.{
  ◌+◌, ◌≡◌, ◌≢◌, refl, ◌∙◌, ℕ, true, false, [], ◌∷◌, ◌++◌, ltb, Bytes, All, append_assoc, length,
  length-append, arith,
}
use boost.Asio.RequestParser.{is_true}
use boost.Asio.RequestParser.Wire.{Wire, IsWire, print, request_of}
use boost.Asio.CoroutineParser.{
  start, newline_3, content, complete, Parser, Cast, clear, find_length, content_loop,
  end_of_headers, consume, parse,
}
use boost.Asio.CoroutineParser.StartLine.{
  at, parse-yield, parse-start, parse-uri, parse-http, parse-major_start, parse-minor_start,
}
use boost.Asio.CoroutineParser.HeaderLines.{IsPlainValue, parse-lines}

module _ (cast : Cast) where
  parse-accept :
      (p q : Parser) (c : ℕ) (rest : Bytes)
      → consume cast p c ≡ (q, is_true)
      → parse cast p (c ∷ rest) ≡ record { parser = q; result = is_true; rest = rest }
  unfolding parse
  parse-accept p q c rest e = rw (e, parse) (rw e refl)

  parse-content :
      (body rest : Bytes) (p : Parser)
      → p.point ≡ content
      → length p.content + length body ≡ p.content_length
      → body ≢ []
      → parse cast p (body ++ rest) ≡ record {
        parser = record p { point = complete; content = p.content ++ body };
        result = is_true;
        rest = rest;
      }
  unfolding consume content_loop
  parse-content [] rest p at_content size ne = absurd (ne refl)
  parse-content (c ∷ []) rest p at_content size ne =
      let full : ltb (length (p.content ++ c ∷ [])) p.content_length ≡ false =
        (let longer = length-append p.content (c ∷ []) in ground arith) in
      parse-accept p _ c rest (rw (at_content, consume) (rw full refl))
  parse-content (c ∷ (d ∷ body)) rest p at_content size ne =
      let longer = length-append p.content (c ∷ []) in
      let more : ltb (length (p.content ++ c ∷ [])) p.content_length ≡ true = ground arith in
      let next : Parser = record p { point = content; content = p.content ++ c ∷ [] } in
      parse-yield cast p next c _ (rw (at_content, consume) (rw more refl))
      ∙ parse-content (d ∷ body) rest next refl (omega (arith, longer)) (λ e. cc)
      ∙ rw append_assoc

  -- The end of the header lines, by the length of the content.
  parse-newline_3 :
      (body rest : Bytes) (p : Parser)
      → p.point ≡ newline_3
      → p.content ≡ []
      → find_length cast p.request.headers p.content_length ≡ (length body, true)
      → parse cast p (b'\n' ∷ (body ++ rest)) ≡ record {
        parser = record p { point = complete; content_length = length body; content = body };
        result = is_true;
        rest = rest;
      }
  unfolding consume end_of_headers content_loop
  parse-newline_3 [] rest p e none_yet size =
      parse-accept p _ b'\n' rest (rw (e, consume) (rw (size, none_yet) refl))
  parse-newline_3 (c ∷ body) rest p e none_yet size =
      let next : Parser = record p {
        point = content;
        content_length = length (c ∷ body);
        content = [];
      } in
      let more : ltb 0 (length (c ∷ body)) ≡ true = ground arith in
      parse-yield cast p next b'\n' _ (rw (e, consume) (rw (size, none_yet, more) refl))
      ∙ parse-content (c ∷ body) rest next refl (omega arith) (λ k. cc)

  -- From its first point, and whatever it parsed before, the coroutine parser accepts the text of
  -- every well-formed request with an address that is not empty, values in seven-bit characters,
  -- and a content of the length that its headers state; it reads no byte behind the content and
  -- gives back the parts of the request and the content.
  pub parse-print_content :
      (w : Wire) (body rest : Bytes) (p : Parser)
      → p.point ≡ start
      → IsWire w
      → w.uri ≢ []
      → All IsPlainValue w.headers
      → find_length cast w.headers 0 ≡ (length body, true)
      → parse cast p (print w (body ++ rest)) ≡ record {
        parser = record {
          point = complete;
          content_length = length body;
          request = request_of w;
          content = body;
        };
        result = is_true;
        rest = rest;
      }
  parse-print_content w body rest p e h uri plain size =
      parse-start cast w.method _ p e h.method h.method_ne_nil
      ∙ parse-uri cast w.uri _ _ (clear p) h.uri uri
      ∙ parse-http cast _ _ (clear p)
      ∙ parse-major_start cast w.major _ _ (clear p) h.major h.major_ne_nil
      ∙ parse-minor_start cast w.minor _ _ (clear p) h.minor h.minor_ne_nil
      ∙ parse-lines cast w.headers _ _ (clear p) h.headers plain
      ∙ parse-newline_3 body rest (at cast newline_3 (request_of w) (clear p)) refl refl size
