-- ===== src/Asio/RequestParser/Awaits.antt =====
-- A request that has not all arrived: http/server/request_parser.cpp waits for the rest of it.
use boost.Prelude.{◌≡◌, ◌≢◌, refl, sym, ap, ◌∙◌, [], ◌∷◌, ◌++◌, append_assoc, Bytes}
use boost.Asio.Request.{no_request}
use boost.Asio.RequestParser.{
  Step, method_start, expecting_newline_3, Tribool, is_true, is_false, indeterminate, Parsed, parse,
}
use boost.Asio.RequestParser.Chunks.{resume, parse-append, resume-is_false, resume-indeterminate}
use boost.Asio.RequestParser.Wire.{Wire, IsWire, print, request_of}
use boost.Asio.RequestParser.Accepts.{parse-print}

-- What the parser leaves behind the text of a request.
abbrev accepted : Wire → Bytes → Parsed
accepted w rest = record {
  step = record { state = expecting_newline_3; request = request_of w; result = is_true };
  rest = rest;
}

append-eq-nil : (a b : Bytes) → a ++ b ≡ [] → b ≡ []
append-eq-nil [] b e = e
append-eq-nil (c ∷ a) b e = cc

resume-rest : (p : Parsed) (b : Bytes) → p.step.result ≡ is_true → p.rest ++ b ≡ (resume p b).rest
resume-rest p b e = rw e

resume_decided :
    (p : Parsed) (w : Wire) (b : Bytes) (r : Tribool)
    → p.step.result ≡ r
    → b ≢ []
    → resume p b ≡ accepted w []
    → r ≡ indeterminate
resume_decided p w b indeterminate e more h = refl
resume_decided p w b is_true e more h =
    let left : p.rest ++ b ≡ [] = resume-rest p b e ∙ ap (λ (q : Parsed). q.rest) h in
    absurd (more (append-eq-nil p.rest b left))
resume_decided p w b is_false e more h =
    let same : p.step ≡ (accepted w []).step =
      resume-is_false p b e ∙ ap (λ (q : Parsed). q.step) h in
    let result : is_false ≡ is_true = sym e ∙ ap (λ (st : Step). st.result) same in absurd (cc)

-- If the text of a well-formed request is cut anywhere before its end, then a new parser reads the
-- first part without a decision and asks for more; and from there it reads the second part,
-- whatever follows it, accepts the request with its method, address, version and headers, and reads
-- no byte behind it.
pub parse-print_cut :
    (w : Wire) (a b rest : Bytes)
    → IsWire w
    → a ++ b ≡ print w []
    → b ≢ []
    → let first = (parse method_start no_request a).step in
      (first.result ≡ indeterminate)
      × (parse first.state first.request (b ++ rest) ≡ record {
        step = record { state = expecting_newline_3; request = request_of w; result = is_true };
        rest = rest;
      })
parse-print_cut w a b rest h whole more =
    let p = parse method_start no_request a in
    let ended : parse method_start no_request (a ++ b) ≡ accepted w [] =
      ap (parse method_start no_request) whole ∙ parse-print w [] h in
    let waits : p.step.result ≡ indeterminate =
      resume_decided p w b p.step.result refl more
        (sym (parse-append method_start no_request a b) ∙ ended) in
    let resumed : resume p (b ++ rest) ≡ accepted w rest =
      sym (parse-append method_start no_request a (b ++ rest))
      ∙ ap (parse method_start no_request) (sym (append_assoc a b rest))
      ∙ parse-append method_start no_request (a ++ b) rest
      ∙ ap (λ q. resume q rest) ended in
    (waits, resume-indeterminate p (b ++ rest) waits ∙ resumed)
