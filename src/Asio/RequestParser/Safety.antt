-- ===== src/Asio/RequestParser/Safety.antt =====
-- What the request that the parser builds never holds.
use boost.Prelude.{
  Bool, ◌≡◌, ◌≢◌, refl, subst, [], ◌∷◌, ◌==◌, ℕ, false, not, ◌&&◌, ◌||◌, if◌then◌else◌, Bytes, All,
  if_induct, arith,
}
use boost.Asio.Request.{Request}
use boost.Asio.RequestParser.{
  State, method_start, method, uri, http_version_h, http_version_t_1, http_version_t_2,
  http_version_p, http_version_slash, http_version_major_start, http_version_major,
  http_version_minor_start, http_version_minor, expecting_newline_1, header_line_start, header_lws,
  header_name, space_before_header_value, header_value, expecting_newline_2, expecting_newline_3,
  Step, go, refuse, is_digit, is_empty, push_digit, consume, parse, is_true, is_false,
  indeterminate, Tribool, is_ctl, is_no_token,
}
use boost.Asio.RequestParser.Wire.{IsToken, IsUri, IsHeader}
use boost.Asio.RequestParser.Clean.{
  IsStarted, IsClean, move, push_value-IsClean, push_uri-IsClean, push_method-IsClean,
  push_name-IsClean, new_header-IsClean, numbered,
}

record Cleanly (step : Step) : Type 0 where
  clean : IsClean step.state step.request

cleanly : {step : Step} → IsClean step.state step.request → Cleanly step
cleanly h = record { clean = h }

-- The branches of a test: to another state, to a refusal, and a byte that is taken or refused.
move_or :
    {s : State} {req : Request} (b : Bool) (t : State) {y : Step}
    → IsStarted t req.method
    → IsClean s req
    → (b ≡ false → Cleanly y)
    → Cleanly (if b then go t req else y)
move_or {s} {req} b t {y} started h k =
    if_induct Cleanly b (go t req) y (λ _. cleanly (move s t req started h)) k

refuse_or :
    {s : State} {req : Request} (b : Bool) {y : Step}
    → IsClean s req
    → (b ≡ false → Cleanly y)
    → Cleanly (if b then refuse s req else y)
refuse_or {s} {req} b {y} h k = if_induct Cleanly b (refuse s req) y (λ _. cleanly h) k

take_or_refuse :
    {s t : State} {req next : Request} (b : Bool)
    → IsClean t next
    → IsClean s req
    → Cleanly (if b then go t next else refuse s req)
take_or_refuse {s} {t} {req} {next} b g h =
    if_induct Cleanly b (go t next) (refuse s req) (λ _. cleanly g) (λ _. cleanly h)

-- One byte keeps it so, whether it is taken or refused.
consume-IsClean : (s : State) (req : Request) (c : ℕ) → IsClean s req → Cleanly (consume s req c)
unfolding consume
consume-IsClean method_start req c h =
    refuse_or (is_no_token c) h (λ token. cleanly (push_method-IsClean method_start req c token h))
consume-IsClean method req c h =
    move_or (c == b' ') uri h.started h (λ _.
      refuse_or (is_no_token c) h (λ token. cleanly (push_method-IsClean method req c token h)))
consume-IsClean uri req c h =
    move_or (c == b' ') http_version_h h.started h
      (λ space. refuse_or (is_ctl c) h (λ text. cleanly (push_uri-IsClean req c text space h)))
consume-IsClean http_version_h req c h =
    take_or_refuse (c == b'H') (move http_version_h http_version_t_1 req h.started h) h
consume-IsClean http_version_t_1 req c h =
    take_or_refuse (c == b'T') (move http_version_t_1 http_version_t_2 req h.started h) h
consume-IsClean http_version_t_2 req c h =
    take_or_refuse (c == b'T') (move http_version_t_2 http_version_p req h.started h) h
consume-IsClean http_version_p req c h =
    take_or_refuse (c == b'P') (move http_version_p http_version_slash req h.started h) h
consume-IsClean http_version_slash req c h =
    take_or_refuse (c == b'/')
      (numbered http_version_slash http_version_major_start req 0 0 h.started h) h
consume-IsClean http_version_major_start req c h =
    take_or_refuse (is_digit c)
      (numbered http_version_major_start http_version_major req
        (push_digit req.http_version_major c) req.http_version_minor h.started h)
      h
consume-IsClean http_version_major req c h =
    move_or (c == b'.') http_version_minor_start h.started h (λ _.
      take_or_refuse (is_digit c)
        (numbered http_version_major http_version_major req (push_digit req.http_version_major c)
          req.http_version_minor h.started h)
        h)
consume-IsClean http_version_minor_start req c h =
    take_or_refuse (is_digit c)
      (numbered http_version_minor_start http_version_minor req req.http_version_major
        (push_digit req.http_version_minor c) h.started h)
      h
consume-IsClean http_version_minor req c h =
    move_or (c == b'\r') expecting_newline_1 h.started h (λ _.
      take_or_refuse (is_digit c)
        (numbered http_version_minor http_version_minor req req.http_version_major
          (push_digit req.http_version_minor c) h.started h)
        h)
consume-IsClean expecting_newline_1 req c h =
    take_or_refuse (c == b'\n') (move expecting_newline_1 header_line_start req h.started h) h
consume-IsClean header_line_start req c h =
    move_or (c == b'\r') expecting_newline_3 h.started h (λ _.
      move_or (not (is_empty req.headers) && (c == b' ' || c == b'\t')) header_lws h.started h
        (λ _. refuse_or (is_no_token c) h (λ token. cleanly (new_header-IsClean req c token h))))
consume-IsClean header_lws req c h = move_or (c == b'\r') expecting_newline_2 h.started h (λ _.
    move_or (c == b' ' || c == b'\t') header_lws h.started h (λ _.
      refuse_or (is_ctl c) h
        (λ text. cleanly (push_value-IsClean header_lws req c text h.started h))))
consume-IsClean header_name req c h =
    move_or (c == b':') space_before_header_value h.started h
      (λ _. refuse_or (is_no_token c) h (λ token. cleanly (push_name-IsClean req c token h)))
consume-IsClean space_before_header_value req c h =
    take_or_refuse (c == b' ') (move space_before_header_value header_value req h.started h) h
consume-IsClean header_value req c h = move_or (c == b'\r') expecting_newline_2 h.started h (λ _.
    refuse_or (is_ctl c) h
      (λ text. cleanly (push_value-IsClean header_value req c text h.started h)))
consume-IsClean expecting_newline_2 req c h =
    take_or_refuse (c == b'\n') (move expecting_newline_2 header_line_start req h.started h) h
consume-IsClean expecting_newline_3 req c h = cleanly h

-- Only the last newline makes a request.
consume-is_true :
    (s : State) (req : Request) (c : ℕ)
    → (consume s req c).result ≡ is_true
    → (consume s req c).state ≡ expecting_newline_3
unfolding consume
consume-is_true expecting_newline_3 req c e = refl
consume-is_true _ req c e = ground arith

parse_step-IsClean :
    (s : State) (req : Request) (c : ℕ) (input : Bytes) (r : Tribool)
    → (consume s req c).result ≡ r
    → Cleanly (consume s req c)
    → Cleanly (parse (consume s req c).state (consume s req c).request input).step
    → Cleanly (parse s req (c ∷ input)).step
unfolding parse
parse_step-IsClean s req c input indeterminate e here later = rw (e, parse) later
parse_step-IsClean s req c input is_true e here later = rw (e, parse) here
parse_step-IsClean s req c input is_false e here later = rw (e, parse) here

parse-IsClean :
    (s : State) (req : Request) (input : Bytes) → IsClean s req → Cleanly (parse s req input).step
unfolding parse
parse-IsClean s req [] h = cleanly h
parse-IsClean s req (c ∷ input) h =
    let here = consume-IsClean s req c h in
    parse_step-IsClean s req c input (consume s req c).result refl here
      (parse-IsClean (consume s req c).state (consume s req c).request input here.clean)

IsEnd : Step → Type 0
IsEnd step = step.result ≡ is_true → step.state ≡ expecting_newline_3

parse_step-is_true :
    (s : State) (req : Request) (c : ℕ) (input : Bytes) (r : Tribool)
    → (consume s req c).result ≡ r
    → IsEnd (parse (consume s req c).state (consume s req c).request input).step
    → IsEnd (parse s req (c ∷ input)).step
unfolding parse IsEnd
parse_step-is_true s req c input indeterminate e later = rw (e, parse) later
parse_step-is_true s req c input is_true e later = rw (e, parse) (λ _. consume-is_true s req c e)
parse_step-is_true s req c input is_false e later = rw (e, parse) (λ k. consume-is_true s req c k)

parse-is_true : (s : State) (req : Request) (input : Bytes) → IsEnd (parse s req input).step
unfolding parse IsEnd
parse-is_true s req [] e = absurd (cc)
parse-is_true s req (c ∷ input) e =
    parse_step-is_true s req c input (consume s req c).result refl
      (parse-is_true (consume s req c).state (consume s req c).request input) e

-- A request that was accepted.
pub record IsAccepted (req : Request) : Type 0 where
  pub method : All IsToken req.method
  pub method_ne_nil : req.method ≢ []
  pub uri : All IsUri req.uri
  pub headers : All IsHeader req.headers

-- If a request is clean for the state of the parser, as a new one is, and parse returns true on any
-- input, then the request has a method that is not empty and is made of token characters, an
-- address without blanks and control characters, and headers with names that are not empty and made
-- of token characters, and values without control characters.
pub parse-IsAccepted :
    (s : State) (req : Request) (input : Bytes)
    → IsClean s req
    → (parse s req input).step.result ≡ is_true
    → IsAccepted (parse s req input).step.request
unfolding IsEnd
parse-IsAccepted s req input h e =
    let clean = (parse-IsClean s req input h).clean in
    record {
      method = clean.method;
      method_ne_nil =
          subst (λ t. IsStarted t (parse s req input).step.request.method)
            (parse-is_true s req input e) clean.started;
      uri = clean.uri;
      headers = clean.headers;
    }
