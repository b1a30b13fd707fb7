-- ===== src/Asio/Connection/Delivery.antt =====
-- A connection that gets a request in pieces.
use boost.Prelude.{◌≡◌, refl, sym, ap, ◌∙◌, ◌++◌, ℕ, List, [], ◌∷◌, none, some, Bytes}
use boost.Asio.Request.{Request, no_request}
use boost.Asio.RequestParser.{
  State, method_start, expecting_newline_3, Tribool, is_true, is_false, indeterminate, Step, Parsed,
  parse,
}
use boost.Asio.RequestParser.Wire.{Wire, IsWire, print, request_of}
use boost.Asio.RequestParser.Accepts.{parse-print}
use boost.Asio.RequestParser.Chunks.{
  resume, parse-append, resume-is_true, resume-is_false, resume-indeterminate,
}
use boost.Asio.RequestHandler.{Environment, handle_request}
use boost.Asio.Connection.{success, reading, writing, World, async_write, handle_read, start}

abbrev pub concat : List Bytes → Bytes
concat [] = []
concat (b ∷ bs) = b ++ concat bs

module _ (env : Environment) (doc_root : Bytes) (this : ℕ) where
  -- One read completes, where one is under way.
  abbrev pub deliver_one : World → Bytes → World
  deliver_one w bytes = elim w.self.pending [
    | some reading ↦ handle_read env doc_root this success bytes w
    | _ ↦ w
  ]

  -- The pieces arrive one after the other.
  abbrev pub deliver : World → List Bytes → World
  deliver w [] = w
  deliver w (b ∷ bs) = deliver (deliver_one w b) bs

  abbrev pub replied : World → State → Request → World
  replied w s req = record w {
    self =
        async_write (record w.self { parser = s; request = req; pending = none })
          (handle_request env doc_root req w.self.reply);
  }

  deliver_ignored :
      (w : World) (buffers : List Bytes) (bs : List Bytes)
      → w.self.pending ≡ some (writing buffers)
      → deliver w bs ≡ w
  deliver_ignored w buffers [] h = refl
  deliver_ignored w buffers (b ∷ bs) h =
      let same : deliver_one w b ≡ w = rw h in
      ap (λ v. deliver v bs) same ∙ deliver_ignored w buffers bs h

  abbrev at : World → State → Request → World
  at w s req = record w {
    self = record w.self { parser = s; request = req; pending = some reading };
  }

  deliver-parse_step :
      (w : World) (b : Bytes) (bs : List Bytes) (s t : State) (req final : Request) (rest : Bytes)
      (r : Tribool)
      → (parse s req b).step.result ≡ r
      → resume (parse s req b) (concat bs)
        ≡ record { step = record { state = t; request = final; result = is_true }; rest = rest }
      → (parse (parse s req b).step.state (parse s req b).step.request (concat bs)
            ≡ record { step = record { state = t; request = final; result = is_true }; rest = rest }
          → deliver (at w (parse s req b).step.state (parse s req b).step.request) bs
            ≡ replied w t final)
      → deliver (at w s req) (b ∷ bs) ≡ replied w t final
  unfolding handle_read
  deliver-parse_step w b bs s t req final rest is_true e h ih =
      let same : (parse s req b).step ≡ record { state = t; request = final; result = is_true } =
        resume-is_true (parse s req b) (concat bs) e ∙ ap (λ (p : Parsed). p.step) h in
      rw (e, handle_read)
        (deliver_ignored _ _ bs refl ∙ ap (λ (st : Step). replied w st.state st.request) same)
  deliver-parse_step w b bs s t req final rest is_false e h ih =
      let same : (parse s req b).step ≡ record { state = t; request = final; result = is_true } =
        resume-is_false (parse s req b) (concat bs) e ∙ ap (λ (p : Parsed). p.step) h in
      let result : is_false ≡ is_true = sym e ∙ ap (λ (st : Step). st.result) same in absurd (cc)
  deliver-parse_step w b bs s t req final rest indeterminate e h ih =
      rw (e, handle_read) (ih (resume-indeterminate (parse s req b) (concat bs) e ∙ h))

  -- Pieces whose bytes the parser accepts: the reply is the handler's, whatever the pieces are.
  deliver-parse :
      (w : World) (bs : List Bytes) (s t : State) (req final : Request) (rest : Bytes)
      → parse s req (concat bs)
        ≡ record { step = record { state = t; request = final; result = is_true }; rest = rest }
      → deliver (at w s req) bs ≡ replied w t final
  unfolding parse
  deliver-parse w [] s t req final rest h =
      let result : indeterminate ≡ is_true = ap (λ (p : Parsed). p.step.result) h in absurd (cc)
  deliver-parse w (b ∷ bs) s t req final rest h =
      let p = parse s req b in
      deliver-parse_step w b bs s t req final rest p.step.result refl
        (sym (parse-append s req b (concat bs)) ∙ h)
        (deliver-parse w bs p.step.state t p.step.request final rest)

  -- A connection that was made anew and started, and then gets a well-formed HTTP request in any
  -- number of pieces, cut anywhere, parses it as it was sent, leaves its reply to the request
  -- handler and begins to write that reply; bytes behind the request change nothing.
  pub deliver-start :
      (w : World) (request : Wire) (pieces : List Bytes) (rest : Bytes)
      → IsWire request
      → w.self.parser ≡ method_start
      → w.self.request ≡ no_request
      → concat pieces ≡ print request rest
      → deliver (start this w) pieces
        ≡ replied (start this w) expecting_newline_3 (request_of request)
  unfolding start
  deliver-start w request pieces rest h fresh_parser fresh_request e =
      rw (fresh_parser, fresh_request)
        (deliver-parse (start this w) pieces method_start expecting_newline_3 no_request
          (request_of request) rest (rw e (parse-print request rest h)))
