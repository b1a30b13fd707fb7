-- ===== src/Asio/CoroutineServer/Delivery.antt =====
-- A connection of the coroutine server from its accept to its end.
use boost.Prelude.{
  ◌≡◌, ◌≢◌, refl, sym, ap, ◌∙◌, true, List, [], ◌∷◌, ◌++◌, some, Bytes, All, length,
}
use boost.Asio.RequestParser.{Tribool, is_true, is_false, indeterminate}
use boost.Asio.RequestParser.Wire.{Wire, IsWire, print, request_of}
use boost.Asio.Reply.{Reply, to_buffers}
use boost.Asio.Connection.{success}
use boost.Asio.Connection.Delivery.{concat}
use boost.Asio.CoroutineParser.{Parser, Parsed, start, find_length, parse}
use boost.Asio.CoroutineParser.Chunks.{go_on, parse-go_on}
use boost.Asio.CoroutineParser.HeaderLines.{IsPlainValue}
use boost.Asio.CoroutineParser.Accepts.{parse-print_content}
use boost.Asio.CoroutineServer.{
  Place, at_start, accepting, reading, over, writing, Coroutine, Environment, new_request, judge,
  reenter, invoke,
}

module _ (env : Environment) where
  -- One read completes, where one is under way; then all pieces, one after the other.
  abbrev pub receive_at : Place → Bytes → Coroutine → Coroutine
  receive_at reading bytes s = (invoke env success bytes s).0
  receive_at at_start bytes s = s
  receive_at accepting bytes s = s
  receive_at over bytes s = s
  receive_at (writing buffers) bytes s = s

  abbrev pub receive_all : Coroutine → List Bytes → Coroutine
  receive_all s [] = s
  receive_all s (b ∷ bs) = receive_all (receive_at s.place b s) bs

  abbrev reading_with : Coroutine → Parser → Coroutine
  reading_with s p = record s { place = reading; request_parser = p }

  receive_all-writing :
      (s : Coroutine) (buffers : List Bytes) (bs : List Bytes)
      → s.place ≡ writing buffers
      → receive_all s bs ≡ s
  receive_all-writing s buffers [] e = refl
  receive_all-writing s buffers (b ∷ bs) e =
      let same : receive_at s.place b s ≡ s = ap (λ place. receive_at place b s) e in
      ap (λ t. receive_all t bs) same ∙ receive_all-writing s buffers bs e

  -- What the whole input makes of a connection.
  abbrev pub judged : Coroutine → Parsed → Coroutine
  judged s parsed =
      judge env parsed.result (record s { place = reading; request_parser = parsed.parser })

  piece :
      (s : Coroutine) (p : Parser) (r : Tribool) (left : Bytes) (bs : List Bytes)
      → receive_all (reading_with s p) bs ≡ judged s (parse env.cast p (concat bs))
      → receive_all (judged s (record { parser = p; result = r; rest = left })) bs
        ≡ judged s (go_on env.cast (record { parser = p; result = r; rest = left }) (concat bs))
  unfolding judge
  piece s p indeterminate left bs behind = behind
  piece s p is_true left bs behind = receive_all-writing _ _ bs refl
  piece s p is_false left bs behind = receive_all-writing _ _ bs refl

  pieces :
      (s : Coroutine) (p : Parser) (bs : List Bytes)
      → receive_all (reading_with s p) bs ≡ judged s (parse env.cast p (concat bs))
  unfolding judge invoke reenter parse
  pieces s p [] = refl
  pieces s p (b ∷ bs) =
      let first = parse env.cast p b in
      piece s first.parser first.result first.rest bs (pieces s first.parser bs)
      ∙ ap (judged s) (sym (parse-go_on env.cast p b (concat bs)))

  -- If a connection of the coroutine server reads, then what any pieces of input make of it is what
  -- its parser makes of all their bytes at once: it writes the reply to a request, or that to a bad
  -- one, or reads on.
  pub receive_all-concat :
      (s : Coroutine) (bs : List Bytes)
      → s.place ≡ reading
      → receive_all s bs ≡ judged s (parse env.cast s.request_parser (concat bs))
  receive_all-concat s bs e =
      let same : s ≡ reading_with s s.request_parser =
        ap (λ (place : Place). record s { place = place }) e in
      ap (λ t. receive_all t bs) same ∙ pieces s s.request_parser bs

  -- The handler's reply to a request with its content.
  abbrev pub reply_to : Wire → Bytes → Reply
  reply_to w body = env.request_handler (request_of w) body env.new_reply

  sent_place :
      (s : Coroutine) (w : Wire) (body : Bytes) (parsed : Parsed)
      → parsed.result ≡ is_true
      → parsed.parser.request ≡ request_of w
      → parsed.parser.content ≡ body
      → (judged s parsed).place ≡ writing (to_buffers (reply_to w body))
  unfolding judge
  sent_place s w body parsed e f g = rw (e, judge) (rw (f, g) refl)

  -- If the coroutine server accepts a connection while its parser is at its first point, it goes on
  -- accepting and forks a child. If the child then gets, in any number of pieces cut anywhere, a
  -- well-formed request with an address that is not empty, values in seven-bit characters, and a
  -- content of the length that its headers state, then it comes to write the handler's reply to
  -- that request and content; bytes behind the content change nothing.
  pub invoke-receive_all :
      (parent : Coroutine) (w : Wire) (body rest : Bytes) (bs : List Bytes)
      → parent.place ≡ accepting
      → parent.request_parser.point ≡ start
      → IsWire w
      → w.uri ≢ []
      → All IsPlainValue w.headers
      → find_length env.cast w.headers 0 ≡ (length body, true)
      → concat bs ≡ print w (body ++ rest)
      → (child : Coroutine) × (invoke env success [] parent ≡ (parent, some child))
        × ((receive_all child bs).place ≡ writing (to_buffers (reply_to w body)))
  unfolding invoke reenter
  invoke-receive_all parent w body rest bs e f h uri plain size whole =
      let child = new_request parent in
      let parsed = parse env.cast child.request_parser (concat bs) in
      let accepted =
        ap (parse env.cast child.request_parser) whole
        ∙ parse-print_content env.cast w body rest child.request_parser f h uri plain size in
      (
        child,
        rw (e, invoke) refl,
        ap (λ (s : Coroutine). s.place) (receive_all-concat child bs refl)
            ∙ sent_place child w body parsed (ap (λ (q : Parsed). q.result) accepted)
                (ap (λ (q : Parsed). q.parser.request) accepted)
                (ap (λ (q : Parsed). q.parser.content) accepted),
      )
