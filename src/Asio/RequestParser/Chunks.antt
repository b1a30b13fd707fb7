-- ===== src/Asio/RequestParser/Chunks.antt =====
-- A request that arrives in pieces is parsed as if it had come at once.
use boost.Prelude.{◌≡◌, refl, [], ◌∷◌, ◌++◌, ℕ, Bytes}
use boost.Asio.Request.{Request}
use boost.Asio.RequestParser.{
  State, Tribool, is_true, is_false, indeterminate, Parsed, consume, parse,
}

-- The next call of `parse`, on the bytes that follow: only where more data is required.
abbrev pub resume : Parsed → Bytes → Parsed
resume p more = elim p.step.result [
  | indeterminate ↦ parse p.step.state p.step.request more
  | _ ↦ record { step = p.step; rest = p.rest ++ more }
]

pub resume-is_true :
    (p : Parsed) (more : Bytes) → p.step.result ≡ is_true → p.step ≡ (resume p more).step
resume-is_true p more e = rw e

pub resume-is_false :
    (p : Parsed) (more : Bytes) → p.step.result ≡ is_false → p.step ≡ (resume p more).step
resume-is_false p more e = rw e

pub resume-indeterminate :
    (p : Parsed) (more : Bytes)
    → p.step.result ≡ indeterminate
    → parse p.step.state p.step.request more ≡ resume p more
resume-indeterminate p more e = rw e

parse-append_step :
    (s : State) (req : Request) (c : ℕ) (a b : Bytes) (r : Tribool)
    → (consume s req c).result ≡ r
    → parse (consume s req c).state (consume s req c).request (a ++ b)
      ≡ resume (parse (consume s req c).state (consume s req c).request a) b
    → parse s req (c ∷ (a ++ b)) ≡ resume (parse s req (c ∷ a)) b
unfolding parse
parse-append_step s req c a b indeterminate e ih = rw (e, parse) ih
parse-append_step s req c a b is_true e ih = rw (e, parse) (rw e)
parse-append_step s req c a b is_false e ih = rw (e, parse) (rw e)

-- From every state of the parser, parse on one buffer and then, if more data is required, on the
-- next gives what parse gives on both together: the same result, state, request and unread bytes.
pub parse-append :
    (s : State) (req : Request) (a b : Bytes) → parse s req (a ++ b) ≡ resume (parse s req a) b
unfolding parse
parse-append s req [] b = refl
parse-append s req (c ∷ a) b =
    let step = consume s req c in
    parse-append_step s req c a b step.result refl (parse-append step.state step.request a b)
