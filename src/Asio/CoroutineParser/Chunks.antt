-- ===== src/Asio/CoroutineParser/Chunks.antt =====
-- The coroutine on input that arrives in pieces.
use boost.Prelude.{◌≡◌, refl, [], ◌∷◌, ◌++◌, ℕ, Bytes}
use boost.Asio.RequestParser.{Tribool, is_true, is_false, indeterminate}
use boost.Asio.CoroutineParser.{Cast, Parser, Parsed, consume, parse}

-- The call of `parse` for the bytes that come next, which is made only while more is required.
abbrev pub go_on : Cast → Parsed → Bytes → Parsed
go_on cast p more = elim p.result [
  | indeterminate ↦ parse cast p.parser more
  | _ ↦ record p { rest = p.rest ++ more }
]

one_byte :
    (cast : Cast) (p : Parser) (c : ℕ) (a b : Bytes) (r : Tribool)
    → (consume cast p c).1 ≡ r
    → parse cast (consume cast p c).0 (a ++ b) ≡ go_on cast (parse cast (consume cast p c).0 a) b
    → parse cast p (c ∷ (a ++ b)) ≡ go_on cast (parse cast p (c ∷ a)) b
unfolding parse
one_byte cast p c a b indeterminate e behind = rw (e, parse) behind
one_byte cast p c a b is_true e behind = rw (e, parse) (rw e)
one_byte cast p c a b is_false e behind = rw (e, parse) (rw e)

-- From every point of the coroutine parser, parse on one buffer and then, if more data is required,
-- on the next gives what parse gives on both together.
pub parse-go_on :
    (cast : Cast) (p : Parser) (a b : Bytes) → parse cast p (a ++ b) ≡ go_on cast (parse cast p a) b
unfolding parse
parse-go_on cast p [] b = refl
parse-go_on cast p (c ∷ a) b =
    one_byte cast p c a b (consume cast p c).1 refl (parse-go_on cast (consume cast p c).0 a b)
