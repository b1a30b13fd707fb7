-- ===== src/Asio/RequestParser/Headers.antt =====
-- The last header that the parser writes to is always there.
use boost.Prelude.{◌≡◌, ◌≢◌, refl, List, [], ◌∷◌, ◌++◌, ℕ, Bytes, arith}
use boost.Asio.Request.{Header, Request}
use boost.Asio.RequestParser.{
  State, header_line_start, header_lws, header_name, space_before_header_value, header_value,
  update_back, consume, parse, is_true, is_false, indeterminate, Tribool,
}

-- In these states `consume` may call `headers.back()`, now or after some more bytes of the header.
abbrev pub HasBack : State → Request → Type 0
HasBack header_lws req = req.headers ≢ []
HasBack header_name req = req.headers ≢ []
HasBack space_before_header_value req = req.headers ≢ []
HasBack header_value req = req.headers ≢ []
HasBack _ req = Unit

update_back-ne-nil : (f : Header → Header) (hs : List Header) → hs ≢ [] → update_back f hs ≢ []
unfolding update_back
update_back-ne-nil f [] h e = h refl
update_back-ne-nil f (x ∷ []) h e = cc
update_back-ne-nil f (x ∷ (y ∷ hs)) h e = cc

append-ne-nil : (hs : List Header) (h : Header) → hs ++ h ∷ [] ≢ []
append-ne-nil [] h e = cc
append-ne-nil (x ∷ hs) h e = cc

-- One byte keeps it so.
pub consume-HasBack :
    (s : State) (req : Request) (c : ℕ)
    → HasBack s req
    → HasBack (consume s req c).state (consume s req c).request
unfolding consume
consume-HasBack header_line_start req c h =
    ground (arith, append-ne-nil req.headers (record { name = c ∷ []; value = [] }))
consume-HasBack header_lws req c h = ground (
  arith,
  update_back-ne-nil (λ (x : Header). record x { value = x.value ++ c ∷ [] }) req.headers h,
)
consume-HasBack header_name req c h =
    ground (
      arith,
      update_back-ne-nil (λ (x : Header). record x { name = x.name ++ c ∷ [] }) req.headers h,
    )
consume-HasBack header_value req c h = ground (
  arith,
  update_back-ne-nil (λ (x : Header). record x { value = x.value ++ c ∷ [] }) req.headers h,
)
consume-HasBack _ req c h = ground arith

parse-HasBack_step :
    (s : State) (req : Request) (c : ℕ) (input : Bytes) (r : Tribool)
    → (consume s req c).result ≡ r
    → HasBack (consume s req c).state (consume s req c).request
    → (HasBack
        (parse (consume s req c).state (consume s req c).request input).step.state
        (parse (consume s req c).state (consume s req c).request input).step.request)
    → HasBack (parse s req (c ∷ input)).step.state (parse s req (c ∷ input)).step.request
unfolding parse
parse-HasBack_step s req c input indeterminate e here later = rw (e, parse) later
parse-HasBack_step s req c input is_true e here later = rw (e, parse) here
parse-HasBack_step s req c input is_false e here later = rw (e, parse) here

-- If the parser is in a state in which it may append to the last header only when there is a
-- header, then it is so after every buffer: it never takes the last header of an empty list.
pub parse-HasBack :
    (s : State) (req : Request) (input : Bytes)
    → HasBack s req
    → HasBack (parse s req input).step.state (parse s req input).step.request
unfolding parse
parse-HasBack s req [] h = h
parse-HasBack s req (c ∷ input) h =
    let here = consume-HasBack s req c h in
    parse-HasBack_step s req c input (consume s req c).result refl here
      (parse-HasBack (consume s req c).state (consume s req c).request input here)
