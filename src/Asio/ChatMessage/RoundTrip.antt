-- ===== src/Asio/ChatMessage/RoundTrip.antt =====
-- A message's header, written and read back.
use boost.Prelude.{
  ◌+◌, ◌≡◌, ◌≢◌, ◌≤◌, refl, ℕ, true, false, [], ◌∷◌, ◌++◌, ltb, Bytes, All, take, drop, length,
  take-append_length, drop-append_length, arith, take_of_length-le,
}
use boost.Prelude.Int.{ℤ, pos}
use boost.Asio.ChatMessage.{
  header_length, max_body_length, ChatMessage, body, message_length, to_size, c_string,
  decode_header, encode_header,
}

-- What C says of "%4d" and of `atoi` for the lengths that a message may have: four bytes, none of
-- them zero, that are read as the number again.
pub record IsPrinter (sprintf_4d : ℕ → Bytes) (atoi : Bytes → ℤ) : Type 0 where
  pub width : (n : ℕ) → n ≤ max_body_length → length (sprintf_4d n) ≡ 4
  pub no_zero : (n : ℕ) → n ≤ max_body_length → All (λ c. c ≢ 0) (sprintf_4d n)
  pub reads : (n : ℕ) → n ≤ max_body_length → atoi (sprintf_4d n) ≡ pos n

c_string_whole : (s : Bytes) → All (λ c. c ≢ 0) s → c_string s ≡ s
unfolding c_string
c_string_whole [] h = refl
c_string_whole (c ∷ s) (p, h) = ground (arith, c_string_whole s h)

take_front : (n : ℕ) (a b : Bytes) → length a ≡ n → take n (a ++ b) ≡ a
take_front n a b e = rw⁻¹ e (take-append_length a b)

drop_front : (n : ℕ) (a b : Bytes) → length a ≡ n → drop n (a ++ b) ≡ b
drop_front n a b e = rw⁻¹ e (drop-append_length a b)

module _ (sprintf_4d : ℕ → Bytes) (atoi : Bytes → ℤ) (laws : IsPrinter sprintf_4d atoi) where
  -- If "%4d" prints a length of at most 512 in four bytes, none of them zero, that atoi reads as
  -- the same number, then a receiver of the bytes of a message whose header was encoded, and whose
  -- body has at most 512 bytes, decodes the length of the body and returns true.
  pub decode_header-encode_header :
      (m received : ChatMessage)
      → m.body_length_ ≤ max_body_length
      → received.data_ ≡ (encode_header sprintf_4d m).data_
      → decode_header atoi received ≡ (record received { body_length_ = m.body_length_ }, true)
  unfolding decode_header encode_header
  decode_header-encode_header m received small same =
      let printed = sprintf_4d m.body_length_ in
      let wide = laws.width m.body_length_ small in
      let whole : take header_length printed ≡ printed =
        take_of_length-le header_length printed (omega arith) in
      let front : take header_length received.data_ ≡ printed =
        rw (same, whole) (take_front header_length printed (drop header_length m.data_) wide) in
      let read : to_size (atoi (c_string (take header_length received.data_))) ≡ m.body_length_ =
        rw (
          front,
          c_string_whole printed (laws.no_zero m.body_length_ small),
          laws.reads m.body_length_ small,
        ) in
      let fits : ltb max_body_length m.body_length_ ≡ false = ground arith in rw (read, fits)

  pub body-encode_header :
      (m : ChatMessage)
      → m.body_length_ ≤ max_body_length
      → body (encode_header sprintf_4d m) ≡ body m
  unfolding body encode_header
  body-encode_header m small =
      let printed = sprintf_4d m.body_length_ in
      let wide = laws.width m.body_length_ small in
      let whole : take header_length printed ≡ printed =
        take_of_length-le header_length printed (omega arith) in
      rw whole (drop_front header_length printed (drop header_length m.data_) wide)

-- Whatever bytes were received, and whatever atoi makes of them, the length of the message after
-- decode_header is at most 516, the size of its array.
pub decode_header-le :
    (atoi : Bytes → ℤ) (m : ChatMessage)
    → message_length (decode_header atoi m).0 ≤ header_length + max_body_length
unfolding decode_header message_length
decode_header-le atoi m = ground arith
