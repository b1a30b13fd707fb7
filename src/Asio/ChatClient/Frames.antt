-- ===== src/Asio/ChatClient/Frames.antt =====
-- The bytes of a line as a message, and what a reader makes of them.
use boost.Prelude.{
  ◌+◌, ◌≡◌, ◌≤◌, refl, sym, ap, ◌∙◌, ℕ, true, false, ◌++◌, ltb, Bytes, take, drop, length,
  append_assoc, take-append_length, drop-append_length, take_of_length-le, length-append,
  length-take, arith,
}
use boost.Prelude.Int.{ℤ}
use boost.Asio.ChatMessage.{
  header_length, max_body_length, ChatMessage, body, set_body_length, encode_header, decode_header,
}
use boost.Asio.ChatMessage.RoundTrip.{IsPrinter, decode_header-encode_header}
use boost.Asio.ChatServer.{wire, fill_header, fill_body}
use boost.Asio.ChatClient.{make_message}

pub take_front : (n : ℕ) (a b : Bytes) → length a ≡ n → take n (a ++ b) ≡ a
take_front n a b e = rw⁻¹ e (take-append_length a b)

pub drop_front : (n : ℕ) (a b : Bytes) → length a ≡ n → drop n (a ++ b) ≡ b
drop_front n a b e = rw⁻¹ e (drop-append_length a b)

-- Two parts in front of anything.
take_two :
    (n m : ℕ) (a b s : Bytes) → length a ≡ n → length b ≡ m → take (n + m) (a ++ b ++ s) ≡ a ++ b
take_two n m a b s e f = take_front (n + m) (a ++ b) s (omega (arith, length-append a b, e, f))

-- What the socket carries for a line.
abbrev pub frame : (sprintf_4d : ℕ → Bytes) → Bytes → Bytes
frame sprintf_4d line = sprintf_4d (length line) ++ line

module _ (sprintf_4d : ℕ → Bytes) (atoi : Bytes → ℤ) (laws : IsPrinter sprintf_4d atoi) where
  pub wire-make_message :
      (blank line : Bytes)
      → length blank ≡ header_length + max_body_length
      → length line ≤ max_body_length
      → wire (make_message sprintf_4d blank line) ≡ frame sprintf_4d line
  unfolding make_message set_body_length encode_header
  wire-make_message blank line full small =
      let fits : ltb max_body_length (length line) ≡ false = ground arith in
      let printed = sprintf_4d (length line) in
      let wide = laws.width (length line) small in
      let front : length (take header_length blank) ≡ 4 = rw length-take (omega (arith, full)) in
      let behind = line ++ drop (header_length + length line) blank in
      let whole : drop header_length
            (take header_length blank ++ line ++ drop (header_length + length line) blank)
          ≡ behind =
        ap (drop header_length)
          (append_assoc (take header_length blank) line (drop (header_length + length line) blank))
        ∙ drop_front header_length (take header_length blank) behind front in
      let same : (make_message sprintf_4d blank line).data_ ≡ printed ++ behind =
        rw
          (
            fits,
            take_of_length-le (length line) line (omega arith),
            take_of_length-le header_length printed (omega (arith, wide)),
          )
          (ap (λ r. printed ++ r) whole) in
      let size : (make_message sprintf_4d blank line).body_length_ ≡ length line = rw fits refl in
      ap (λ k. take (header_length + k) (make_message sprintf_4d blank line).data_) size
      ∙ ap (take (header_length + length line)) same
      ∙ (ap (take (header_length + length line))
            (sym (append_assoc printed line (drop (header_length + length line) blank)))
          ∙ take_two header_length (length line) printed line
              (drop (header_length + length line) blank) wide refl)

  -- The message that a reader has behind the header and the body.
  abbrev pub filled : Bytes → ChatMessage → ChatMessage
  filled line m =
      fill_body line
        (record (fill_header (sprintf_4d (length line)) m) { body_length_ = length line })

  pub decode_frame :
      (line : Bytes) (m : ChatMessage)
      → length line ≤ max_body_length
      → decode_header atoi (fill_header (sprintf_4d (length line)) m)
        ≡ (record (fill_header (sprintf_4d (length line)) m) { body_length_ = length line }, true)
  unfolding encode_header
  decode_frame line m small =
      decode_header-encode_header sprintf_4d atoi laws (record m { body_length_ = length line })
        (fill_header (sprintf_4d (length line)) m) small
        (ap (λ p. p ++ drop header_length m.data_)
          (sym (
            take_of_length-le header_length (sprintf_4d (length line))
              (omega (arith, laws.width (length line) small)))))

  filled-data :
      (line : Bytes) (m : ChatMessage)
      → length line ≤ max_body_length
      → (filled line m).data_
        ≡ sprintf_4d (length line)
          ++ line
          ++ drop
              (header_length + length line)
              (sprintf_4d (length line) ++ drop header_length m.data_)
  filled-data line m small =
      rw
        (take_front header_length (sprintf_4d (length line)) (drop header_length m.data_)
          (laws.width (length line) small))
        refl

  pub wire-filled :
      (line : Bytes) (m : ChatMessage)
      → length line ≤ max_body_length
      → wire (filled line m) ≡ frame sprintf_4d line
  wire-filled line m small =
      ap (take (header_length + length line)) (filled-data line m small)
      ∙ take_two header_length (length line) (sprintf_4d (length line)) line _
          (laws.width (length line) small) refl

  pub body-filled :
      (line : Bytes) (m : ChatMessage)
      → length line ≤ max_body_length
      → take (length line) (body (filled line m)) ≡ line
  unfolding body
  body-filled line m small =
      ap (λ d. take (length line) (drop header_length d)) (filled-data line m small)
      ∙ ap (take (length line)) (
          ap (drop header_length) (
            append_assoc (sprintf_4d (length line)) line (
              drop (header_length + length line)
                (sprintf_4d (length line) ++ drop header_length m.data_)))
          ∙ drop_front header_length (sprintf_4d (length line))
              (line
                ++ drop (header_length + length line)
                    (sprintf_4d (length line) ++ drop header_length m.data_))
              (laws.width (length line) small))
      ∙ take_front (length line) line
          (drop (header_length + length line)
            (sprintf_4d (length line) ++ drop header_length m.data_))
          refl
