-- ===== src/Asio/ChatMessage.antt =====
-- doc_searcher/data/input/html/boost_asio/example/chat/chat_message.hpp: a chat message, whose
-- header has the length of its body. `sprintf` with "%4d" and `atoi` are arguments.
pub mod RoundTrip
use boost.Prelude.{
  ◌+◌, ◌-◌, ◌^◌, ℕ, Bool, true, false, List, [], ◌∷◌, ◌++◌, ◌==◌, ltb, if◌then◌else◌, Bytes, take,
  drop,
}
use boost.Prelude.Int.{ℤ, pos, negsuc}

abbrev pub header_length : ℕ
header_length = 4

abbrev pub max_body_length : ℕ
max_body_length = 512

-- `data_`, 516 bytes, and `body_length_`.
pub record ChatMessage : Type 0 where
  pub data_ : Bytes
  pub body_length_ : ℕ

-- `length`.
unfoldable pub message_length : ChatMessage → ℕ
message_length m = header_length + m.body_length_

-- `body`: the bytes that the pointer leads to.
unfoldable pub body : ChatMessage → Bytes
body m = drop header_length m.data_

-- `body_length` with an argument.
unfoldable pub set_body_length : ChatMessage → ℕ → ChatMessage
set_body_length m new_length = record m {
  body_length_ = if ltb max_body_length new_length then max_body_length else new_length;
}

-- An `int` as a `size_t` of 64 bits.
abbrev pub to_size : ℤ → ℕ
to_size (pos n) = n
to_size (negsuc n) = 2 ^ 64 - 1 - n

-- `strncat` stops at a zero byte.
unfoldable pub c_string : Bytes → Bytes
c_string [] = []
c_string (c ∷ s) = if c == 0 then [] else c ∷ c_string s

-- `decode_header`: the message and what is returned.
unfoldable pub decode_header : (atoi : Bytes → ℤ) → ChatMessage → ChatMessage × Bool
unfolding c_string
decode_header atoi m =
    let decoded = to_size (atoi (c_string (take header_length m.data_))) in
    if ltb max_body_length decoded
    then (record m { body_length_ = 0 }, false)
    else (record m { body_length_ = decoded }, true)

-- `encode_header`: the first four of the bytes that are printed replace the first four of the
-- message. A longer number would overrun the array that `sprintf` writes to.
unfoldable pub encode_header : (sprintf_4d : ℕ → Bytes) → ChatMessage → ChatMessage
encode_header sprintf_4d m = record m {
  data_ = take header_length (sprintf_4d m.body_length_) ++ drop header_length m.data_;
}
