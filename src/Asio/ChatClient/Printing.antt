-- ===== src/Asio/ChatClient/Printing.antt =====
-- What a client prints of the lines that reach it.
use boost.Prelude.{
  ◌≡◌, ◌≤◌, refl, ap, ◌∙◌, sym, ℕ, List, [], ◌∷◌, ◌++◌, some, Bytes, All, map, length, append_assoc,
  append-nil,
}
use boost.Prelude.Int.{ℤ}
use boost.Asio.Connection.Delivery.{concat}
use boost.Asio.ChatMessage.{max_body_length}
use boost.Asio.ChatMessage.RoundTrip.{IsPrinter}
use boost.Asio.ChatServer.{header_part}
use boost.Asio.ChatClient.{Client, handle_read_header, handle_read_body}
use boost.Asio.ChatClient.Frames.{frame, decode_frame, body-filled}
use boost.Asio.ChatClient.Reader.{
  Reader, IsFramed, take_line, take_lines, read_times, reads_of, read_times-frames,
}

abbrev pub client_reader : (atoi : Bytes → ℤ) → Reader Client
client_reader atoi = record {
  part = λ c. c.reading;
  size = λ c. c.read_msg.body_length_;
  on_header = handle_read_header atoi;
  on_body = handle_read_body;
}

-- The lines as they are printed.
unfoldable pub printed_lines : List Bytes → Bytes
printed_lines [] = []
printed_lines (line ∷ lines) = (line ++ b'\n' ∷ []) ++ printed_lines lines

module _ (sprintf_4d : ℕ → Bytes) (atoi : Bytes → ℤ) (laws : IsPrinter sprintf_4d atoi) where
  client-IsFramed : IsFramed sprintf_4d (client_reader atoi)
  unfolding handle_read_header handle_read_body
  client-IsFramed = record {
    announced =
        λ line c small e. rw (decode_frame sprintf_4d atoi laws line c.read_msg small) (refl, refl);
    again = λ line c. refl;
  }

  take_line-printed :
      (line : Bytes) (c : Client)
      → length line ≤ max_body_length
      → (take_line sprintf_4d (client_reader atoi) line c).printed
        ≡ (c.printed ++ line) ++ b'\n' ∷ []
  unfolding take_line handle_read_header handle_read_body
  take_line-printed line c small = rw (decode_frame sprintf_4d atoi laws line c.read_msg small) (
      ap (λ l. (c.printed ++ l) ++ b'\n' ∷ [])
        (body-filled sprintf_4d atoi laws line c.read_msg small))

  take_lines-printed :
      (lines : List Bytes) (c : Client)
      → All (λ line. length line ≤ max_body_length) lines
      → (take_lines sprintf_4d (client_reader atoi) lines c).printed
        ≡ c.printed ++ printed_lines lines
  unfolding take_lines printed_lines
  take_lines-printed [] c small = sym (append-nil c.printed)
  take_lines-printed (line ∷ lines) c (here, small) =
      take_lines-printed lines (take_line sprintf_4d (client_reader atoi) line c) small
      ∙ ap (λ b. b ++ printed_lines lines)
          (take_line-printed line c here ∙ append_assoc c.printed line (b'\n' ∷ []))
      ∙ append_assoc c.printed (line ++ b'\n' ∷ []) (printed_lines lines)

  -- Behind the reads of the lines the client has printed them, and left what follows.
  pub read_times-printed :
      (lines : List Bytes) (rest : Bytes) (c : Client)
      → All (λ line. length line ≤ max_body_length) lines
      → c.reading ≡ some header_part
      → let (left, d) =
          read_times
            (client_reader atoi)
            (reads_of lines)
            (concat (map (frame sprintf_4d) lines) ++ rest)
            c in
        (left ≡ rest) × (d.printed ≡ c.printed ++ printed_lines lines)
  read_times-printed lines rest c small e =
      let all =
        read_times-frames sprintf_4d atoi laws (client_reader atoi) client-IsFramed lines rest c
          small e in
      (ap (λ s. s.0) all, ap (λ s. s.1.printed) all ∙ take_lines-printed lines c small)
