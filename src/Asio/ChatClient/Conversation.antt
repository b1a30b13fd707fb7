-- ===== src/Asio/ChatClient/Conversation.antt =====
-- Lines from one client to another, by way of the server.
use boost.Prelude.{
  ◌+◌, ◌≡◌, ◌≤◌, refl, sym, ap, ◌∙◌, subst, ℕ, true, List, [], ◌∷◌, ◌++◌, some, Bytes, All, map,
  length, append-nil,
}
use boost.Prelude.Int.{ℤ}
use boost.Asio.Connection.{contains}
use boost.Asio.Connection.Delivery.{concat}
use boost.Asio.ChatMessage.{header_length, max_body_length}
use boost.Asio.ChatMessage.RoundTrip.{IsPrinter}
use boost.Asio.ChatServer.{header_part, Session, Room, wire}
use boost.Asio.ChatServer.Delivery.{said_msgs, play-said_msgs}
use boost.Asio.ChatServer.Delivery
use boost.Asio.ChatServer.Soundness.{IsSound}
use boost.Asio.ChatClient.{Client, make_message}
use boost.Asio.ChatClient.Frames.{frame, wire-make_message}
use boost.Asio.ChatClient.Reader.{read_times, reads_of, read_times-frames, take_lines}
use boost.Asio.ChatClient.Printing.{client_reader, printed_lines, read_times-printed}
use boost.Asio.ChatClient.Serving.{session_reader, session-IsFramed, take_lines-waits}
use boost.Asio.ChatClient.Sending.{
  Event, IsSending, posted_msgs, wrote_msgs, remaining, play, play-wrote_msgs,
}

-- A client that has not written anything.
pub record IsFresh (a : Client) : Type 0 where
  pub no_msgs : a.write_msgs ≡ []
  pub no_write : a.writing ≡ []
  pub no_tasks : a.posted ≡ []

-- A room whose session p reads a header, and whose session q is a participant for which nothing
-- waits.
pub record IsReady (p q : ℕ) (room : Room) : Type 0 where
  pub sound : IsSound room
  pub member : contains q room.participants ≡ true
  pub empty : (room.sessions q).write_msgs ≡ []
  pub reads : (room.sessions p).reading ≡ some header_part

-- The room when its session p has read these bytes, as the messages of so many lines.
abbrev pub served_room : (atoi : Bytes → ℤ) → ℕ → List Bytes → List Bytes → Room → Room
served_room atoi p lines written room =
    (read_times (session_reader atoi p) (reads_of lines) (concat written) room).1

-- A session of the server whose messages have all been written has sent their bytes.
drained_bytes :
    (events : List Delivery.Event) (c : Session)
    → Delivery.IsSending c
    → said_msgs events ≡ []
    → (Delivery.play events c).1.write_msgs ≡ []
    → (Delivery.play events c).0 ≡ map wire c.write_msgs
drained_bytes events c h quiet done =
    sym (append-nil (Delivery.play events c).0)
    ∙ ap (λ l. (Delivery.play events c).0 ++ map wire l) (sym done)
    ∙ (play-said_msgs events c h).0
    ∙ ap (λ l. map wire (c.write_msgs ++ l)) quiet
    ∙ ap (map wire) (append-nil c.write_msgs)

module _ (sprintf_4d : ℕ → Bytes) (atoi : Bytes → ℤ) (laws : IsPrinter sprintf_4d atoi)
    (blank : Bytes) (full : length blank ≡ header_length + max_body_length) where
  wires-make_message :
      (lines : List Bytes)
      → All (λ line. length line ≤ max_body_length) lines
      → map wire (map (make_message sprintf_4d blank) lines) ≡ map (frame sprintf_4d) lines
  wires-make_message [] small = refl
  wires-make_message (line ∷ lines) (here, small) =
      rw (wire-make_message sprintf_4d atoi laws blank line full here)
        (ap (◌∷◌ (frame sprintf_4d line)) (wires-make_message lines small))

  -- A client that has written its lines, and has nothing left, has sent their frames.
  play-frames :
      (lines : List Bytes) (events : List Event) (a : Client)
      → All (λ line. length line ≤ max_body_length) lines
      → IsFresh a
      → wrote_msgs events ≡ map (make_message sprintf_4d blank) lines
      → remaining (play events a).1 ≡ []
      → (play events a).0 ≡ map (frame sprintf_4d) lines
  unfolding remaining posted_msgs
  play-frames lines events a small fresh said done =
      let before : remaining a ≡ [] = rw (fresh.no_msgs, fresh.no_tasks) refl in
      let sending : IsSending a = rw (fresh.no_msgs) (fresh.no_write) in
      sym (append-nil (play events a).0)
      ∙ ap (λ l. (play events a).0 ++ map wire l) (sym done)
      ∙ play-wrote_msgs events a sending
      ∙ ap (λ l. map wire (l ++ wrote_msgs events)) before
      ∙ ap (map wire) said
      ∙ wires-make_message lines small

  -- If "%4d" and atoi agree on the lengths of messages, a new client writes lines of at most 512
  -- bytes and sends them all, in whatever order its writes, the tasks of its io_service and its
  -- completions come, the session of the server that reads its bytes waits for a header, and
  -- another participant of a sound room, for which nothing waited, has all its messages written,
  -- then a client that waits for a header and reads what was written to that participant prints
  -- exactly the lines, each with a newline, in order.
  pub lines_arrive :
      (lines : List Bytes) (events : List Event) (a b : Client) (p q : ℕ) (room : Room)
      (deliveries : List Delivery.Event)
      → All (λ line. length line ≤ max_body_length) lines
      → IsFresh a
      → wrote_msgs events ≡ map (make_message sprintf_4d blank) lines
      → remaining (play events a).1 ≡ []
      → IsReady p q room
      → said_msgs deliveries ≡ []
      → (Delivery.play deliveries
          ((served_room atoi p lines (play events a).0 room).sessions q)).1.write_msgs
        ≡ []
      → b.reading ≡ some header_part
      → (read_times
          (client_reader atoi)
          (reads_of lines)
          (concat
            (Delivery.play deliveries
              ((served_room atoi p lines (play events a).0 room).sessions q)).0)
          b).1.printed
        ≡ b.printed ++ printed_lines lines
  lines_arrive lines events a b p q room deliveries small fresh said done ready quiet drained
        waits =
      let out = play-frames lines events a small fresh said done in
      let stream = concat (map (frame sprintf_4d) lines) in
      let served = served_room atoi p lines (play events a).0 room in
      let end = take_lines sprintf_4d (session_reader atoi p) lines room in
      let same : served ≡ end =
        ap (λ s. (read_times (session_reader atoi p) (reads_of lines) s room).1)
          (ap concat out ∙ sym (append-nil stream))
        ∙ ap (λ s. s.1)
            (read_times-frames sprintf_4d atoi laws (session_reader atoi p)
              (session-IsFramed sprintf_4d atoi laws p) lines [] room small ready.reads) in
      let (sound, member, messages) =
        take_lines-waits sprintf_4d atoi laws p q lines room small ready.sound ready.member in
      let sending : Delivery.IsSending (served.sessions q) =
        subst (λ (r : Room). Delivery.IsSending (r.sessions q)) (sym same)
          (sound.sending q member) in
      let queue : map wire (served.sessions q).write_msgs ≡ map (frame sprintf_4d) lines =
        ap (λ (r : Room). map wire (r.sessions q).write_msgs) same
        ∙ messages
        ∙ ap (λ l. map wire l ++ map (frame sprintf_4d) lines) ready.empty in
      let bytes = drained_bytes deliveries (served.sessions q) sending quiet drained ∙ queue in
      ap (λ s. (read_times (client_reader atoi) (reads_of lines) s b).1.printed)
        (ap concat bytes ∙ sym (append-nil stream))
      ∙ (read_times-printed sprintf_4d atoi laws lines [] b small waits).1
