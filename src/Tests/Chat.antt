-- ===== src/Tests/Chat.antt =====
-- Two clients and the server of the chat, with one line.
use boost.Prelude.{◌≡◌, refl, ℕ, zero, suc, true, List, [], ◌∷◌, some, Bytes, codes, arith, inl}
use boost.Asio.ChatMessage.{ChatMessage}
use boost.Asio.ChatMessage
use boost.Asio.ChatServer.{header_part, Session, Room}
use boost.Asio.ChatServer
use boost.Asio.ChatServer.Delivery
use boost.Asio.ChatServer.Soundness.{IsSound}
use boost.Asio.ChatClient.{Client, make_message}
use boost.Asio.ChatClient
use boost.Asio.ChatClient.Sending.{Event, wrote, ran, sent, play}
use boost.Asio.ChatClient.Sending
use boost.Asio.ChatClient.Reader.{read_times, reads_of, read_part, read_exactly}
use boost.Asio.ChatClient.Printing.{client_reader, printed_lines}
use boost.Asio.ChatClient.Conversation.{served_room, lines_arrive}
use boost.Asio.Connection.Delivery.{concat}
use boost.Tests.Lemmas.{four_wide, read_four, four_wide-IsPrinter}

-- An array of 516 bytes.
zeros : ℕ → Bytes
zeros zero = []
zeros (suc n) = 0 ∷ zeros n

abbrev blank : Bytes
blank = zeros 516

abbrev no_message : ChatMessage
no_message = record { data_ = []; body_length_ = 0 }

abbrev lines : List Bytes
lines = codes "hi" ∷ codes "" ∷ []

abbrev new_client : Client
new_client = record {
  is_open = true;
  read_msg = no_message;
  write_msgs = [];
  reading = some header_part;
  writing = [];
  posted = [];
  printed = [];
}

abbrev events : List Event
events =
    wrote (make_message four_wide blank (codes "hi"))
    ∷ ran
    ∷ wrote (make_message four_wide blank [])
    ∷ sent
    ∷ ran
    ∷ sent
    ∷ []

abbrev waiting : Session
waiting = record {
  read_msg = no_message;
  write_msgs = [];
  reading = some header_part;
  writing = [];
}

abbrev room : Room
room = record { participants = 1 ∷ 2 ∷ []; recent_msgs = []; sessions = λ j. waiting }

room-IsSound : IsSound room
room-IsSound = record {
  distinct = (refl, (refl, tt));
  sending = λ j h. refl;
  front = λ j. inl refl;
  recent = omega arith;
}

abbrev deliveries : List Delivery.Event
deliveries = Delivery.sent ∷ Delivery.sent ∷ []

lines_arrive_example :
    (read_times
      (client_reader read_four)
      (reads_of lines)
      (concat
        (Delivery.play deliveries
          ((served_room read_four 1 lines (play events new_client).0 room).sessions 2)).0)
      new_client).1.printed
    ≡ codes "hi\n\n"
unfolding zeros four_wide read_four Sending.wrote_msgs Sending.play Sending.remaining
    Sending.posted_msgs printed_lines read_times read_part read_exactly reads_of ChatClient.write
    ChatClient.run_next ChatClient.run_task ChatClient.do_write ChatClient.handle_write make_message
    ChatServer.handle_read_header ChatServer.handle_read_body ChatServer.deliver
    ChatServer.deliver_each ChatServer.deliver_to ChatServer.pop_old ChatServer.written
    ChatMessage.decode_header ChatMessage.encode_header ChatMessage.set_body_length
    ChatMessage.c_string
lines_arrive_example =
    lines_arrive four_wide read_four four_wide-IsPrinter blank refl lines events new_client
      new_client 1 2 room deliveries (omega arith, (omega arith, tt))
      (record { no_msgs = refl; no_write = refl; no_tasks = refl }) refl refl
      (record { sound = room-IsSound; member = refl; empty = refl; reads = refl }) refl refl refl
