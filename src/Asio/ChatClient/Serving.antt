-- ===== src/Asio/ChatClient/Serving.antt =====
-- What the server's session makes of the lines that a client sends to it.
use boost.Prelude.{
  ◌≡◌, ◌≤◌, refl, ap, ◌∙◌, sym, subst, ℕ, true, List, [], ◌∷◌, ◌++◌, Bool, false, some, none, Bytes,
  All, map, length, append_assoc, append-nil, if◌then◌else◌, if_induct, eq_refl,
}
use mathlib.Core.List.{map-append}
use boost.Prelude.Int.{ℤ}
use boost.Asio.Connection.{success, contains}
use boost.Asio.ChatMessage.{ChatMessage, max_body_length}
use boost.Asio.ChatMessage.RoundTrip.{IsPrinter}
use boost.Asio.ChatServer.{
  header_part, body_part, Session, Room, wire, update, read_part, leave, deliver, change,
  fill_header, fill_body, handle_read_header, handle_read_body,
}
use boost.Asio.ChatServer.Delivery.{deliver-sessions}
use boost.Asio.ChatServer.Soundness.{IsSound}
use boost.Asio.ChatServer.Invariant.{handle_read_header-IsSound, handle_read_body-IsSound}
use boost.Asio.ChatClient.Frames.{frame, filled, decode_frame, wire-filled}
use boost.Asio.ChatClient.Reader.{Reader, IsFramed, take_line, take_lines}

abbrev pub session_reader : (atoi : Bytes → ℤ) → ℕ → Reader Room
session_reader atoi p = record {
  part = λ room. (room.sessions p).reading;
  size = λ room. (room.sessions p).read_msg.body_length_;
  on_header = handle_read_header atoi p;
  on_body = handle_read_body p;
}

update-write_msgs :
    (p q : ℕ) (f : Session → Session) (sessions : ℕ → Session)
    → ((c : Session) → (f c).write_msgs ≡ c.write_msgs)
    → (update p f sessions q).write_msgs ≡ (sessions q).write_msgs
update-write_msgs p q f sessions h =
    if_induct (λ (c : Session). c.write_msgs ≡ (sessions q).write_msgs) _ _ _ (λ _. h (sessions q))
      (λ _. refl)

update_own :
    (p : ℕ) (f : Session → Session) (sessions : ℕ → Session)
    → update p f sessions p ≡ f (sessions p)
update_own p f sessions = rw (eq_refl p) refl

-- The room behind a body.
handle_read_body-write_msgs :
    (p q : ℕ) (line : Bytes) (room : Room)
    → IsSound room
    → contains q room.participants ≡ true
    → ((handle_read_body p success line room).sessions q).write_msgs
      ≡ (room.sessions q).write_msgs ++ fill_body line (room.sessions p).read_msg ∷ []
unfolding handle_read_body
handle_read_body-write_msgs p q line room h member =
    let msg = fill_body line (room.sessions p).read_msg in
    let f = λ (c : Session). record c { read_msg = msg; reading = none } in
    let before = change p f room in
    update-write_msgs p q (read_part (some header_part)) (deliver msg before).sessions (λ c. refl)
    ∙ subst
        (λ b. ((deliver msg before).sessions q).write_msgs ≡ (
          if b then (before.sessions q).write_msgs ++ msg ∷ [] else (before.sessions q).write_msgs))
        member (deliver-sessions msg before q h.distinct)
    ∙ ap (λ l. l ++ msg ∷ []) (update-write_msgs p q f room.sessions (λ c. refl))

-- What one line does to the room: the message of the line waits for the participant as well.
record IsServed (q : ℕ) (line_frame : Bytes) (room next : Room) : Type 0 where
  sound : IsSound next
  member : contains q next.participants ≡ true
  waits :
      map wire (next.sessions q).write_msgs
      ≡ map wire (room.sessions q).write_msgs ++ line_frame ∷ []

module _ (sprintf_4d : ℕ → Bytes) (atoi : Bytes → ℤ) (laws : IsPrinter sprintf_4d atoi) where
  -- The session behind the header of a line, which had that message.
  header_read : Bytes → ChatMessage → Session → Session
  header_read line m c = record c {
    read_msg = record (fill_header (sprintf_4d (length line)) m) { body_length_ = length line };
    reading = some body_part;
  }

  handle_read_header-change :
      (p : ℕ) (line : Bytes) (room : Room)
      → length line ≤ max_body_length
      → handle_read_header atoi p success (sprintf_4d (length line)) room
        ≡ change p (header_read line (room.sessions p).read_msg) room
  unfolding handle_read_header header_read
  handle_read_header-change p line room small =
      ap
        (λ (d : ChatMessage × Bool). elim d.1 [
          | true ↦ change p (λ c. record c { read_msg = d.0; reading = some body_part }) room
          | false ↦ leave p (change p (λ c. record c { read_msg = d.0; reading = none }) room)
        ])
        (decode_frame sprintf_4d atoi laws line (room.sessions p).read_msg small)

  pub session-IsFramed : (p : ℕ) → IsFramed sprintf_4d (session_reader atoi p)
  unfolding header_read handle_read_body
  session-IsFramed p = record {
    announced = λ line room small e.
        let same = handle_read_header-change p line room small in
        let own = update_own p (header_read line (room.sessions p).read_msg) room.sessions in
        (
          ap (λ (r : Room). (r.sessions p).reading) same ∙ ap (λ (c : Session). c.reading) own,
          ap (λ (r : Room). (r.sessions p).read_msg.body_length_) same
              ∙ ap (λ (c : Session). c.read_msg.body_length_) own,
        );
    again = λ line room. rw (eq_refl p) refl;
  }

  take_line-IsServed :
      (p q : ℕ) (line : Bytes) (room : Room)
      → length line ≤ max_body_length
      → IsSound room
      → contains q room.participants ≡ true
      → IsServed q
          (frame sprintf_4d line)
          room
          (take_line sprintf_4d (session_reader atoi p) line room)
  unfolding take_line header_read handle_read_body
  take_line-IsServed p q line room small h member =
      let old = (room.sessions p).read_msg in
      let bytes = sprintf_4d (length line) in
      let headed = handle_read_header atoi p success bytes room in
      let changed = change p (header_read line old) room in
      let same = handle_read_header-change p line room small in
      let own = update_own p (header_read line old) room.sessions in
      let kept = update-write_msgs p q (header_read line old) room.sessions (λ c. refl) in
      let sound : IsSound headed = handle_read_header-IsSound atoi p success bytes room h in
      let joined : contains q headed.participants ≡ true =
        subst (λ (r : Room). contains q r.participants ≡ true) (sym same) member in
      let message : fill_body line (headed.sessions p).read_msg
          ≡ filled sprintf_4d atoi laws line old =
        ap (λ (r : Room). fill_body line (r.sessions p).read_msg) same
        ∙ ap (λ (c : Session). fill_body line c.read_msg) own in
      record {
        sound = handle_read_body-IsSound atoi p success line headed sound;
        member = joined;
        waits =
            ap (map wire) (handle_read_body-write_msgs p q line headed sound joined)
            ∙ map-append wire (headed.sessions q).write_msgs _
            ∙ ap (λ l. map wire l ++ wire (fill_body line (headed.sessions p).read_msg) ∷ [])
                (ap (λ (r : Room). (r.sessions q).write_msgs) same ∙ kept)
            ∙ ap (λ m. map wire (room.sessions q).write_msgs ++ m ∷ [])
                (ap wire message ∙ wire-filled sprintf_4d atoi laws line old small);
      }

  -- The messages of lines that reach the session p wait, in order, for the participant q.
  pub take_lines-waits :
      (p q : ℕ) (lines : List Bytes) (room : Room)
      → All (λ line. length line ≤ max_body_length) lines
      → IsSound room
      → contains q room.participants ≡ true
      → let end = take_lines sprintf_4d (session_reader atoi p) lines room in
        IsSound end
        × (contains q end.participants ≡ true)
        × (map wire (end.sessions q).write_msgs
            ≡ map wire (room.sessions q).write_msgs ++ map (frame sprintf_4d) lines)
  unfolding take_lines
  take_lines-waits p q [] room small h member =
      (h, member, sym (append-nil (map wire (room.sessions q).write_msgs)))
  take_lines-waits p q (line ∷ lines) room (here, small) h member =
      let served = take_line-IsServed p q line room here h member in
      let (sound, joined, waits) =
        take_lines-waits p q lines (take_line sprintf_4d (session_reader atoi p) line room) small
          served.sound served.member in
      (
        sound,
        joined,
        waits
            ∙ ap (λ l. l ++ map (frame sprintf_4d) lines) served.waits
            ∙ append_assoc (map wire (room.sessions q).write_msgs) (frame sprintf_4d line ∷ [])
                (map (frame sprintf_4d) lines),
      )
