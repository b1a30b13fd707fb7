-- ===== src/Asio/ChatServer/Invariant.antt =====
-- What holds of the room and its sessions in every order of events.
use boost.Prelude.{◌≡◌, refl, ℕ, List, [], ◌∷◌, none, some, Bytes, arith, Bool-cases, inl, inr}
use boost.Prelude.Int.{ℤ}
use boost.Asio.Connection.{ErrorCode, success, operation_aborted, failure}
use boost.Asio.ChatMessage.{decode_header}
use boost.Asio.ChatServer.{
  header_part, body_part, Session, Room, join, leave, deliver, change, read_part, start,
  fill_header, fill_body, handle_read_header, handle_read_body, handle_write,
}
use boost.Asio.ChatServer.Soundness.{
  IsSound, change-IsSound, leave-IsSound, deliver-IsSound, join-IsSound, written-IsSound,
  failed-IsSound,
}

-- The next event: a session that nothing was sent to starts, or an operation under way completes.
pub data Step (atoi : Bytes → ℤ) (room : Room) : Room → Type 0 where
  started :
      (p : ℕ)
      → (room.sessions p).write_msgs ≡ []
      → (room.sessions p).writing ≡ []
      → Step atoi room (start p room)
  header_read :
      (p : ℕ) (e : ErrorCode) (bytes : Bytes)
      → (room.sessions p).reading ≡ some header_part
      → Step atoi room (handle_read_header atoi p e bytes room)
  body_read :
      (p : ℕ) (e : ErrorCode) (bytes : Bytes)
      → (room.sessions p).reading ≡ some body_part
      → Step atoi room (handle_read_body p e bytes room)
  was_written :
      (p : ℕ) (e : ErrorCode) (bytes : Bytes) (others : List Bytes)
      → (room.sessions p).writing ≡ bytes ∷ others
      → Step atoi room (handle_write p e room)

module _ (atoi : Bytes → ℤ) where
  stopped_reading-IsSound :
      (p : ℕ) (room : Room) → IsSound room → IsSound (leave p (change p (read_part none) room))
  stopped_reading-IsSound p room h =
      leave-IsSound p (change p (read_part none) room)
        (change-IsSound p (read_part none) room (λ c. (refl, refl)) h)

  pub handle_read_header-IsSound :
      (p : ℕ) (e : ErrorCode) (bytes : Bytes) (room : Room)
      → IsSound room
      → IsSound (handle_read_header atoi p e bytes room)
  unfolding handle_read_header
  handle_read_header-IsSound p success bytes room h =
      let decoded = decode_header atoi (fill_header bytes (room.sessions p).read_msg) in
      elim (Bool-cases decoded.1) [
        | inl e ↦
            rw (e, handle_read_header)
              (change-IsSound p (λ c. record c { read_msg = decoded.0; reading = some body_part })
                room (λ c. (refl, refl)) h)
        | inr e ↦
            let f = λ (c : Session). record c { read_msg = decoded.0; reading = none } in
            rw (e, handle_read_header)
              (leave-IsSound p (change p f room) (change-IsSound p f room (λ c. (refl, refl)) h))
      ]
  handle_read_header-IsSound p operation_aborted bytes room h = stopped_reading-IsSound p room h
  handle_read_header-IsSound p failure bytes room h = stopped_reading-IsSound p room h

  pub handle_read_body-IsSound :
      (p : ℕ) (e : ErrorCode) (bytes : Bytes) (room : Room)
      → IsSound room
      → IsSound (handle_read_body p e bytes room)
  unfolding handle_read_body
  handle_read_body-IsSound p success bytes room h =
      let msg = fill_body bytes (room.sessions p).read_msg in
      let f = λ (c : Session). record c { read_msg = msg; reading = none } in
      change-IsSound p (read_part (some header_part)) (deliver msg (change p f room))
        (λ c. (refl, refl))
        (deliver-IsSound msg (change p f room) (change-IsSound p f room (λ c. (refl, refl)) h))
  handle_read_body-IsSound p operation_aborted bytes room h = stopped_reading-IsSound p room h
  handle_read_body-IsSound p failure bytes room h = stopped_reading-IsSound p room h

  handle_write-IsSound :
      (p : ℕ) (e : ErrorCode) (room : Room) → IsSound room → IsSound (handle_write p e room)
  unfolding handle_write
  handle_write-IsSound p success room h = written-IsSound p room h
  handle_write-IsSound p operation_aborted room h = failed-IsSound p room h
  handle_write-IsSound p failure room h = failed-IsSound p room h

  Step-IsSound : {room next : Room} → Step atoi room next → IsSound room → IsSound next
  unfolding start
  Step-IsSound {room} (started p empty idle) h =
      change-IsSound p (read_part (some header_part)) (join p room) (λ c. (refl, refl))
        (join-IsSound p room empty idle h)
  Step-IsSound {room} (header_read p e bytes _) h = handle_read_header-IsSound p e bytes room h
  Step-IsSound {room} (body_read p e bytes _) h = handle_read_body-IsSound p e bytes room h
  Step-IsSound {room} (was_written p e bytes others _) h = handle_write-IsSound p e room h

pub data Reach (atoi : Bytes → ℤ) (room : Room) : Room → Type 0 where
  here : Reach atoi room room
  next : {t u : Room} → Reach atoi room t → Step atoi t u → Reach atoi room u

-- A room that nobody has joined.
pub record IsNew (room : Room) : Type 0 where
  pub nobody : room.participants ≡ []
  pub nothing : room.recent_msgs ≡ []
  pub idle : (j : ℕ) → (room.sessions j).writing ≡ []

-- In every run of the chat room from one that nobody has joined, the participants are distinct,
-- each participant has one write under way, that of the front of its queue, or none where its queue
-- is empty, every other session has that or none, and at most 100 recent messages are kept.
pub Reach-IsSound : (atoi : Bytes → ℤ) {room t : Room} → IsNew room → Reach atoi room t → IsSound t
Reach-IsSound atoi {room} new here = record {
  distinct = rw (new.nobody) tt;
  sending = λ j k. absurd (cc (new.nobody));
  front = λ j. inl (new.idle j);
  recent = rw (new.nothing) (omega arith);
}
Reach-IsSound atoi new (next r st) = Step-IsSound atoi st (Reach-IsSound atoi new r)
