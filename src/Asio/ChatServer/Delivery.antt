-- ===== src/Asio/ChatServer/Delivery.antt =====
-- Who gets a message, and in which order it is sent.
use boost.Prelude.{
  ◌≡◌, refl, ap, ◌∙◌, ℕ, false, List, [], ◌∷◌, ◌++◌, ◌==◌, if◌then◌else◌, Bytes, drop, append-nil,
  append_assoc, map, Bool-cases, inl, inr, ==_iff,
}
use boost.Asio.Connection.{contains}
use boost.Asio.Connection.Sets.{IsDistinct}
use boost.Asio.ChatMessage.{ChatMessage}
use boost.Asio.ChatServer.{
  Session, Room, wire, write_front, deliver_to, update, deliver_all, deliver_each, deliver,
  pop_front, written,
}

pub deliver_each_lem :
    (msg : ChatMessage) (ps : List ℕ) (sessions : ℕ → Session) (j : ℕ)
    → IsDistinct ps
    → deliver_each msg ps sessions j
      ≡ (if contains j ps then deliver_to msg (sessions j) else sessions j)
unfolding deliver_each
deliver_each_lem msg [] sessions j h = refl
deliver_each_lem msg (p ∷ ps) sessions j (fresh, h) =
    deliver_each_lem msg ps (update p (deliver_to msg) sessions) j h ∙ elim (Bool-cases (j == p)) [
      | inl e ↦
          let same : j ≡ p = (==_iff j p).0 e in
          let absent : contains j ps ≡ false = rw same fresh in rw (absent, e)
      | inr e ↦ rw e
    ]

deliver_all-write_msgs :
    (msgs : List ChatMessage) (c : Session) → (deliver_all msgs c).write_msgs ≡ c.write_msgs ++ msgs
unfolding deliver_all deliver_to
deliver_all-write_msgs [] c = rw append-nil
deliver_all-write_msgs (msg ∷ msgs) c =
    deliver_all-write_msgs msgs (deliver_to msg c) ∙ append_assoc c.write_msgs (msg ∷ []) msgs

-- If the participants are distinct, a message that is delivered in the room is put once at the end
-- of the queue of each participant, and no other queue changes.
pub deliver-sessions :
    (msg : ChatMessage) (room : Room) (j : ℕ)
    → IsDistinct room.participants
    → ((deliver msg room).sessions j).write_msgs ≡ (
        if contains j room.participants
        then (room.sessions j).write_msgs ++ msg ∷ []
        else (room.sessions j).write_msgs)
unfolding deliver deliver_to
deliver-sessions msg room j h =
    rw (deliver_each_lem msg room.participants room.sessions j h)
      (elim (Bool-cases (contains j room.participants)) [ inl e ↦ rw e | inr e ↦ rw e ])

-- The write of a session is that of the front of its queue.
abbrev pub IsSending : Session → Type 0
IsSending c = c.writing ≡ write_front c.write_msgs

pub sending_append :
    (l : List ChatMessage) (w : List Bytes) (msg : ChatMessage)
    → w ≡ write_front l
    → elim l as (λ l'. List Bytes) [ [] ↦ w ++ write_front (l ++ msg ∷ []) | _ ∷ _ ↦ w ]
      ≡ write_front (l ++ msg ∷ [])
sending_append [] w msg h = rw h
sending_append (m ∷ l) w msg h = h

pub deliver_to-IsSending :
    (msg : ChatMessage) (c : Session) → IsSending c → IsSending (deliver_to msg c)
unfolding deliver_to
deliver_to-IsSending msg c h = sending_append c.write_msgs c.writing msg h

-- At most one write is under way, so behind it there is none.
pub drop-write_front : (l : List ChatMessage) → drop 1 (write_front l) ≡ []
drop-write_front [] = refl
drop-write_front (msg ∷ l) = refl

-- The next write is the only one.
pub sending_next :
    (l next : List ChatMessage) (w : List Bytes)
    → w ≡ write_front l
    → drop 1 w ++ write_front next ≡ write_front next
sending_next l next w h =
    ap (λ v. drop 1 v ++ write_front next) h ∙ ap (λ v. v ++ write_front next) (drop-write_front l)

pub written-IsSending : (c : Session) → IsSending c → IsSending (written c)
unfolding written
written-IsSending c h = sending_next c.write_msgs (pop_front c.write_msgs) c.writing h

-- What happens to a session: a message is delivered to it, or its write succeeds.
pub data Event : Type 0 where
  said : ChatMessage → Event
  sent : Event

abbrev pub said_msgs : List Event → List ChatMessage
said_msgs [] = []
said_msgs (said msg ∷ events) = msg ∷ said_msgs events
said_msgs (sent ∷ events) = said_msgs events

-- The bytes that were written, and the session.
abbrev pub play : List Event → Session → List Bytes × Session
play [] c = ([], c)
play (said msg ∷ events) c = play events (deliver_to msg c)
play (sent ∷ events) c = elim c.writing [
  | [] ↦ play events c
  | bytes ∷ _ ↦ let later = play events (written c) in (bytes ∷ later.0, later.1)
]

play_idle :
    (events : List Event) (c : Session) → c.writing ≡ [] → play (sent ∷ events) c ≡ play events c
play_idle events c e = rw e

play-written :
    (events : List Event) (c : Session) (bytes : Bytes) (others : List Bytes)
    → c.writing ≡ bytes ∷ others
    → play (sent ∷ events) c ≡ (bytes ∷ (play events (written c)).0, (play events (written c)).1)
play-written events c bytes others e = rw e

-- What is written and what waits is what waited and was said.
abbrev IsInOrder : List Event → Session → Type 0
IsInOrder events c =
    (play events c).0 ++ map wire (play events c).1.write_msgs
    ≡ map wire (c.write_msgs ++ said_msgs events)

play_sent :
    (events : List Event) (c : Session) (l : List ChatMessage)
    → c.write_msgs ≡ l
    → IsSending c
    → IsInOrder events c
    → IsInOrder events (written c)
    → IsInOrder (sent ∷ events) c
unfolding written
play_sent events c [] e h idle behind =
    let none_sent : c.writing ≡ [] = h ∙ ap write_front e in rw (play_idle events c none_sent) idle
play_sent events c (m ∷ l) e h idle behind =
    let front : c.writing ≡ wire m ∷ [] = h ∙ ap write_front e in
    let rest : pop_front c.write_msgs ≡ l = ap pop_front e in
    rw (play-written events c (wire m) [] front) (ap (◌∷◌ (wire m)) behind ∙ rw (rest, e))

in_order : (events : List Event) (c : Session) → IsSending c → IsInOrder events c
unfolding written deliver_to
in_order [] c h = rw append-nil
in_order (said msg ∷ events) c h =
    in_order events (deliver_to msg c) (deliver_to-IsSending msg c h)
    ∙ ap (map wire) (append_assoc c.write_msgs (msg ∷ []) (said_msgs events))
in_order (sent ∷ events) c h =
    play_sent events c c.write_msgs refl h (in_order events c h)
      (in_order events (written c) (written-IsSending c h))

play_sent-IsSending :
    (events : List Event) (c : Session) (w : List Bytes)
    → c.writing ≡ w
    → IsSending (play events c).1
    → IsSending (play events (written c)).1
    → IsSending (play (sent ∷ events) c).1
play_sent-IsSending events c [] e idle behind = rw (play_idle events c e) idle
play_sent-IsSending events c (bytes ∷ others) e idle behind =
    rw (play-written events c bytes others e) behind

play-IsSending : (events : List Event) (c : Session) → IsSending c → IsSending (play events c).1
play-IsSending [] c h = h
play-IsSending (said msg ∷ events) c h =
    play-IsSending events (deliver_to msg c) (deliver_to-IsSending msg c h)
play-IsSending (sent ∷ events) c h =
    play_sent-IsSending events c c.writing refl (play-IsSending events c h)
      (play-IsSending events (written c) (written-IsSending c h))

-- If a chat session has one write under way, that of the front of its queue, or none where the
-- queue is empty, then whatever is delivered to it and whenever its writes succeed, what it has
-- written and then what still waits are the messages that waited and those that were delivered,
-- each once and in order; and again it has exactly the write of the front of its queue under way,
-- or none where the queue is empty.
pub play-said_msgs :
    (events : List Event) (c : Session)
    → c.writing ≡ write_front c.write_msgs
    → ((play events c).0 ++ map wire (play events c).1.write_msgs
        ≡ map wire (c.write_msgs ++ said_msgs events))
      × ((play events c).1.writing ≡ write_front (play events c).1.write_msgs)
play-said_msgs events c h = (in_order events c h, play-IsSending events c h)
