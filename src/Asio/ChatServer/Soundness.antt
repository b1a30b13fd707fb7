-- ===== src/Asio/ChatServer/Soundness.antt =====
-- The room and its sessions under joining, leaving, delivering and writing.
use boost.Prelude.{
  ◌≡◌, ◌≤◌, ◌⊎◌, ◌∙◌, ℕ, true, List, [], ◌∷◌, ◌++◌, ap, drop, ◌==◌, length, Bool-cases, inl, inr,
  ==_iff,
}
use boost.Asio.Connection.{contains}
use boost.Asio.Connection.Sets.{
  IsDistinct, contains-erase_other, contains-erase_self, contains-insert_other, erase-IsDistinct,
  insert-IsDistinct,
}
use boost.Asio.ChatMessage.{ChatMessage}
use boost.Asio.ChatServer.{
  Session, Room, max_recent_msgs, deliver_to, deliver_all, join, leave, deliver, change, written,
  write_front, pop_front,
}
use boost.Asio.ChatServer.Delivery.{
  IsSending, written-IsSending, drop-write_front, deliver_to-IsSending, deliver_each_lem,
}
use boost.Asio.ChatServer.Recent.{pop_old-last, length-last}

-- The session of a participant sends the front of its queue; any session does so or sends nothing.
-- So the queue is not empty where a write is under way.
pub record IsSound (room : Room) : Type 0 where
  pub distinct : IsDistinct room.participants
  pub sending : (j : ℕ) → contains j room.participants ≡ true → IsSending (room.sessions j)
  pub front : (j : ℕ) → ((room.sessions j).writing ≡ []) ⊎ IsSending (room.sessions j)
  pub recent : length room.recent_msgs ≤ max_recent_msgs

-- A session whose queue and write stay.
abbrev pub IsQuiet : (Session → Session) → Type 0
IsQuiet f = (c : Session) → ((f c).write_msgs ≡ c.write_msgs) × ((f c).writing ≡ c.writing)

quiet-IsSending : (f : Session → Session) (c : Session) → IsQuiet f → IsSending c → IsSending (f c)
quiet-IsSending f c quiet h = rw ((quiet c).0, (quiet c).1) h

pub change-IsSound :
    (p : ℕ) (f : Session → Session) (room : Room)
    → IsQuiet f
    → IsSound room
    → IsSound (change p f room)
change-IsSound p f room quiet h = record {
  distinct = h.distinct;
  sending = λ j k. elim (Bool-cases (j == p)) [
    | inl e ↦ rw e (quiet-IsSending f (room.sessions j) quiet (h.sending j k))
    | inr e ↦ rw e (h.sending j k)
  ];
  front = λ j. elim (Bool-cases (j == p)) [
    | inl e ↦ rw e (elim (h.front j) [
      | inl idle ↦ inl ((quiet (room.sessions j)).1 ∙ idle)
      | inr s ↦ inr (quiet-IsSending f (room.sessions j) quiet s)
    ])
    | inr e ↦ rw e (h.front j)
  ];
  recent = h.recent;
}

pub leave-IsSound : (p : ℕ) (room : Room) → IsSound room → IsSound (leave p room)
unfolding leave
leave-IsSound p room h = record {
  distinct = erase-IsDistinct p room.participants h.distinct;
  sending = λ j k. h.sending j (contains-erase_other j p room.participants k);
  front = h.front;
  recent = h.recent;
}

pub deliver-IsSound : (msg : ChatMessage) (room : Room) → IsSound room → IsSound (deliver msg room)
unfolding deliver
deliver-IsSound msg room h = record {
  distinct = h.distinct;
  sending = λ j k.
      rw (deliver_each_lem msg room.participants room.sessions j h.distinct, k)
        (deliver_to-IsSending msg (room.sessions j) (h.sending j k));
  front = λ j. elim (Bool-cases (contains j room.participants)) [
    | inl k ↦ inr (
        rw (deliver_each_lem msg room.participants room.sessions j h.distinct, k)
          (deliver_to-IsSending msg (room.sessions j) (h.sending j k)))
    | inr k ↦ rw (deliver_each_lem msg room.participants room.sessions j h.distinct, k) (h.front j)
  ];
  recent =
      rw (pop_old-last (room.recent_msgs ++ msg ∷ []))
        (length-last max_recent_msgs (room.recent_msgs ++ msg ∷ []));
}

deliver_all-IsSending :
    (msgs : List ChatMessage) (c : Session) → IsSending c → IsSending (deliver_all msgs c)
unfolding deliver_all
deliver_all-IsSending [] c h = h
deliver_all-IsSending (msg ∷ msgs) c h =
    deliver_all-IsSending msgs (deliver_to msg c) (deliver_to-IsSending msg c h)

pub join-IsSound :
    (p : ℕ) (room : Room)
    → (room.sessions p).write_msgs ≡ []
    → (room.sessions p).writing ≡ []
    → IsSound room
    → IsSound (join p room)
unfolding join
join-IsSound p room empty idle h =
    let at : IsSending (room.sessions p) = rw (empty, idle) in
    let ready : IsSending (deliver_all room.recent_msgs (room.sessions p)) =
      deliver_all-IsSending room.recent_msgs (room.sessions p) at in
    record {
      distinct = insert-IsDistinct p room.participants h.distinct;
      sending = λ j k. elim (Bool-cases (j == p)) [
        | inl e ↦ let same : j ≡ p = (==_iff j p).0 e in rw (e, same) ready
        | inr e ↦ rw e (h.sending j (contains-insert_other j p room.participants e k))
      ];
      front = λ j. elim (Bool-cases (j == p)) [
        | inl e ↦ let same : j ≡ p = (==_iff j p).0 e in rw (e, same) (inr ready)
        | inr e ↦ rw e (h.front j)
      ];
      recent = h.recent;
    }

pub written-IsSound : (p : ℕ) (room : Room) → IsSound room → IsSound (change p written room)
unfolding written
written-IsSound p room h = record {
  distinct = h.distinct;
  sending = λ j k. elim (Bool-cases (j == p)) [
    | inl e ↦ rw e (written-IsSending (room.sessions j) (h.sending j k))
    | inr e ↦ rw e (h.sending j k)
  ];
  front = λ j. elim (Bool-cases (j == p)) [
    | inl e ↦ rw e (
        inr (elim (h.front j) [
          | inl idle ↦
              ap (λ w. drop 1 w ++ write_front (pop_front (room.sessions j).write_msgs)) idle
          | inr s ↦ written-IsSending (room.sessions j) s
        ]))
    | inr e ↦ rw e (h.front j)
  ];
  recent = h.recent;
}

pub failed-IsSound :
    (p : ℕ) (room : Room)
    → IsSound room
    → IsSound (leave p (change p (λ c. record c { writing = drop 1 c.writing }) room))
unfolding leave
failed-IsSound p room h = record {
  distinct = erase-IsDistinct p room.participants h.distinct;
  sending = λ j k. elim (Bool-cases (j == p)) [
    | inl e ↦
        let same : j ≡ p = (==_iff j p).0 e in absurd (cc (contains-erase_self p room.participants))
    | inr e ↦ rw e (h.sending j (contains-erase_other j p room.participants k))
  ];
  front = λ j. elim (Bool-cases (j == p)) [
    | inl e ↦ rw e (
        inl (elim (h.front j) [
          | inl idle ↦ ap (drop 1) idle
          | inr s ↦ ap (drop 1) s ∙ drop-write_front (room.sessions j).write_msgs
        ]))
    | inr e ↦ rw e (h.front j)
  ];
  recent = h.recent;
}
