-- ===== src/Asio/ChatServer/Recent.antt =====
-- The recent messages that the room of chat/chat_server.cpp keeps.
use boost.Prelude.{
  ◌+◌, ◌-◌, ◌≡◌, ◌≤◌, refl, sym, ap, ◌∙◌, ℕ, suc, List, [], ◌∷◌, ◌++◌, ltb, length, length-append,
  length-drop, drop-append_le, drop-drop, drop, append-nil, append_assoc, arith, Bool-cases, inl,
  inr,
}
use boost.Asio.ChatMessage.{ChatMessage}
use boost.Asio.ChatServer.{Room, max_recent_msgs, pop_old, deliver}

-- The last so many messages.
abbrev pub last : ℕ → List ChatMessage → List ChatMessage
last n msgs = drop (length msgs - n) msgs

pub pop_old-last : (msgs : List ChatMessage) → pop_old msgs ≡ last max_recent_msgs msgs
unfolding pop_old
pop_old-last [] = refl
pop_old-last (msg ∷ msgs) = elim (Bool-cases (ltb max_recent_msgs (length (msg ∷ msgs)))) [
  | inl e ↦
      let shift : length (msg ∷ msgs) - max_recent_msgs ≡ suc (length msgs - max_recent_msgs) =
        ground arith in
      rw (e, pop_old) (rw shift (pop_old-last msgs))
  | inr e ↦
      let short : length (msg ∷ msgs) - max_recent_msgs ≡ 0 = ground arith in
      rw (e, pop_old) (rw short)
]

-- Messages that are said in the room, one after the other.
abbrev pub deliver_list : List ChatMessage → Room → Room
deliver_list [] room = room
deliver_list (msg ∷ msgs) room = deliver_list msgs (deliver msg room)

last_append :
    (n : ℕ) (msgs more : List ChatMessage) → last n (last n msgs ++ more) ≡ last n (msgs ++ more)
last_append n msgs more =
    let k = length msgs - n in
    let whole : drop k msgs ++ more ≡ drop k (msgs ++ more) =
      sym (drop-append_le k msgs more (omega arith)) in
    let place : k + (length (drop k (msgs ++ more)) - n) ≡ length (msgs ++ more) - n =
      rw length-drop (omega (arith, length-append msgs more)) in
    rw whole (
      drop-drop (length (drop k (msgs ++ more)) - n) k (msgs ++ more)
      ∙ ap (λ m. drop m (msgs ++ more)) place)

last_short : (n : ℕ) (msgs : List ChatMessage) → length msgs ≤ n → last n msgs ≡ msgs
last_short n msgs h = let none_dropped : length msgs - n ≡ 0 = omega arith in rw none_dropped

pub length-last : (n : ℕ) (msgs : List ChatMessage) → length (last n msgs) ≤ n
length-last n msgs = rw length-drop (omega arith)

-- If at most 100 recent messages are kept, then behind any sequence of deliveries the recent
-- messages are the last 100 of those that were kept and those that were delivered.
pub deliver_list-recent_msgs :
    (msgs : List ChatMessage) (room : Room)
    → length room.recent_msgs ≤ max_recent_msgs
    → (deliver_list msgs room).recent_msgs ≡ last max_recent_msgs (room.recent_msgs ++ msgs)
unfolding deliver
deliver_list-recent_msgs [] room h =
    rw append-nil (sym (last_short max_recent_msgs room.recent_msgs h))
deliver_list-recent_msgs (msg ∷ msgs) room h =
    let longer = room.recent_msgs ++ msg ∷ [] in
    let kept : (deliver msg room).recent_msgs ≡ last max_recent_msgs longer = pop_old-last longer in
    let short : length (deliver msg room).recent_msgs ≤ max_recent_msgs =
      rw kept (length-last max_recent_msgs longer) in
    deliver_list-recent_msgs msgs (deliver msg room) short
    ∙ rw kept (last_append max_recent_msgs longer msgs ∙ rw append_assoc)
