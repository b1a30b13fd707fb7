-- ===== src/Asio/ChatClient/Sending.antt =====
-- What a client sends.
use boost.Prelude.{
  ◌≡◌, refl, sym, ap, ◌∙◌, List, [], ◌∷◌, ◌++◌, Bytes, map, append-nil, append_assoc,
}
use boost.Asio.Connection.{success}
use boost.Asio.ChatMessage.{ChatMessage}
use boost.Asio.ChatServer.{wire, write_front, pop_front}
use boost.Asio.ChatServer.Delivery.{sending_append, sending_next}
use boost.Asio.ChatClient.{
  Task, do_write_task, do_close_task, Client, do_write, write, run_task, run_next, handle_write,
}

-- The main thread writes a message, the io_service runs what was posted, or a write succeeds.
pub data Event : Type 0 where
  wrote : ChatMessage → Event
  ran sent : Event

unfoldable pub wrote_msgs : List Event → List ChatMessage
wrote_msgs [] = []
wrote_msgs (wrote msg ∷ events) = msg ∷ wrote_msgs events
wrote_msgs (ran ∷ events) = wrote_msgs events
wrote_msgs (sent ∷ events) = wrote_msgs events

unfoldable pub posted_msgs : List Task → List ChatMessage
posted_msgs [] = []
posted_msgs (do_write_task msg ∷ tasks) = msg ∷ posted_msgs tasks
posted_msgs (do_close_task ∷ tasks) = posted_msgs tasks

-- The bytes that were written, and the client.
unfoldable pub play : List Event → Client → List Bytes × Client
play [] c = ([], c)
play (wrote msg ∷ events) c = play events (write msg c)
play (ran ∷ events) c = play events (run_next c)
play (sent ∷ events) c = elim c.writing [
  | [] ↦ play events c
  | bytes ∷ _ ↦ let later = play events (handle_write success c) in (bytes ∷ later.0, later.1)
]

-- What a client still has to write.
unfoldable pub remaining : Client → List ChatMessage
unfolding posted_msgs
remaining c = c.write_msgs ++ posted_msgs c.posted

abbrev pub IsSending : Client → Type 0
IsSending c = c.writing ≡ write_front c.write_msgs

posted_msgs-append :
    (tasks : List Task) (msg : ChatMessage)
    → posted_msgs (tasks ++ do_write_task msg ∷ []) ≡ posted_msgs tasks ++ msg ∷ []
unfolding posted_msgs
posted_msgs-append [] msg = refl
posted_msgs-append (do_write_task m ∷ tasks) msg = ap (◌∷◌ m) (posted_msgs-append tasks msg)
posted_msgs-append (do_close_task ∷ tasks) msg = posted_msgs-append tasks msg

remaining-write :
    (msg : ChatMessage) (c : Client) → remaining (write msg c) ≡ remaining c ++ msg ∷ []
unfolding remaining write
remaining-write msg c =
    ap (λ l. c.write_msgs ++ l) (posted_msgs-append c.posted msg)
    ∙ sym (append_assoc c.write_msgs (posted_msgs c.posted) (msg ∷ []))

-- To run what was posted moves a message to the queue.
run_next_at :
    (tasks : List Task) (c : Client)
    → c.posted ≡ tasks
    → IsSending c
    → (remaining (run_next c) ≡ remaining c) × IsSending (run_next c)
unfolding remaining run_next run_task do_write posted_msgs
run_next_at [] c e h = rw e (refl, h)
run_next_at (do_write_task msg ∷ tasks) c e h = rw e (
  append_assoc c.write_msgs (msg ∷ []) (posted_msgs tasks),
  sending_append c.write_msgs c.writing msg h,
)
run_next_at (do_close_task ∷ tasks) c e h = rw e (refl, h)

IsInOrder : List Event → Client → Type 0
unfolding play remaining wrote_msgs
IsInOrder events c =
    (play events c).0 ++ map wire (remaining (play events c).1)
    ≡ map wire (remaining c ++ wrote_msgs events)

play_idle :
    (events : List Event) (c : Client) → c.writing ≡ [] → play (sent ∷ events) c ≡ play events c
unfolding play
play_idle events c e = rw e refl

play-handle_write :
    (events : List Event) (c : Client) (bytes : Bytes) (others : List Bytes)
    → c.writing ≡ bytes ∷ others
    → play (sent ∷ events) c
      ≡ (bytes ∷ (play events (handle_write success c)).0, (play events (handle_write success c)).1)
unfolding play
play-handle_write events c bytes others e = rw e refl

play_sent :
    (events : List Event) (c : Client) (l : List ChatMessage)
    → c.write_msgs ≡ l
    → IsSending c
    → IsInOrder events c
    → IsInOrder events (handle_write success c)
    → IsInOrder (sent ∷ events) c
unfolding IsInOrder remaining handle_write wrote_msgs
play_sent events c [] e h idle behind = rw (play_idle events c (h ∙ ap write_front e)) idle
play_sent events c (m ∷ l) e h idle behind =
    let front : c.writing ≡ wire m ∷ [] = h ∙ ap write_front e in
    let rest : pop_front c.write_msgs ≡ l = ap pop_front e in
    rw (play-handle_write events c (wire m) [] front) (ap (◌∷◌ (wire m)) behind ∙ rw (rest, e) refl)

-- If a client sends the front of its queue, then whatever it writes, whenever the io_service runs
-- what it posted and whenever a write succeeds, the bytes written and then what remains are the
-- messages that remained and those that it wrote, each once and in order.
pub play-wrote_msgs :
    (events : List Event) (c : Client)
    → IsSending c
    → (play events c).0 ++ map wire (remaining (play events c).1)
      ≡ map wire (remaining c ++ wrote_msgs events)
unfolding IsInOrder wrote_msgs play write handle_write
play-wrote_msgs [] c h = ap (map wire) (sym (append-nil (remaining c)))
play-wrote_msgs (wrote msg ∷ events) c h =
    play-wrote_msgs events (write msg c) h
    ∙ ap (λ l. map wire (l ++ wrote_msgs events)) (remaining-write msg c)
    ∙ ap (map wire) (append_assoc (remaining c) (msg ∷ []) (wrote_msgs events))
play-wrote_msgs (ran ∷ events) c h =
    let (same, sending) = run_next_at c.posted c refl h in
    play-wrote_msgs events (run_next c) sending ∙ ap (λ l. map wire (l ++ wrote_msgs events)) same
play-wrote_msgs (sent ∷ events) c h =
    play_sent events c c.write_msgs refl h (play-wrote_msgs events c h) (
      play-wrote_msgs events (handle_write success c)
        (sending_next c.write_msgs (pop_front c.write_msgs) c.writing h))
