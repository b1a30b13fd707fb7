-- ===== src/Asio/HttpServer/Tidy.antt =====
-- What the methods of a connection leave of the set of the manager.
use boost.Prelude.{
  ◌≡◌, ◌≢◌, refl, ◌∙◌, ℕ, Bool, true, false, List, [], ◌∷◌, none, ◌==◌, if◌then◌else◌, Bytes,
  Bool-cases, inl, inr, ==_iff,
}
use boost.Asio.RequestParser.{Tribool, is_true, is_false, indeterminate, parse}
use boost.Asio.RequestHandler.{Environment}
use boost.Asio.Connection.{
  ErrorCode, success, operation_aborted, failure, Connection, World, close, start, stop,
  handle_read, handle_write, contains, erase,
}
use boost.Asio.Connection.Sets.{contains-insert, contains-insert_self, contains-erase}
use boost.Asio.HttpServer.{Server, put, call, stop_each}

-- An open connection with an operation under way is in the manager's set.
abbrev pub IsKept : List ℕ → ℕ → Connection → Type 0
IsKept ps i c = c.pending ≢ none → c.is_open ≡ true → contains i ps ≡ true

abbrev pub IsAccounted : Server → Type 0
IsAccounted s = (i : ℕ) → IsKept s.connections i (s.objects i)

-- A method that leaves its own connection kept, and takes no other from the set.
pub record IsTidy (i : ℕ) (w v : World) : Type 0 where
  pub own : IsKept w.connections i w.self → IsKept v.connections i v.self
  pub others :
      (j : ℕ) → (j == i) ≡ false → contains j w.connections ≡ true → contains j v.connections ≡ true

abbrev pub world : ℕ → Server → World
world i s = record { connections = s.connections; self = s.objects i }

pub call-IsAccounted :
    (method : World → World) (i : ℕ) (s : Server)
    → IsTidy i (world i s) (method (world i s))
    → IsAccounted s
    → IsAccounted (call method i s)
call-IsAccounted method i s tidy h j = elim (Bool-cases (j == i)) [
  | inl e ↦
      let same : j ≡ i = (==_iff j i).0 e in
      let kept : IsKept s.connections i (s.objects i) = h i in rw e (rw same (tidy.own kept))
  | inr e ↦ rw e (λ p o. tidy.others j e (h j p o))
]

pub start-IsTidy : (i : ℕ) (w : World) → IsTidy i w (start i w)
unfolding start
start-IsTidy i w = record {
  own = λ k p o. contains-insert_self i w.connections;
  others = λ j ne k. contains-insert j i w.connections k;
}

-- A connection that is closed and erased.
closed-IsTidy :
    (i : ℕ) (w v : World)
    → v.self.is_open ≡ false
    → v.connections ≡ erase i w.connections
    → IsTidy i w v
closed-IsTidy i w v shut erased = record {
  own = λ k p o. cc;
  others = λ j ne k. rw erased (contains-erase j i w.connections ne k);
}

-- One whose operation is over, or one that keeps its socket and its place in the set.
idle-IsTidy :
    (i : ℕ) (w v : World) → v.self.pending ≡ none → v.connections ≡ w.connections → IsTidy i w v
idle-IsTidy i w v idle same = record {
  own = λ k p o. absurd (p idle);
  others = λ j ne k. rw same k;
}

busy-IsTidy :
    (i : ℕ) (w v : World)
    → w.self.pending ≢ none
    → v.self.is_open ≡ w.self.is_open
    → v.connections ≡ w.connections
    → IsTidy i w v
busy-IsTidy i w v busy open_too same = record {
  own = λ k p o. rw same (k busy (rw⁻¹ open_too o));
  others = λ j ne k. rw same k;
}

pub handle_write-IsTidy : (i : ℕ) (e : ErrorCode) (w : World) → IsTidy i w (handle_write i e w)
unfolding handle_write stop
handle_write-IsTidy i success w = closed-IsTidy i w _ refl refl
handle_write-IsTidy i operation_aborted w = idle-IsTidy i w _ refl refl
handle_write-IsTidy i failure w = closed-IsTidy i w _ refl refl

pub either-IsAccounted :
    (b : Bool) (s t : Server) → IsAccounted s → IsAccounted t → IsAccounted (if b then s else t)
either-IsAccounted true s t h k = h
either-IsAccounted false s t h k = k

pub stop_each_lem :
    (ps : List ℕ) (objects : ℕ → Connection) (i : ℕ)
    → stop_each ps objects i ≡ (if contains i ps then close (objects i) else objects i)
unfolding stop_each
stop_each_lem [] objects i = refl
stop_each_lem (p ∷ ps) objects i =
    stop_each_lem ps (put p (close (objects p)) objects) i ∙ elim (Bool-cases (i == p)) [
      | inl e ↦
          let same : i ≡ p = (==_iff i p).0 e in
          rw (e, same) (elim (Bool-cases (contains p ps)) [ inl f ↦ rw f | inr f ↦ rw f ])
      | inr e ↦ rw e
    ]

module _ (env : Environment) (doc_root : Bytes) where
  handle_read-IsTidy_result :
      (i : ℕ) (bytes : Bytes) (w : World) (r : Tribool)
      → (parse w.self.parser w.self.request bytes).step.result ≡ r
      → w.self.pending ≢ none
      → IsTidy i w (handle_read env doc_root i success bytes w)
  unfolding handle_read
  handle_read-IsTidy_result i bytes w is_true e busy =
      rw (e, handle_read) (busy-IsTidy i w _ busy refl refl)
  handle_read-IsTidy_result i bytes w is_false e busy =
      rw (e, handle_read) (busy-IsTidy i w _ busy refl refl)
  handle_read-IsTidy_result i bytes w indeterminate e busy =
      rw (e, handle_read) (busy-IsTidy i w _ busy refl refl)

  pub handle_read-IsTidy :
      (i : ℕ) (e : ErrorCode) (bytes : Bytes) (w : World)
      → w.self.pending ≢ none
      → IsTidy i w (handle_read env doc_root i e bytes w)
  unfolding handle_read stop
  handle_read-IsTidy i success bytes w busy = handle_read-IsTidy_result i bytes w _ refl busy
  handle_read-IsTidy i operation_aborted bytes w busy = idle-IsTidy i w _ refl refl
  handle_read-IsTidy i failure bytes w busy = closed-IsTidy i w _ refl refl

  pub handle_read-nil :
      (i : ℕ) (e : ErrorCode) (bytes : Bytes) (w : World)
      → w.connections ≡ []
      → (handle_read env doc_root i e bytes w).connections ≡ []
  unfolding handle_read stop
  handle_read-nil i success bytes w h = by_result _ refl
    where
      by_result :
          (r : Tribool)
          → (parse w.self.parser w.self.request bytes).step.result ≡ r
          → (handle_read env doc_root i success bytes w).connections ≡ []
      by_result is_true e = rw (e, handle_read) h
      by_result is_false e = rw (e, handle_read) h
      by_result indeterminate e = rw (e, handle_read) h
  handle_read-nil i operation_aborted bytes w h = h
  handle_read-nil i failure bytes w h = rw h

  pub handle_write-nil :
      (i : ℕ) (e : ErrorCode) (w : World)
      → w.connections ≡ []
      → (handle_write i e w).connections ≡ []
  unfolding handle_write stop
  handle_write-nil i success w h = rw h
  handle_write-nil i operation_aborted w h = h
  handle_write-nil i failure w h = rw h
