-- ===== src/Asio/PrioritisedHandlers.antt =====
-- doc_searcher/data/input/html/boost_asio/example/invocation/prioritised_handlers.cpp: the queue of
-- handlers. `std::priority_queue` is an argument: it selects from the elements at hand the one at
-- the top, and the others. An `int` priority is its distance from the least `int`.
pub mod Running
use mathlib.Core.List.{Permᴰ}
use boost.Prelude.{◌+◌, ◌≡◌, ◌≤◌, ℕ, zero, suc, List, [], ◌∷◌, ◌++◌, All, length}

-- `queued_handler`: its function is known by a number.
pub record QueuedHandler : Type 0 where
  pub priority : ℕ
  pub function : ℕ

-- The top of the elements of a queue that is not empty, and the elements that `pop` leaves.
abbrev pub Selection : Type 0
Selection = QueuedHandler → List QueuedHandler → QueuedHandler × List QueuedHandler

-- What the standard says of a priority queue with this `operator<`.
pub record IsSelection (select : Selection) : Type 0 where
  pub same :
      (h : QueuedHandler) (hs : List QueuedHandler)
      → Permᴰ (h ∷ hs) ((select h hs).0 ∷ (select h hs).1)
  pub size : (h : QueuedHandler) (hs : List QueuedHandler) → length (select h hs).1 ≡ length hs
  pub greatest :
      (h : QueuedHandler) (hs : List QueuedHandler)
      → All (λ x. x.priority ≤ (select h hs).0.priority) (select h hs).1

-- `handler_priority_queue::add`.
unfoldable pub add : ℕ → ℕ → List QueuedHandler → List QueuedHandler
add priority function handlers =
    handlers ++ (record { priority = priority; function = function }) ∷ []

-- `wrapped_handler`, without the queue that it refers to, and `wrap`.
pub record WrappedHandler : Type 0 where
  pub priority_ : ℕ
  pub handler_ : ℕ

unfoldable pub wrap : ℕ → ℕ → WrappedHandler
wrap priority handler = record { priority_ = priority; handler_ = handler }

-- The invocation hook: the function of a completion is queued with the priority of its handler.
unfoldable pub asio_handler_invoke : ℕ → WrappedHandler → List QueuedHandler → List QueuedHandler
unfolding add
asio_handler_invoke f h handlers = add h.priority_ f handlers

-- What the functions add to the queue while they run, as handlers.
abbrev pub Effect : Type 0
Effect = ℕ → List QueuedHandler

abbrev pub pop : Selection → List QueuedHandler → List QueuedHandler
pop select [] = []
pop select (h ∷ hs) = (select h hs).1

-- `execute_all`, at most `fuel` rounds: the queue that is left and the handlers that ran, in order.
-- The handler is taken from the top and executed, and then `pop` removes the top of the queue as it
-- is by then.
unfoldable pub execute_all :
    Selection → Effect → (fuel : ℕ) → List QueuedHandler → List QueuedHandler × List QueuedHandler
execute_all select effect zero handlers = (handlers, [])
execute_all select effect (suc fuel) [] = ([], [])
execute_all select effect (suc fuel) (h ∷ hs) =
    let handler = (select h hs).0 in
    let rest = execute_all select effect fuel (pop select ((h ∷ hs) ++ effect handler.function)) in
    (rest.0, handler ∷ rest.1)
