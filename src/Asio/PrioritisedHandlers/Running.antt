-- ===== src/Asio/PrioritisedHandlers/Running.antt =====
-- Which handlers `execute_all` runs, and in what order.
use mathlib.Core.List.{Permᴰ}
use boost.Prelude.{
  ◌≡◌, ◌≤◌, refl, ℕ, zero, suc, List, [], ◌∷◌, All, All-Permᴰ, append-nil, length, arith,
}
use boost.Asio.PrioritisedHandlers.{QueuedHandler, Selection, IsSelection, Effect, execute_all}

-- Higher priorities stand first.
abbrev pub IsByPriority : List QueuedHandler → Type 0
IsByPriority [] = Unit
IsByPriority (h ∷ hs) = All (λ x. x.priority ≤ h.priority) hs × IsByPriority hs

-- A run that empties the queue and runs each of its handlers once, by priority.
pub record IsFullRun (handlers left ran : List QueuedHandler) : Type 0 where
  pub empty : left ≡ []
  pub once : Permᴰ handlers ran
  pub by_priority : IsByPriority ran

module _ (select : Selection) (laws : IsSelection select) (effect : Effect) where
  -- If the queue selects a greatest element as a priority queue does, and the functions add nothing
  -- to the queue while they run, then execute_all empties the queue within as many rounds as it has
  -- handlers, and runs each of them once, by priority.
  pub execute_all-IsFullRun :
      (fuel : ℕ) (handlers : List QueuedHandler)
      → ((f : ℕ) → effect f ≡ [])
      → length handlers ≤ fuel
      → IsFullRun handlers
          (execute_all select effect fuel handlers).0
          (execute_all select effect fuel handlers).1
  unfolding execute_all
  execute_all-IsFullRun zero [] quiet h = record {
    empty = refl;
    once = Permᴰ.nil;
    by_priority = tt;
  }
  execute_all-IsFullRun zero (x ∷ xs) quiet h = absurd (omega arith)
  execute_all-IsFullRun (suc fuel) [] quiet h = record {
    empty = refl;
    once = Permᴰ.nil;
    by_priority = tt;
  }
  execute_all-IsFullRun (suc fuel) (x ∷ xs) quiet h =
      let top = (select x xs).0 in
      let others = (select x xs).1 in
      let smaller : length others ≤ fuel = omega (arith, laws.size x xs) in
      let later = execute_all-IsFullRun fuel others quiet smaller in
      rw (quiet top.function, append-nil)
        (record {
          empty = later.empty;
          once = Permᴰ.trans (laws.same x xs) (Permᴰ.cons refl later.once);
          by_priority = (
            All-Permᴰ (λ y. y.priority ≤ top.priority) later.once (laws.greatest x xs),
            later.by_priority,
          );
        })

module _ (select : Selection) (effect : Effect) where
  -- If the only handler of a queue adds, while it runs, another that the queue then selects before
  -- it, then however many rounds execute_all makes, the first handler is still in the queue and
  -- none but it has run: the added handler is removed in its place.
  pub execute_all-overtaken :
      (x y : QueuedHandler)
      → select x [] ≡ (x, [])
      → select x (y ∷ []) ≡ (y, x ∷ [])
      → effect x.function ≡ y ∷ []
      → (fuel : ℕ)
      → ((execute_all select effect fuel (x ∷ [])).0 ≡ x ∷ [])
        × All (λ h. h ≡ x) (execute_all select effect fuel (x ∷ [])).1
  unfolding execute_all
  execute_all-overtaken x y alone over adds zero = (refl, tt)
  execute_all-overtaken x y alone over adds (suc fuel) =
      let later = execute_all-overtaken x y alone over adds fuel in
      rw (alone, adds, over) (later.0, (refl, later.1))
