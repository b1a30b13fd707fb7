-- ===== src/Tests/Handlers.antt =====
-- A queue that selects the first of the handlers with the highest priority.
use mathlib.Core.List.{Permᴰ}
use mathlib.Core.List.Permᴰ
use native.Mathlib.Nat.{le_trans}
use boost.Prelude.{
  ◌≡◌, ◌≤◌, refl, ap, ℕ, suc, List, [], ◌∷◌, ltb, ◌==◌, if◌then◌else◌, All, All-imp, length,
  Bool-cases, inl, inr, arith,
}
use boost.Asio.PrioritisedHandlers.{QueuedHandler, Selection, IsSelection, execute_all}
use boost.Asio.PrioritisedHandlers.Running.{IsFullRun, execute_all-IsFullRun, execute_all-overtaken}

unfoldable select : Selection
select h [] = (h, [])
select h (x ∷ hs) =
    let later = select h hs in
    if ltb later.0.priority x.priority then (x, later.0 ∷ later.1) else (later.0, x ∷ later.1)

select-Permᴰ :
    (h : QueuedHandler) (hs : List QueuedHandler)
    → Permᴰ (h ∷ hs) ((select h hs).0 ∷ (select h hs).1)
unfolding select
select-Permᴰ h [] = Permᴰ.refl _
select-Permᴰ h (x ∷ hs) =
    let moved = Permᴰ.trans (Permᴰ.swap refl refl) (Permᴰ.cons refl (select-Permᴰ h hs)) in
    elim (Bool-cases (ltb (select h hs).0.priority x.priority)) [
      | inl e ↦ rw e moved
      | inr e ↦ rw e (Permᴰ.trans moved (Permᴰ.swap refl refl))
    ]

length-select : (h : QueuedHandler) (hs : List QueuedHandler) → length (select h hs).1 ≡ length hs
unfolding select
length-select h [] = refl
length-select h (x ∷ hs) = elim (Bool-cases (ltb (select h hs).0.priority x.priority)) [
  | inl e ↦ rw e (ap suc (length-select h hs))
  | inr e ↦ rw e (ap suc (length-select h hs))
]

select_greatest :
    (h : QueuedHandler) (hs : List QueuedHandler)
    → All (λ x. x.priority ≤ (select h hs).0.priority) (select h hs).1
unfolding select
select_greatest h [] = tt
select_greatest h (x ∷ hs) =
    let top = (select h hs).0.priority in
    elim (Bool-cases (ltb top x.priority)) [
      | inl e ↦
          let below : top ≤ x.priority = ground arith in
          rw e (
            below,
            All-imp (λ y. y.priority ≤ top) (λ y. y.priority ≤ x.priority) (λ y p. le_trans p below)
                (select h hs).1 (select_greatest h hs),
          )
      | inr e ↦ let above : x.priority ≤ top = ground arith in rw e (above, select_greatest h hs)
    ]

select-IsSelection : IsSelection select
select-IsSelection = record {
  same = select-Permᴰ;
  size = length-select;
  greatest = select_greatest;
}

abbrev low : QueuedHandler
low = record { priority = 0; function = 1 }

abbrev high : QueuedHandler
high = record { priority = 100; function = 2 }

execute_all-IsFullRun_example :
    IsFullRun
      (low ∷ high ∷ [])
      (execute_all select (λ f. []) 2 (low ∷ high ∷ [])).0
      (execute_all select (λ f. []) 2 (low ∷ high ∷ [])).1
execute_all-IsFullRun_example =
    execute_all-IsFullRun select select-IsSelection (λ f. []) 2 (low ∷ high ∷ []) (λ f. refl)
      (omega arith)

abbrev adds_high : ℕ → List QueuedHandler
adds_high f = if f == 1 then high ∷ [] else []

execute_all-overtaken_example :
    ((execute_all select adds_high 5 (low ∷ [])).0 ≡ low ∷ [])
    × All (λ h. h ≡ low) (execute_all select adds_high 5 (low ∷ [])).1
unfolding select
execute_all-overtaken_example = execute_all-overtaken select adds_high low high refl refl refl 5
