-- ===== src/Asio/IoServicePool/RoundRobin.antt =====
-- The io_services that successive calls of `get_io_service` give.
use native.Mathlib.Nat.{mod-lt, mod-eq_of_lt, mod_self, suc-mod, zero-mod}
use boost.Prelude.{
  ◌+◌, ◌%◌, ◌≡◌, ◌<◌, refl, sym, ap, ◌∙◌, ℕ, zero, suc, false, List, [], ◌∷◌, ◌++◌, some, ◌==◌,
  if◌then◌else◌, length, length-append, get_elem?, get_elem?-append, get_elem?-append_last, arith,
  Bool-cases, inl, inr, ==_iff,
}
use boost.Asio.IoServicePool.{
  IoService, IoServicePool, make_services, io_service_pool, get_io_service,
}

-- The pool after so many calls.
abbrev pub called : ℕ → IoServicePool → IoServicePool
called zero pool = pool
called (suc k) pool = (get_io_service (called k pool)).1

-- A service by its place, which is how they were made.
abbrev IsNumbered : List IoService → Type 0
IsNumbered made =
    (i : ℕ) → i < length made → get_elem? made i ≡ some (record { id = i; is_stopped = false })

append-IsNumbered :
    (made : List IoService)
    → IsNumbered made
    → IsNumbered (made ++ record { id = length made; is_stopped = false } ∷ [])
append-IsNumbered made h i below = elim (Bool-cases (i == length made)) [
  | inl e ↦
      let last : i ≡ length made = (==_iff i (length made)).0 e in
      rw last (get_elem?-append_last made (record { id = length made; is_stopped = false }))
  | inr e ↦
      let before : i < length made =
        (let size = length-append made (record { id = length made; is_stopped = false } ∷ []) in
          ground arith) in
      get_elem?-append made _ i before ∙ h i before
]

length-make_services :
    (count : ℕ) (made : List IoService) → length (make_services count made) ≡ count + length made
unfolding make_services
length-make_services zero made = omega arith
length-make_services (suc count) made =
    let one : IoService = record { id = length made; is_stopped = false } in
    length-make_services count (made ++ one ∷ [])
    ∙ (let size = length-append made (one ∷ []) in omega (arith, size))

make_services-IsNumbered :
    (count : ℕ) (made : List IoService) → IsNumbered made → IsNumbered (make_services count made)
unfolding make_services
make_services-IsNumbered zero made h = h
make_services-IsNumbered (suc count) made h =
    make_services-IsNumbered count (made ++ _ ∷ []) (append-IsNumbered made h)

called-io_services_ :
    (k : ℕ) (pool : IoServicePool) → (called k pool).io_services_ ≡ pool.io_services_
unfolding get_io_service
called-io_services_ zero pool = refl
called-io_services_ (suc k) pool = called-io_services_ k pool

-- The place behind another, around the pool.
next_mod : (k n : ℕ) → 0 < n → (if k % n + 1 == n then 0 else k % n + 1) ≡ suc k % n
next_mod k n pos =
    let behind : suc (k % n) ≡ k % n + 1 = omega arith in
    elim (Bool-cases (k % n + 1 == n)) [
      | inl e ↦
          let whole : k % n + 1 ≡ n = (==_iff (k % n + 1) n).0 e in
          rw e (sym (suc-mod k n ∙ ap (λ r. r % n) (behind ∙ whole) ∙ mod_self n))
      | inr e ↦
          let below : suc (k % n) < n = let less = mod-lt k pos in ground arith in
          rw e (sym (suc-mod k n ∙ mod-eq_of_lt below ∙ behind))
    ]

called-next :
    (k : ℕ) (pool : IoServicePool)
    → 0 < length pool.io_services_
    → pool.next_io_service_ ≡ 0
    → (called k pool).next_io_service_ ≡ k % length pool.io_services_
unfolding get_io_service
called-next zero pool pos start = start ∙ sym (zero-mod (length pool.io_services_))
called-next (suc k) pool pos start =
    rw (called-next k pool pos start, called-io_services_ k pool)
      (next_mod k (length pool.io_services_) pos)

-- A new pool.
abbrev pub new_pool : ℕ → IoServicePool
unfolding make_services
new_pool n = record { io_services_ = make_services n []; next_io_service_ = 0 }

-- The io_service of the call that comes after so many others.
pub called-service :
    (n k : ℕ)
    → 0 < n
    → (get_io_service (called k (new_pool n))).0 ≡ some (record { id = k % n; is_stopped = false })
unfolding get_io_service new_pool
called-service n k pos =
    let pool = new_pool n in
    let size : length (make_services n []) ≡ n = length-make_services n [] ∙ omega arith in
    let place : (called k pool).next_io_service_ ≡ k % n =
      called-next k pool (rw size pos) refl ∙ ap (λ m. k % m) size in
    rw (called-io_services_ k pool, place)
      (make_services-IsNumbered n [] (λ i below. absurd (omega arith)) (k % n)
        (rw size (mod-lt k pos)))

pub io_service_pool-new_pool : (n : ℕ) → 0 < n → io_service_pool n ≡ some (new_pool n)
unfolding io_service_pool new_pool
io_service_pool-new_pool n pos = let ne : (n == 0) ≡ false = ground arith in rw ne refl

-- A pool of a positive size is made, and the call of get_io_service that comes after so many others
-- gives the io_service whose place is their number modulo the size of the pool.
pub get_io_service-called :
    (n k : ℕ)
    → 0 < n
    → (pool : IoServicePool) × (io_service_pool n ≡ some pool)
      × ((get_io_service (called k pool)).0 ≡ some (record { id = k % n; is_stopped = false }))
get_io_service-called n k pos = (new_pool n, io_service_pool-new_pool n pos, called-service n k pos)
