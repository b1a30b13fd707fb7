-- ===== src/Asio/Connection/Sets.antt =====
-- A set of pointers as a list, with `insert` and `erase` as the connection manager uses them.
use boost.Prelude.{◌≡◌, refl, ℕ, true, false, List, [], ◌∷◌, ◌==◌, arith, Bool-cases, inl, inr}
use boost.Asio.Connection.{contains, insert, erase}

pub contains-insert :
    (p q : ℕ) (ps : List ℕ) → contains p ps ≡ true → contains p (insert q ps) ≡ true
contains-insert p q ps h = ground arith

pub contains-insert_self : (p : ℕ) (ps : List ℕ) → contains p (insert p ps) ≡ true
contains-insert_self p ps = ground arith

pub contains-erase :
    (p q : ℕ) (ps : List ℕ)
    → (p == q) ≡ false
    → contains p ps ≡ true
    → contains p (erase q ps) ≡ true
contains-erase p q [] ne h = h
contains-erase p q (r ∷ ps) ne h = ground (arith, contains-erase p q ps)

pub contains-erase_other :
    (j p : ℕ) (ps : List ℕ) → contains j (erase p ps) ≡ true → contains j ps ≡ true
contains-erase_other j p [] h = h
contains-erase_other j p (q ∷ ps) h = ground (arith, contains-erase_other j p ps)

pub contains-erase_self : (p : ℕ) (ps : List ℕ) → contains p (erase p ps) ≡ false
contains-erase_self p [] = refl
contains-erase_self p (q ∷ ps) = ground (arith, contains-erase_self p ps)

pub contains-insert_other :
    (j p : ℕ) (ps : List ℕ)
    → (j == p) ≡ false
    → contains j (insert p ps) ≡ true
    → contains j ps ≡ true
contains-insert_other j p ps ne h = ground arith

-- The set has each element once.
abbrev pub IsDistinct : List ℕ → Type 0
IsDistinct [] = Unit
IsDistinct (p ∷ ps) = (contains p ps ≡ false) × IsDistinct ps

pub erase-IsDistinct : (p : ℕ) (ps : List ℕ) → IsDistinct ps → IsDistinct (erase p ps)
erase-IsDistinct p [] h = tt
erase-IsDistinct p (q ∷ ps) (fresh, h) = elim (Bool-cases (p == q)) [
  | inl e ↦ rw e (erase-IsDistinct p ps h)
  | inr e ↦
      let absent : contains q (erase p ps) ≡ false = elim (Bool-cases (contains q (erase p ps))) [
        | inl k ↦ absurd (cc (contains-erase_other q p ps k))
        | inr k ↦ k
      ] in
      rw e (absent, erase-IsDistinct p ps h)
]

pub insert-IsDistinct : (p : ℕ) (ps : List ℕ) → IsDistinct ps → IsDistinct (insert p ps)
insert-IsDistinct p ps h = elim (Bool-cases (contains p ps)) [
  | inl e ↦ rw e h
  | inr e ↦ rw e (e, h)
]
