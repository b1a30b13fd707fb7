-- ===== src/Asio/Allocation/Exclusive.antt =====
-- The allocator under every sequence of uses.
use boost.Prelude.{
  ◌≡◌, refl, sym, ap, ◌∙◌, ℕ, Bool, true, false, not, ◌&&◌, List, [], ◌∷◌, ◌==◌, ltb, arith,
  Bool-cases, inl, inr, ==_iff, eq_refl,
}
use boost.Asio.Connection.{contains, erase}
use boost.Asio.Connection.Sets.{
  IsDistinct, erase-IsDistinct, contains-erase, contains-erase_self, contains-erase_other,
}
use boost.Asio.Allocation.{Memory, OperatorNew, storage_size, allocate, deallocate}

-- What the standard says of `::operator new`: a block that it hands out is no other object that lives.
pub record IsFreshAt (operator_new : OperatorNew) (address : ℕ) : Type 0 where
  pub no_block : (heap : List ℕ) (size : ℕ) → contains (operator_new heap size) heap ≡ false
  pub no_storage : (heap : List ℕ) (size : ℕ) → (operator_new heap size == address) ≡ false

-- Uses of the allocator, with the pointers that the users hold: what is deallocated is one of them.
pub data Uses (operator_new : OperatorNew) (m : Memory) : Memory → List ℕ → Type 0 where
  unused : Uses operator_new m m []
  allocated :
      {t : Memory} {held : List ℕ} (size : ℕ)
      → Uses operator_new m t held
      → Uses operator_new m
          (allocate operator_new size t).1
          ((allocate operator_new size t).0 ∷ held)
  deallocated :
      {t : Memory} {held : List ℕ} (pointer : ℕ)
      → contains pointer held ≡ true
      → Uses operator_new m t held
      → Uses operator_new m (deallocate pointer t) (erase pointer held)

-- The held pointers are distinct; the storage is in use exactly where it is held, and the heap has
-- exactly the other ones.
pub record IsExclusive (address : ℕ) (m : Memory) (held : List ℕ) : Type 0 where
  pub same_address : m.address ≡ address
  pub distinct : IsDistinct held
  pub storage : m.in_use ≡ contains address held
  pub no_storage : contains address m.heap ≡ false
  pub blocks : (p : ℕ) → (p == address) ≡ false → contains p m.heap ≡ contains p held

in_use-true : (b c : Bool) → not b && c ≡ true → b ≡ false
in_use-true true c e = cc
in_use-true false c e = refl

module _ (operator_new : OperatorNew) (address : ℕ) (fresh : IsFreshAt operator_new address) where
  allocate_storage-IsExclusive :
      (m : Memory) (held : List ℕ)
      → m.in_use ≡ false
      → IsExclusive address m held
      → IsExclusive address (record m { in_use = true }) (m.address ∷ held)
  allocate_storage-IsExclusive m held e h = record {
    same_address = h.same_address;
    distinct = (rw (h.same_address) (sym h.storage ∙ e), h.distinct);
    storage = rw (h.same_address, eq_refl address) refl;
    no_storage = h.no_storage;
    blocks = λ p ne. rw (h.same_address, ne) (h.blocks p ne);
  }

  allocate_block-IsExclusive :
      (m : Memory) (held : List ℕ) (p : ℕ)
      → contains p m.heap ≡ false
      → (p == address) ≡ false
      → IsExclusive address m held
      → IsExclusive address (record m { heap = p ∷ m.heap }) (p ∷ held)
  allocate_block-IsExclusive m held p new ne h =
      let ne' : (address == p) ≡ false = ground arith in
      record {
        same_address = h.same_address;
        distinct = (sym (h.blocks p ne) ∙ new, h.distinct);
        storage = rw ne' h.storage;
        no_storage = rw ne' h.no_storage;
        blocks =
            λ q nq. elim (Bool-cases (q == p)) [ inl e ↦ rw e refl | inr e ↦ rw e (h.blocks q nq) ];
      }

  allocate-IsExclusive :
      (size : ℕ) (m : Memory) (held : List ℕ)
      → IsExclusive address m held
      → IsExclusive address
          (allocate operator_new size m).1
          ((allocate operator_new size m).0 ∷ held)
  unfolding allocate
  allocate-IsExclusive size m held h = elim (Bool-cases (not m.in_use && ltb size storage_size)) [
    | inl e ↦ rw e (allocate_storage-IsExclusive m held (in_use-true m.in_use _ e) h)
    | inr e ↦ rw e (
        allocate_block-IsExclusive m held (operator_new m.heap size) (fresh.no_block m.heap size)
          (fresh.no_storage m.heap size) h)
  ]

  contains-erase_ne :
      (q p : ℕ) (ps : List ℕ) → (q == p) ≡ false → contains q (erase p ps) ≡ contains q ps
  contains-erase_ne q p ps ne = elim (Bool-cases (contains q ps)) [
    | inl e ↦ contains-erase q p ps ne e ∙ sym e
    | inr e ↦ elim (Bool-cases (contains q (erase p ps))) [
      | inl k ↦ absurd (cc (contains-erase_other q p ps k, e))
      | inr k ↦ k ∙ sym e
    ]
  ]

  deallocate-IsExclusive :
      (p : ℕ) (m : Memory) (held : List ℕ)
      → IsExclusive address m held
      → IsExclusive address (deallocate p m) (erase p held)
  unfolding deallocate
  deallocate-IsExclusive p m held h = elim (Bool-cases (p == m.address)) [
    | inl e ↦
        let same : p ≡ address = (==_iff p m.address).0 e ∙ h.same_address in
        rw e record {
          same_address = h.same_address;
          distinct = erase-IsDistinct p held h.distinct;
          storage = rw same (sym (contains-erase_self address held));
          no_storage = h.no_storage;
          blocks = λ q ne. rw same (h.blocks q ne ∙ sym (contains-erase_ne q address held ne));
        }
    | inr e ↦
        let ne : (p == address) ≡ false = ap (λ a. p == a) (sym h.same_address) ∙ e in
        let ne' : (address == p) ≡ false = ground arith in
        rw e record {
          same_address = h.same_address;
          distinct = erase-IsDistinct p held h.distinct;
          storage = h.storage ∙ sym (contains-erase_ne address p held ne');
          no_storage = contains-erase_ne address p m.heap ne' ∙ h.no_storage;
          blocks = λ q nq. elim (Bool-cases (q == p)) [
            | inl k ↦
                let same : q ≡ p = (==_iff q p).0 k in
                rw same (contains-erase_self p m.heap ∙ sym (contains-erase_self p held))
            | inr k ↦
                contains-erase_ne q p m.heap k ∙ h.blocks q nq ∙ sym (contains-erase_ne q p held k)
          ];
        }
  ]

-- If `operator new` hands out blocks that are in no use, and the allocator starts with its storage
-- free and an empty heap, then in every sequence of allocations, and of deallocations of pointers
-- that are held, no two pointers that are held are the same, the storage is in use exactly where it
-- is held, and the heap has exactly the other ones.
pub Uses-IsExclusive :
    (operator_new : OperatorNew) (m : Memory)
    → IsFreshAt operator_new m.address
    → m.in_use ≡ false
    → m.heap ≡ []
    → {t : Memory} {held : List ℕ} → Uses operator_new m t held
    → IsExclusive m.address t held
Uses-IsExclusive operator_new m fresh idle empty unused = record {
  same_address = refl;
  distinct = tt;
  storage = idle;
  no_storage = rw empty refl;
  blocks = λ p ne. rw empty refl;
}
Uses-IsExclusive operator_new m fresh idle empty (allocated {t} {held} size uses) =
    allocate-IsExclusive operator_new m.address fresh size t held
      (Uses-IsExclusive operator_new m fresh idle empty uses)
Uses-IsExclusive operator_new m fresh idle empty (deallocated {t} {held} pointer k uses) =
    deallocate-IsExclusive operator_new m.address fresh pointer t held
      (Uses-IsExclusive operator_new m fresh idle empty uses)
