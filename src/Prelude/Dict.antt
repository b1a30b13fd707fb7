-- ===== src/Prelude/Dict.antt =====
-- `std::unordered_map` with string keys, as an association list: `find`, `operator[]` followed by a
-- change of the value, and what a different order of the entries leaves the same.
use mathlib.Core.List.{Permᴰ}
use boost.Prelude.{
  ◌≡◌, ◌≢◌, refl, sym, ap, subst, ◌∙◌, true, List, [], ◌∷◌, Option, none, some, arith, All, Bytes,
  if◌then◌else◌, equal, equal_iff, Bool-cases, inl, inr,
}

pub equal_refl : (k : Bytes) → equal k k ≡ true
equal_refl k = (equal_iff k k).1 refl

module _ {ℓ} {V : Type ℓ} where
  -- `m.find(k)`; `none` is `m.end()`.
  unfoldable pub lookup : Bytes → List (Bytes × V) → Option V
  lookup k [] = none
  lookup k ((j, v) ∷ m) = if equal j k then some v else lookup k m

  abbrev pub get_or : V → Option V → V
  get_or d none = d
  get_or d (some v) = v

  -- `m[k]` makes an entry with the value `d` where there is none; then `f` changes its value.
  unfoldable pub modify : Bytes → V → (V → V) → List (Bytes × V) → List (Bytes × V)
  modify k d f [] = (k, f d) ∷ []
  modify k d f ((j, v) ∷ m) = if equal j k then (j, f v) ∷ m else (j, v) ∷ modify k d f m

  pub lookup-modify :
      (k j : Bytes) (d : V) (f : V → V) (m : List (Bytes × V))
      → lookup j (modify k d f m)
        ≡ (if equal k j then some (f (get_or d (lookup k m))) else lookup j m)
  unfolding lookup modify
  lookup-modify k j d f [] = refl
  lookup-modify k j d f ((i, v) ∷ m) =
      ground (arith, equal_iff i k, equal_iff i j, equal_iff k j, lookup-modify k j d f m)

  -- No entry has the key.
  abbrev pub IsFresh : Bytes → List (Bytes × V) → Type 0
  IsFresh k = All (λ e. e.0 ≢ k)

  -- At most one entry for each key.
  abbrev pub HasDistinctKeys : List (Bytes × V) → Type 0
  HasDistinctKeys [] = Unit
  HasDistinctKeys ((k, v) ∷ m) = IsFresh k m × HasDistinctKeys m

  modify-IsFresh :
      (i k : Bytes) (d : V) (f : V → V) (m : List (Bytes × V))
      → IsFresh i m
      → k ≢ i
      → IsFresh i (modify k d f m)
  unfolding modify
  modify-IsFresh i k d f [] h ne = (ne, tt)
  modify-IsFresh i k d f ((j, v) ∷ m) (p, h) ne = ground (arith, modify-IsFresh i k d f m h ne)

  pub modify-HasDistinctKeys :
      (k : Bytes) (d : V) (f : V → V) (m : List (Bytes × V))
      → HasDistinctKeys m
      → HasDistinctKeys (modify k d f m)
  unfolding modify
  modify-HasDistinctKeys k d f [] h = (tt, tt)
  modify-HasDistinctKeys k d f ((j, v) ∷ m) (p, h) = elim (Bool-cases (equal j k)) [
    | inl same ↦ rw same (p, h)
    | inr other ↦
        let ne : k ≢ j = ground (arith, equal_iff j k) in
        rw other (modify-IsFresh j k d f m p ne, modify-HasDistinctKeys k d f m h)
  ]

  pub lookup-IsFresh : (k : Bytes) (m : List (Bytes × V)) → IsFresh k m → lookup k m ≡ none
  unfolding lookup
  lookup-IsFresh k [] h = refl
  lookup-IsFresh k ((j, v) ∷ m) (p, h) = ground (arith, equal_iff j k, lookup-IsFresh k m h)

  Permᴰ-IsFresh : {l m : List (Bytes × V)} (k : Bytes) → Permᴰ l m → IsFresh k l → IsFresh k m
  Permᴰ-IsFresh k Permᴰ.nil h = tt
  Permᴰ-IsFresh k (Permᴰ.cons e p) (q, h) = (subst (λ a. a.0 ≢ k) e q, Permᴰ-IsFresh k p h)
  Permᴰ-IsFresh k (Permᴰ.swap e f) (q, (r, h)) =
      (subst (λ a. a.0 ≢ k) f r, (subst (λ a. a.0 ≢ k) e q, h))
  Permᴰ-IsFresh k (Permᴰ.trans p q) h = Permᴰ-IsFresh k q (Permᴰ-IsFresh k p h)

  pub Permᴰ-HasDistinctKeys :
      {l m : List (Bytes × V)} → Permᴰ l m → HasDistinctKeys l → HasDistinctKeys m
  Permᴰ-HasDistinctKeys Permᴰ.nil h = tt
  Permᴰ-HasDistinctKeys (Permᴰ.cons {a} {l₂} e p) (q, h) =
      (subst (λ x. IsFresh x.0 l₂) e (Permᴰ-IsFresh a.0 p q), Permᴰ-HasDistinctKeys p h)
  Permᴰ-HasDistinctKeys (Permᴰ.swap {a} {b} {a'} {b'} {l} e f) ((q, r), (s, h)) = (
    (
      λ same. q (ap (λ x. x.0) f ∙ sym same ∙ ap (λ x. x.0) (sym e)),
      subst (λ x. IsFresh x.0 l) f s,
    ),
    (subst (λ x. IsFresh x.0 l) e r, h),
  )
  Permᴰ-HasDistinctKeys (Permᴰ.trans p q) h = Permᴰ-HasDistinctKeys q (Permᴰ-HasDistinctKeys p h)

  -- What is found does not depend on the order of the entries.
  pub lookup-Permᴰ :
      {l m : List (Bytes × V)} (k : Bytes) → Permᴰ l m → HasDistinctKeys l → lookup k l ≡ lookup k m
  unfolding lookup
  lookup-Permᴰ k Permᴰ.nil h = refl
  lookup-Permᴰ k (Permᴰ.cons e p) (q, h) = rw (e, lookup-Permᴰ k p h)
  lookup-Permᴰ k (Permᴰ.swap {a} {b} {l} e f) ((q, r), (s, h)) =
      rw (← e, ← f) (ground (arith, equal_iff a.0 k, equal_iff b.0 k))
  lookup-Permᴰ k (Permᴰ.trans p q) h =
      lookup-Permᴰ k p h ∙ lookup-Permᴰ k q (Permᴰ-HasDistinctKeys p h)
