-- ===== src/Prelude/Find.antt =====
-- What `std::string::find` promises: the first occurrence of a text.
use mathlib.Core.Option
use boost.Prelude.{
  ℕ, suc, ◌≤◌, ◌≡◌, ◌≢◌, refl, ap, ◌∙◌, true, Option, [], ◌∷◌, ◌++◌, none, some, arith, Bool-cases,
  Option-cases, length, length-append, drop, Bytes, starts_with, find, inl, inr,
}

pub starts_with-append : (p r : Bytes) → starts_with p (p ++ r) ≡ true
unfolding starts_with
starts_with-append [] r = refl
starts_with-append (x ∷ p) r = ground (arith, starts_with-append p r)

pub starts_with-splits : (p s : Bytes) → starts_with p s ≡ true → s ≡ p ++ drop (length p) s
unfolding starts_with
starts_with-splits [] s h = refl
starts_with-splits (x ∷ p) [] h = cc
starts_with-splits (x ∷ p) (y ∷ s) h = ground (arith, starts_with-splits p s)

-- The text before the pattern, and the text behind it.
pub record Hit (p s : Bytes) (i : ℕ) : Type 0 where
  pub before : Bytes
  pub behind : Bytes
  pub splits : s ≡ before ++ (p ++ behind)
  pub place : length before ≡ i

map-suc-some :
    (o : Option ℕ) {i : ℕ} → Option.map suc o ≡ some i → (j : ℕ) × (o ≡ some j) × (suc j ≡ i)
map-suc-some o h = (Option.map-eq-some_iff _ _).0 h

pub find-Hit : (p s : Bytes) {i : ℕ} → find p s ≡ some i → Hit p s i
unfolding find
find-Hit [] [] h = record { before = []; behind = []; splits = refl; place = ground arith }
find-Hit (x ∷ p) [] h = absurd (ground arith)
find-Hit p (c ∷ s) h = elim (Bool-cases (starts_with p (c ∷ s))) [
  | inl yes_here ↦ record {
    before = [];
    behind = drop (length p) (c ∷ s);
    splits = starts_with-splits p (c ∷ s) yes_here;
    place = ground arith;
  }
  | inr later ↦
      let (j, found, same) = map-suc-some (find p s) (rw (later, find) at h) in
      let hit = find-Hit p s found in
      record {
        before = c ∷ hit.before;
        behind = hit.behind;
        splits = ap (◌∷◌ c) hit.splits;
        place = ap suc hit.place ∙ same;
      }
]

-- A hit is the first occurrence.
pub find-le : (p s a b : Bytes) {i : ℕ} → find p s ≡ some i → s ≡ a ++ (p ++ b) → i ≤ length a
unfolding find
find-le [] [] a b h e = ground arith
find-le (x ∷ p) [] a b h e = absurd (ground arith)
find-le p (c ∷ s) [] b h e =
    let here : starts_with p (c ∷ s) ≡ true = rw e (starts_with-append p b) in ground arith
find-le p (c ∷ s) (d ∷ a) b h e = elim (Bool-cases (starts_with p (c ∷ s))) [
  | inl yes_here ↦ ground arith
  | inr later ↦
      let (j, found, same) = map-suc-some (find p s) (rw (later, find) at h) in
      let tails : s ≡ a ++ (p ++ b) = cc in omega (arith, find-le p s a b found tails)
]

-- A miss: the pattern occurs nowhere.
pub find-ne_of_none : (p s a b : Bytes) → find p s ≡ none → s ≢ a ++ (p ++ b)
unfolding find
find-ne_of_none [] [] a b h e = cc
find-ne_of_none (x ∷ p) [] [] b h e = cc
find-ne_of_none (x ∷ p) [] (d ∷ a) b h e = cc
find-ne_of_none p (c ∷ s) [] b h e =
    let here : starts_with p (c ∷ s) ≡ true = rw e (starts_with-append p b) in ground arith
find-ne_of_none p (c ∷ s) (d ∷ a) b h e =
    let tails : s ≡ a ++ (p ++ b) = cc in find-ne_of_none p s a b (ground arith) tails

-- The pattern is found where it stands first.
pub find-append :
    (p a b : Bytes)
    → ((a' b' : Bytes) → a ++ (p ++ b) ≡ a' ++ (p ++ b') → length a ≤ length a')
    → find p (a ++ (p ++ b)) ≡ some (length a)
find-append p a b first = elim (Option-cases (find p (a ++ (p ++ b)))) [
  | inl missed ↦ absurd (find-ne_of_none p _ a b missed refl)
  | inr (i, found) ↦
      let hit = find-Hit p _ found in
      let low = find-le p _ a b found refl in
      let high = first hit.before hit.behind hit.splits in
      let same : i ≡ length a = omega (arith, hit.place) in found ∙ ap some same
]

-- A hit leaves room for the pattern.
pub find-le_length : (p s : Bytes) {i : ℕ} → find p s ≡ some i → i ≤ length s
find-le_length p s {i} found =
    let hit = find-Hit p s found in
    let size : length s ≡ length (hit.before ++ (p ++ hit.behind)) = ap length hit.splits in
    omega (arith, size, hit.place, length-append hit.before (p ++ hit.behind))
