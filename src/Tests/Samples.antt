-- ===== src/Tests/Samples.antt =====
-- A tokenizer, a splitter, a sort and a JSON writer that keep the laws which the theorems assume.
use mathlib.Core.List.{Permᴰ}
use mathlib.Core.List.Permᴰ
use native.Mathlib.Nat.{le_trans}
use boost.Prelude.{
  ◌+◌, ◌≡◌, ◌≤◌, refl, Bool, false, ◌&&◌, ◌||◌, List, [], ◌∷◌, ◌++◌, some, ℕ, arith, ◌==◌, leb,
  if◌then◌else◌, Bytes, All-imp, All-Permᴰ, Bool-cases, inl, inr, codes,
}
use boost.Prelude.Streams.{cons_line}
use boost.Util.{BoostSplit, HasNo, IsSplit, FileSystem}
use boost.Index.{Libraries, Weight, VisitsAll}
use boost.Searcher.{IsRanked, IsSort, Json}

-- Is the byte one of these?
unfoldable pub one_of : ℕ → Bytes → Bool
one_of c [] = false
one_of c (d ∷ ds) = c == d || one_of c ds

one_of-false : (c : ℕ) (ds : Bytes) → HasNo ds (c ∷ []) → one_of c ds ≡ false
unfolding one_of
one_of-false c [] h = refl
one_of-false c (d ∷ ds) ((p, h), _) = ground (arith, one_of-false c ds (h, tt))

HasNo-one_of : (c : ℕ) (ds : Bytes) → one_of c ds ≡ false → HasNo ds (c ∷ [])
unfolding one_of
HasNo-one_of c [] h = (tt, tt)
HasNo-one_of c (d ∷ ds) h = (ground (arith, HasNo-one_of c ds), tt)

unfoldable pub split_any : BoostSplit
unfolding one_of cons_line
split_any [] ds = [] ∷ []
split_any (c ∷ s) ds =
    if one_of c ds then [] ∷ split_any s ds else cons_line (c ∷ []) (split_any s ds)

split_any_last : (s ds : Bytes) → HasNo ds s → split_any s ds ≡ s ∷ []
unfolding split_any
split_any_last [] ds h = refl
split_any_last (c ∷ s) ds (p, h) = rw (one_of-false c ds (p, tt)) (rw (split_any_last s ds h))

split_any_first :
    (a b ds : Bytes) (d : ℕ)
    → HasNo ds a
    → (HasNo ds (d ∷ []) → ⊥)
    → split_any (a ++ d ∷ b) ds ≡ a ∷ split_any b ds
unfolding split_any
split_any_first [] b ds d h hit = elim (Bool-cases (one_of d ds)) [
  | inl found ↦ rw found
  | inr missed ↦ absurd (hit (HasNo-one_of d ds missed))
]
split_any_first (c ∷ a) b ds d (p, h) hit =
    rw (one_of-false c ds (p, tt)) (rw (split_any_first a b ds d h hit))

pub split_any-IsSplit : IsSplit split_any
split_any-IsSplit = record { last = split_any_last; first = split_any_first }

-- Insertion sort, heaviest first.
unfoldable pub insert : Weight → List Weight → List Weight
insert w [] = w ∷ []
insert w (v ∷ l) = if leb v.weight w.weight then w ∷ v ∷ l else v ∷ insert w l

unfoldable pub sort : List Weight → List Weight
unfolding insert
sort [] = []
sort (w ∷ l) = insert w (sort l)

insert-Permᴰ : (w : Weight) (l : List Weight) → Permᴰ (w ∷ l) (insert w l)
unfolding insert
insert-Permᴰ w [] = Permᴰ.cons refl Permᴰ.nil
insert-Permᴰ w (v ∷ l) = elim (Bool-cases (leb v.weight w.weight)) [
  | inl here ↦ rw here (Permᴰ.refl _)
  | inr later ↦ rw later (Permᴰ.trans (Permᴰ.swap refl refl) (Permᴰ.cons refl (insert-Permᴰ w l)))
]

insert-IsRanked : (w : Weight) (l : List Weight) → IsRanked l → IsRanked (insert w l)
unfolding insert
insert-IsRanked w [] h = (tt, tt)
insert-IsRanked w (v ∷ l) (p, h) = elim (Bool-cases (leb v.weight w.weight)) [
  | inl here ↦
      let le : v.weight ≤ w.weight = ground arith in
      rw here (
        (
          le,
          All-imp (λ u. u.weight ≤ v.weight) (λ u. u.weight ≤ w.weight) (λ u q. le_trans q le) l p,
        ),
        (p, h),
      )
  | inr later ↦
      let le : w.weight ≤ v.weight = ground arith in
      rw later
        (All-Permᴰ (λ u. u.weight ≤ v.weight) (insert-Permᴰ w l) (le, p), insert-IsRanked w l h)
]

sort-Permᴰ : (l : List Weight) → Permᴰ l (sort l)
unfolding sort
sort-Permᴰ [] = Permᴰ.nil
sort-Permᴰ (w ∷ l) = Permᴰ.trans (Permᴰ.cons refl (sort-Permᴰ l)) (insert-Permᴰ w (sort l))

sort-IsRanked : (l : List Weight) → IsRanked (sort l)
unfolding sort
sort-IsRanked [] = tt
sort-IsRanked (w ∷ l) = insert-IsRanked w (sort l) (sort-IsRanked l)

pub sort-IsSort : IsSort sort
sort-IsSort = record { same = sort-Permᴰ; ranked = sort-IsRanked }

-- ASCII lower case.
unfoldable pub lower : Bytes → Bytes
lower [] = []
lower (c ∷ s) = (if leb b'A' c && leb c b'Z' then c + 32 else c) ∷ lower s

-- Words between blanks.
abbrev pub sample_libraries : Libraries
sample_libraries = record {
  cut_for_search = λ s. split_any s (codes " ");
  to_lower = lower;
  boost_split = split_any;
  visit = λ m. m;
}

pub sample-VisitsAll : VisitsAll sample_libraries
sample-VisitsAll m = Permᴰ.refl m

-- A value is the text that it prints as.
abbrev pub sample_json : Json Bytes
sample_json = record {
  null = codes "null";
  assign = λ v key text. v ++ (key ++ (b':' ∷ text));
  append = λ v w. v ++ (b',' ∷ w);
  write = λ v. v ++ b'\n' ∷ [];
}

-- Two documents, a line that is not one, and a last line with no newline.
abbrev pub sample_file : Bytes
sample_file =
    codes "Asio"
    ++ (3 ∷ (codes "u/asio" ++ (3 ∷ (codes "asio and heap" ++ codes "\nbroken\n"))))
    ++ codes "Heap"
    ++ (3 ∷ (codes "u/heap" ++ (3 ∷ codes "a heap")))

abbrev pub sample_files : FileSystem
sample_files = λ path. some sample_file
