-- ===== src/Prelude/Streams.antt =====
-- `std::getline` over a whole file: the text up to each newline, and a last line that no newline
-- ends if it is not empty.
use boost.Prelude.{
  ◌≡◌, ◌≢◌, ◌∙◌, ap, [], ◌∷◌, ◌++◌, ℕ, Bool, true, List, arith, Bool-cases, inl, inr, ◌==◌,
  if◌then◌else◌, All, Bytes, refl, append_assoc,
}

unfoldable pub cons_line : Bytes → List Bytes → List Bytes
cons_line c [] = c ∷ []
cons_line c (l ∷ ls) = (c ++ l) ∷ ls

-- The lines that `while (std::getline(file, line))` visits.
unfoldable pub lines : Bytes → List Bytes
unfolding cons_line
lines [] = []
lines (c ∷ s) = if c == b'\n' then [] ∷ lines s else cons_line (c ∷ []) (lines s)

-- No newline stands in the text.
abbrev pub IsLine : Bytes → Type 0
IsLine = All (λ c. c ≢ b'\n')

-- A line is read back, whatever follows it.
pub lines-line : (l rest : Bytes) → IsLine l → lines (l ++ (b'\n' ∷ rest)) ≡ l ∷ lines rest
unfolding lines
lines-line [] rest h = refl
lines-line (c ∷ l) rest (p, h) = ground (arith, lines-line l rest h)

-- What a program writes that ends each line it reads by a newline.
unfoldable pub unlines : List Bytes → Bytes
unlines [] = []
unlines (l ∷ ls) = l ++ (b'\n' ∷ unlines ls)

pub unlines-append : (ls ms : List Bytes) → unlines (ls ++ ms) ≡ unlines ls ++ unlines ms
unfolding unlines
unlines-append [] ms = refl
unlines-append (l ∷ ls) ms = simp (unlines-append ls ms, append_assoc)

pub lines-unlines : (ls : List Bytes) → All IsLine ls → lines (unlines ls) ≡ ls
unfolding unlines
lines-unlines [] h = unfold lines in refl
lines-unlines (l ∷ ls) (p, h) = lines-line l (unlines ls) p ∙ ap (◌∷◌ l) (lines-unlines ls h)

lines-ne-nil : (c : ℕ) (s : Bytes) → lines (c ∷ s) ≢ []
unfolding lines
lines-ne-nil c s with_none = elim (Bool-cases (c == b'\n')) [
  | inl newline ↦ cc
  | inr other ↦ cons_line-ne-nil (lines s) (ground arith)
]
  where
    cons_line-ne-nil : (ls : List Bytes) → cons_line (c ∷ []) ls ≢ []
    cons_line-ne-nil [] = cc
    cons_line-ne-nil (l ∷ ls) = cc

unlines-cons_line :
    (c : ℕ) (ls : List Bytes) → ls ≢ [] → unlines (cons_line (c ∷ []) ls) ≡ c ∷ unlines ls
unfolding cons_line unlines
unlines-cons_line c [] h = absurd (h refl)
unlines-cons_line c (l ∷ ls) h = refl

-- The text is empty or ends in a newline.
unfoldable pub ends_line : Bytes → Bool
ends_line [] = true
ends_line (c ∷ []) = c == b'\n'
ends_line (c ∷ (d ∷ s)) = ends_line (d ∷ s)

-- Reading lines and ending each by a newline adds the newline that the last line lacks, and else
-- changes nothing.
pub unlines-lines : (s : Bytes) → unlines (lines s) ≡ (if ends_line s then s else s ++ b'\n' ∷ [])
unfolding unlines lines ends_line
unlines-lines [] = refl
unlines-lines (c ∷ []) = ground arith
unlines-lines (c ∷ (d ∷ s)) = ground (
  arith,
  unlines-lines (d ∷ s),
  lines-ne-nil d s,
  unlines-cons_line c (lines (d ∷ s)) (lines-ne-nil d s),
)
