-- ===== src/Prelude/Strings.antt =====
-- `std::string` as a list of bytes: literals, comparison, `find` and `substr`, and the lines that
-- `std::getline` reads.
use Prim.Native.Char.{code}
use Prim.Native.String.{String}
use Prim.Native.Nat.{ℕ, suc, ◌+◌}
use mathlib.Core.Path.{◌≡◌}
use mathlib.Core.Logic.{◌↔◌}
use mathlib.Core.Bool.{Bool, true, false, ◌&&◌}
use mathlib.Core.List.{List, [], ◌∷◌}
use mathlib.Core.Option
use mathlib.Core.Option.{Option, none, some}
use native.Mathlib.Omega.{arith}
use boost.Prelude.Tests.{ltb, ◌==◌, if◌then◌else◌}
use boost.Prelude.Lists.{length, take, drop}

-- `std::string`, `char[]`: the bytes.
abbrev pub Bytes : Type 0
Bytes = List ℕ

-- The bytes of a literal; every literal of the development is ASCII.
abbrev pub codes : String → Bytes
codes String.[] = []
codes (String.◌∷◌ c s) = code c ∷ codes s

-- `operator==` of two strings.
unfoldable pub equal : Bytes → Bytes → Bool
equal [] [] = true
equal (x ∷ xs) (y ∷ ys) = x == y && equal xs ys
equal _ _ = false

pub equal_iff : (left right : Bytes) → (equal left right ≡ true) ↔ (left ≡ right)
unfolding equal
equal_iff (c ∷ left) (d ∷ right) = ground (arith, equal_iff left right)
equal_iff _ _ = ground arith

unfoldable pub starts_with : Bytes → Bytes → Bool
starts_with [] s = true
starts_with (x ∷ p) [] = false
starts_with (x ∷ p) (y ∷ s) = x == y && starts_with p s

-- `s.find(p)`; `none` is `npos`.
unfoldable pub find : Bytes → Bytes → Option ℕ
unfolding starts_with
find p [] = if starts_with p [] then some 0 else none
find p (c ∷ s) = if starts_with p (c ∷ s) then some 0 else Option.map suc (find p s)

-- `s.find(p, pos)`.
unfoldable pub find_from : Bytes → ℕ → Bytes → Option ℕ
unfolding find
find_from p pos s =
    if ltb (length s) pos then none else Option.map (λ i. pos + i) (find p (drop pos s))

-- `s.substr(pos, n)`; `none` is the exception `std::out_of_range`.
unfoldable pub substr : Bytes → ℕ → ℕ → Option Bytes
substr s pos n = if ltb (length s) pos then none else some (take n (drop pos s))

-- `s.substr(pos)`.
unfoldable pub substr_from : Bytes → ℕ → Option Bytes
substr_from s pos = if ltb (length s) pos then none else some (drop pos s)
