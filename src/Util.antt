-- ===== src/Util.antt =====
-- doc_searcher/common/util.hpp: `Util::Read` and `Util::Split`. The file system is an argument, the
-- contents of each path that can be opened; `boost::split` is an argument with its documented laws.
pub mod Laws
use boost.Prelude.{
  ◌≡◌, ◌≢◌, Bool, true, false, List, [], ◌∷◌, ◌++◌, Option, none, some, All, Bytes, ℕ,
}
use boost.Prelude.Streams.{lines}

-- The readable files: `none` where `is_open()` is false.
abbrev pub FileSystem : Type 0
FileSystem = Bytes → Option Bytes

-- The loop of `Read`, over the lines that `getline` gives.
unfoldable pub append_lines : Bytes → List Bytes → Bytes
append_lines output [] = output
append_lines output (line ∷ rest) = append_lines (output ++ (line ++ b'\n' ∷ [])) rest

-- The result, and what `*output` is afterwards.
unfoldable pub read : FileSystem → Bytes → Bytes → Bool × Bytes
read fs input_path output = elim (fs input_path) [
  | none ↦ (false, output)
  | some text ↦ (true, append_lines output (lines text))
]

-- `boost::split(tokens, input, is_any_of(delimiter), token_compress_off)`: the input, then the
-- delimiters.
abbrev pub BoostSplit : Type 0
BoostSplit = Bytes → Bytes → List Bytes

-- None of the delimiters stands in the text.
abbrev pub HasNo : Bytes → Bytes → Type 0
HasNo delimiter = All (λ c. All (λ d. c ≢ d) delimiter)

-- The documented behaviour of `boost::split` without token compression: every occurrence of a
-- delimiter ends a token, and the end of the input ends the last one.
pub record IsSplit (split : BoostSplit) : Type 0 where
  pub last : (s delimiter : Bytes) → HasNo delimiter s → split s delimiter ≡ s ∷ []
  pub first :
      (a b delimiter : Bytes) (d : ℕ)
      → HasNo delimiter a
      → (HasNo delimiter (d ∷ []) → ⊥)
      → split (a ++ d ∷ b) delimiter ≡ a ∷ split b delimiter

-- `Util::Split`.
unfoldable pub split : BoostSplit → Bytes → Bytes → List Bytes
split boost_split input delimiter = boost_split input delimiter
