-- ===== src/Util/Laws.antt =====
-- What `Util::Read` leaves in its output.
use boost.Prelude.{
  ◌≡◌, sym, ◌∙◌, true, false, List, [], ◌∷◌, ◌++◌, none, some, Bytes, append-nil, append_assoc,
  if◌then◌else◌,
}
use boost.Prelude.Streams.{lines, ends_line, unlines, unlines-lines}
use boost.Util.{FileSystem, append_lines, read}

pub append_lines-unlines :
    (output : Bytes) (ls : List Bytes) → append_lines output ls ≡ output ++ unlines ls
unfolding append_lines unlines
append_lines-unlines output [] = sym (append-nil output)
append_lines-unlines output (l ∷ ls) =
    append_lines-unlines (output ++ (l ++ b'\n' ∷ [])) ls ∙ simp append_assoc

-- `Read` returns false and leaves the output alone where the file cannot be opened.
pub read_closed :
    (fs : FileSystem) (path output : Bytes) → fs path ≡ none → read fs path output ≡ (false, output)
unfolding read
read_closed fs path output closed = rw (closed, read)

-- Read on a file that opens returns true and appends the text to the output, with the newline that
-- its last line may lack.
pub read_opened :
    (fs : FileSystem) (path output : Bytes) {text : Bytes}
    → fs path ≡ some text
    → read fs path output ≡ (true, output ++ (if ends_line text then text else text ++ b'\n' ∷ []))
unfolding read
read_opened fs path output {text} opened =
    rw (opened, read, append_lines-unlines output (lines text), unlines-lines text)
