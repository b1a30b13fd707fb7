-- ===== src/Asio/MimeTypes.antt =====
-- doc_searcher/data/input/html/boost_asio/example/http/server/mime_types.cpp: the type of a file by
-- its extension.
use boost.Prelude.{List, [], ◌∷◌, Bytes, codes, equal, if◌then◌else◌}

-- `struct mapping`; the list ends where the array has its null entry.
pub record Mapping : Type 0 where
  pub extension : Bytes
  pub mime_type : Bytes

abbrev pub mappings : List Mapping
mappings =
    record { extension = codes "gif"; mime_type = codes "image/gif" }
    ∷ record { extension = codes "htm"; mime_type = codes "text/html" }
    ∷ record { extension = codes "html"; mime_type = codes "text/html" }
    ∷ record { extension = codes "jpg"; mime_type = codes "image/jpeg" }
    ∷ record { extension = codes "png"; mime_type = codes "image/png" }
    ∷ []

-- The loop over the mappings.
unfoldable pub type_in : List Mapping → Bytes → Bytes
type_in [] extension = codes "text/plain"
type_in (m ∷ ms) extension =
    if equal m.extension extension then m.mime_type else type_in ms extension

unfoldable pub extension_to_type : Bytes → Bytes
extension_to_type = type_in mappings
