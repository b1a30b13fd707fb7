-- ===== src/Asio/RequestParser/Wire.antt =====
-- Requests as they are written, for the theorems about the parser.
use boost.Prelude.{◌≡◌, ◌≢◌, ℕ, true, false, List, [], ◌∷◌, ◌++◌, Bytes, All}
use boost.Asio.Request.{Header, Request}
use boost.Asio.RequestParser.{is_ctl, is_digit, is_no_token, push_digit}

-- A byte of a method or of a header's name.
abbrev pub IsToken : ℕ → Type 0
IsToken c = is_no_token c ≡ false

-- A byte of a header's value, and of an address.
abbrev pub IsText : ℕ → Type 0
IsText c = is_ctl c ≡ false

abbrev pub IsUri : ℕ → Type 0
IsUri c = (is_ctl c ≡ false) × (c ≢ b' ')

abbrev pub IsDigit : ℕ → Type 0
IsDigit c = is_digit c ≡ true

-- The parts of a request as they are written: the version numbers by their digits.
pub record Wire : Type 0 where
  pub method : Bytes
  pub uri : Bytes
  pub major : Bytes
  pub minor : Bytes
  pub headers : List Header

-- A header that has a name.
pub record IsHeader (h : Header) : Type 0 where
  pub name : All IsToken h.name
  pub name_ne_nil : h.name ≢ []
  pub value : All IsText h.value

pub record IsWire (w : Wire) : Type 0 where
  pub method : All IsToken w.method
  pub method_ne_nil : w.method ≢ []
  pub uri : All IsUri w.uri
  pub major : All IsDigit w.major
  pub major_ne_nil : w.major ≢ []
  pub minor : All IsDigit w.minor
  pub minor_ne_nil : w.minor ≢ []
  pub headers : All IsHeader w.headers

abbrev pub crlf : Bytes
crlf = b'\r' ∷ b'\n' ∷ []

abbrev pub print_headers : List Header → Bytes → Bytes
print_headers [] rest = b'\r' ∷ b'\n' ∷ rest
print_headers (h ∷ hs) rest =
    h.name ++ (b':' ∷ b' ' ∷ (h.value ++ (b'\r' ∷ b'\n' ∷ print_headers hs rest)))

-- The text of a request, and what follows it.
abbrev pub print : Wire → Bytes → Bytes
print w rest =
    w.method
    ++ (b' '
        ∷ (w.uri
            ++ (b' '
                ∷ b'H'
                ∷ b'T'
                ∷ b'T'
                ∷ b'P'
                ∷ b'/'
                ∷ (w.major
                    ++ (b'.' ∷ (w.minor ++ (b'\r' ∷ b'\n' ∷ print_headers w.headers rest)))))))

-- The number that digits stand for, in 32 bits.
abbrev pub number : ℕ → Bytes → ℕ
number v [] = v
number v (c ∷ ds) = number (push_digit v c) ds

-- The request that the parts stand for.
abbrev pub request_of : Wire → Request
request_of w = record {
  method = w.method;
  uri = w.uri;
  http_version_major = number 0 w.major;
  http_version_minor = number 0 w.minor;
  headers = w.headers;
}
