-- ===== src/Asio/RequestParser/Clean.antt =====
-- Requests that hold nothing that the parser refuses, by the state of the parser.
use boost.Prelude.{◌≡◌, ◌≢◌, List, [], ◌∷◌, ◌++◌, ◌==◌, ℕ, false, Bytes, All, All-append, arith}
use boost.Asio.Request.{Header, Request}
use boost.Asio.RequestParser.{
  State, method_start, method, uri, header_line_start, header_name, header_value, push_uri,
  push_method, push_name, new_header, update_back, is_ctl,
}
use boost.Asio.RequestParser.Wire.{IsToken, IsText, IsUri, IsHeader}

-- The method has a byte in every state but the first.
abbrev pub IsStarted : State → Bytes → Type 0
IsStarted method_start m = Unit
IsStarted _ m = m ≢ []

-- A method and names of tokens, an address without blanks and control characters, values without
-- control characters.
pub record IsClean (s : State) (req : Request) : Type 0 where
  pub started : IsStarted s req.method
  pub method : All IsToken req.method
  pub uri : All IsUri req.uri
  pub headers : All IsHeader req.headers

pub move : (s t : State) (req : Request) → IsStarted t req.method → IsClean s req → IsClean t req
move s t req started h = record {
  started = started;
  method = h.method;
  uri = h.uri;
  headers = h.headers;
}

update_back-IsHeader :
    (f : Header → Header) (hs : List Header)
    → ((x : Header) → IsHeader x → IsHeader (f x))
    → All IsHeader hs
    → All IsHeader (update_back f hs)
unfolding update_back
update_back-IsHeader f [] k h = tt
update_back-IsHeader f (x ∷ []) k (here, h) = (k x here, tt)
update_back-IsHeader f (x ∷ (y ∷ hs)) k (here, h) = (here, update_back-IsHeader f (y ∷ hs) k h)

append_ne_nil : {A : Type 0} (xs : List A) (x : A) → xs ++ x ∷ [] ≢ []
append_ne_nil [] x e = cc
append_ne_nil (y ∷ xs) x e = cc

name_more :
    (c : ℕ)
    → IsToken c
    → (x : Header) → IsHeader x
    → IsHeader (record x { name = x.name ++ c ∷ [] })
name_more c token x h = record {
  name = All-append IsToken x.name (c ∷ []) h.name (token, tt);
  name_ne_nil = append_ne_nil x.name c;
  value = h.value;
}

value_more :
    (c : ℕ)
    → IsText c
    → (x : Header) → IsHeader x
    → IsHeader (record x { value = x.value ++ c ∷ [] })
value_more c text x h = record {
  name = h.name;
  name_ne_nil = h.name_ne_nil;
  value = All-append IsText x.value (c ∷ []) h.value (text, tt);
}

pub push_value-IsClean :
    (s : State) (req : Request) (c : ℕ)
    → IsText c
    → req.method ≢ []
    → IsClean s req
    → IsClean header_value (record req {
      headers = update_back (λ h. record h { value = h.value ++ c ∷ [] }) req.headers;
    })
push_value-IsClean s req c text some h = record {
  started = some;
  method = h.method;
  uri = h.uri;
  headers = update_back-IsHeader _ req.headers (value_more c text) h.headers;
}

-- The version does not matter.
pub numbered :
    (s t : State) (req : Request) (major minor : ℕ)
    → IsStarted t req.method
    → IsClean s req
    → IsClean t (record req { http_version_major = major; http_version_minor = minor })
numbered s t req major minor started h = record {
  started = started;
  method = h.method;
  uri = h.uri;
  headers = h.headers;
}

pub push_uri-IsClean :
    (req : Request) (c : ℕ)
    → is_ctl c ≡ false
    → (c == b' ') ≡ false
    → IsClean uri req
    → IsClean uri (push_uri req c)
push_uri-IsClean req c text space h = record {
  started = h.started;
  method = h.method;
  uri = All-append IsUri req.uri (c ∷ []) h.uri ((text, ground (arith, space)), tt);
  headers = h.headers;
}

pub new_header-IsClean :
    (req : Request) (c : ℕ)
    → IsToken c
    → IsClean header_line_start req
    → IsClean header_name (new_header req c)
new_header-IsClean req c token h = record {
  started = h.started;
  method = h.method;
  uri = h.uri;
  headers =
      All-append IsHeader req.headers ((record { name = c ∷ []; value = [] }) ∷ []) h.headers
        (record { name = (token, tt); name_ne_nil = λ e. cc; value = tt }, tt);
}

pub push_method-IsClean :
    (s : State) (req : Request) (c : ℕ)
    → IsToken c
    → IsClean s req
    → IsClean method (push_method req c)
push_method-IsClean s req c token h = record {
  started = append_ne_nil req.method c;
  method = All-append IsToken req.method (c ∷ []) h.method (token, tt);
  uri = h.uri;
  headers = h.headers;
}

pub push_name-IsClean :
    (req : Request) (c : ℕ)
    → IsToken c
    → IsClean header_name req
    → IsClean header_name (push_name req c)
push_name-IsClean req c token h = record {
  started = h.started;
  method = h.method;
  uri = h.uri;
  headers =
      update_back-IsHeader (λ x. record x { name = x.name ++ c ∷ [] }) req.headers
        (name_more c token) h.headers;
}
