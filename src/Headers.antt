-- ===== src/Headers.antt =====
-- The part of the `http` crate that the program uses, as an interface: `HeaderMap`, `HeaderName`
-- and `HeaderValue`. A name is its lower-case bytes, a value its bytes. The laws are what the crate
-- documents. Its panic at more headers than a map can hold is left out.
pub mod Assoc
use jequi.Prelude.{
  ℕ, ◌<◌, ◌≡◌, ◌≢◌, Bool, true, not, ◌&&◌, ◌||◌, Option, none, some, List, [], ◌∷◌, arith, ltb,
  ◌==◌, if◌then◌else◌, within, Bytes, length, is_empty, all, All,
}
use jequi.Text.{bytes_eq}

abbrev pub Header : Type 0
Header = Bytes × Bytes

-- The first value of a name in a list of headers.
unfoldable pub first_value : Bytes → List Header → Option Bytes
unfolding bytes_eq
first_value k [] = none
first_value k ((j, v) ∷ hs) = if bytes_eq j k then some v else first_value k hs

-- Letters in lower case, digits and `-`: some of the bytes that a header name may have.
abbrev pub is_name_byte : ℕ → Bool
is_name_byte c = within b'a' b'z' c || within b'0' b'9' c || c == b'-'

abbrev pub IsNameByte : ℕ → Type 0
IsNameByte c = is_name_byte c ≡ true

-- Visible ASCII and the space: bytes that every header value may have.
abbrev pub IsVisible : ℕ → Type 0
IsVisible c = (31 < c) × (c < 127)

abbrev pub IsName : Bytes → Type 0
IsName t = (t ≢ []) × (length t < 65535) × All IsNameByte t

abbrev pub IsValue : Bytes → Type 0
IsValue = All IsVisible

-- A header that can be sent as it is.
abbrev pub IsSent : Header → Type 0
IsSent h = IsName h.0 × IsValue h.1

known_bytes : (t : Bytes) → all is_name_byte t ≡ true → All IsNameByte t
known_bytes [] h = tt
known_bytes (c ∷ cs) h = ground (arith, known_bytes cs)

-- For texts that are written out: by evaluation.
pub known-IsName :
    (t : Bytes) → all is_name_byte t && (not (is_empty t) && ltb (length t) 65535) ≡ true → IsName t
known-IsName [] h = cc
known-IsName (c ∷ cs) h = ((λ e. cc), ground arith, ground (arith, known_bytes cs))

pub known-IsValue : (v : Bytes) → all (λ c. within 32 126 c) v ≡ true → IsValue v
known-IsValue [] h = tt
known-IsValue (c ∷ cs) h = ground (arith, known-IsValue cs)

pub record HeaderOps (M : Type 0) : Type 1 where
  -- `HeaderName::from_bytes` and `str::parse`, `HeaderValue::from_bytes` and `HeaderValue::to_str`
  pub parse_name : Bytes → Option Bytes
  pub parse_value : Bytes → Option Bytes
  pub to_str : Bytes → Option Bytes
  pub empty : M
  -- `insert` and `remove` give the old first value too.
  pub insert : M → Bytes → Bytes → M × Option Bytes
  pub append : M → Bytes → Bytes → M
  pub remove : M → Bytes → M × Option Bytes
  pub get : M → Bytes → Option Bytes
  pub iter : M → List Header
  pub parse_name_lem : (t : Bytes) → IsName t → parse_name t ≡ some t
  pub parse_value_lem : (v : Bytes) → IsValue v → parse_value v ≡ some v
  pub to_str_lem : (v : Bytes) → IsValue v → to_str v ≡ some v
  pub get-empty : (k : Bytes) → get empty k ≡ none
  pub get-insert :
      (m : M) (k v j : Bytes) → get (insert m k v).0 j ≡ (if bytes_eq k j then some v else get m j)
  pub get-remove :
      (m : M) (k j : Bytes) → get (remove m k).0 j ≡ (if bytes_eq k j then none else get m j)
  pub get-append :
      (m : M) (k v j : Bytes)
      → get (append m k v) j
        ≡ elim (get m j) [ none ↦ if bytes_eq k j then some v else none | some w ↦ some w ]
  pub get-iter : (m : M) (k : Bytes) → get m k ≡ first_value k (iter m)
  -- A property of all pairs is kept by an insertion of such a pair and by a removal.
  pub All-iter-insert :
      (P : Header → Type 0) (m : M) (k v : Bytes)
      → All P (iter m)
      → P (k, v)
      → All P (iter (insert m k v).0)
  pub All-iter-remove :
      (P : Header → Type 0) (m : M) (k : Bytes) → All P (iter m) → All P (iter (remove m k).0)
  pub insert_old : (m : M) (k v : Bytes) → (insert m k v).1 ≡ get m k
  pub remove_old : (m : M) (k : Bytes) → (remove m k).1 ≡ get m k

module _ {M : Type 0} ⦃ops : HeaderOps M⦄ where
  -- `HeaderMap::get` at a text: a text that is no header name has no value.
  unfoldable pub get_str : M → Bytes → Option Bytes
  get_str m s = elim (ops.parse_name s) [ none ↦ none | some k ↦ ops.get m k ]
