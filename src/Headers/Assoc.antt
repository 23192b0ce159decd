-- ===== src/Headers/Assoc.antt =====
-- Header maps as lists of pairs: a value of the interface, for runs on concrete inputs.
use jequi.Prelude.{
  All-append, ℕ, ◌+◌, ◌≡◌, refl, true, not, ◌&&◌, ◌||◌, Option, none, some, List, [], ◌∷◌, ◌++◌,
  arith, leb, ◌==◌, if◌then◌else◌, within, Bytes, all, All,
}
use jequi.Text.{bytes_eq, bytes_eq_iff}
use jequi.Headers.{Header, first_value, IsNameByte, IsName, IsValue, HeaderOps}

abbrev pub without : Bytes → List Header → List Header
without k [] = []
without k ((j, v) ∷ hs) = if bytes_eq j k then without k hs else (j, v) ∷ without k hs

-- ASCII letters become lower case; any other byte that is not in `IsNameByte` is refused.
abbrev pub name_byte : ℕ → Option ℕ
name_byte c =
    if within b'a' b'z' c || within b'0' b'9' c || c == b'-'
    then some c
    else if within b'A' b'Z' c
    then some (c + 32)
    else none

abbrev pub name_bytes : Bytes → Option Bytes
name_bytes [] = some []
name_bytes (c ∷ cs) = elim (name_byte c) [
  | none ↦ none
  | some d ↦ elim (name_bytes cs) [ none ↦ none | some ds ↦ some (d ∷ ds) ]
]

abbrev pub parse_name : Bytes → Option Bytes
parse_name [] = none
parse_name (c ∷ cs) = name_bytes (c ∷ cs)

abbrev pub visible : Bytes → Option Bytes
visible v = if all (λ c. within 32 126 c || c == 9) v then some v else none

-- Bytes from 128 on are allowed in a value.
abbrev pub allowed : Bytes → Option Bytes
allowed v = if all (λ c. (leb 32 c && not (c == 127)) || c == 9) v then some v else none

name_bytes_lem : (t : Bytes) → All IsNameByte t → name_bytes t ≡ some t
name_bytes_lem [] h = refl
name_bytes_lem (c ∷ cs) (p, h) = ground (arith, name_bytes_lem cs h)

pub parse_name_lem : (t : Bytes) → IsName t → parse_name t ≡ some t
parse_name_lem [] h = absurd (h.0 refl)
parse_name_lem (c ∷ cs) h = name_bytes_lem (c ∷ cs) h.2

all_visible : (v : Bytes) → IsValue v → all (λ c. within 32 126 c || c == 9) v ≡ true
all_visible [] h = refl
all_visible (c ∷ cs) (p, h) = ground (arith, all_visible cs h)

all_allowed : (v : Bytes) → IsValue v → all (λ c. (leb 32 c && not (c == 127)) || c == 9) v ≡ true
all_allowed [] h = refl
all_allowed (c ∷ cs) (p, h) = ground (arith, all_allowed cs h)

pub visible_lem : (v : Bytes) → IsValue v → visible v ≡ some v
visible_lem v h = rw (all_visible v h) refl

pub allowed_lem : (v : Bytes) → IsValue v → allowed v ≡ some v
allowed_lem v h = rw (all_allowed v h) refl

pub first_value-without :
    (k j : Bytes) (hs : List Header)
    → first_value j (without k hs) ≡ (if bytes_eq k j then none else first_value j hs)
unfolding first_value
first_value-without k j [] = ground arith
first_value-without k j ((i, v) ∷ hs) =
    ground (arith, first_value-without k j hs, bytes_eq_iff i k, bytes_eq_iff i j, bytes_eq_iff k j)

pub first_value-append :
    (j k v : Bytes) (hs : List Header)
    → first_value j (hs ++ (k, v) ∷ [])
      ≡ elim (first_value j hs) [ none ↦ if bytes_eq k j then some v else none | some w ↦ some w ]
unfolding first_value
first_value-append j k v [] = refl
first_value-append j k v ((i, w) ∷ hs) = ground (arith, first_value-append j k v hs)

pub first_value-insert :
    (hs : List Header) (k v j : Bytes)
    → first_value j (without k hs ++ (k, v) ∷ [])
      ≡ (if bytes_eq k j then some v else first_value j hs)
first_value-insert hs k v j =
    ground (arith, first_value-append j k v (without k hs), first_value-without k j hs)

pub first_value-nil : (k : Bytes) → first_value k [] ≡ none
unfolding first_value
first_value-nil k = refl

pub All-without :
    (P : Header → Type 0) (k : Bytes) (hs : List Header) → All P hs → All P (without k hs)
All-without P k [] h = tt
All-without P k ((j, v) ∷ hs) h = ground (arith, All-without P k hs h.1)

pub All-insert :
    (P : Header → Type 0) (hs : List Header) (k v : Bytes)
    → All P hs
    → P (k, v)
    → All P (without k hs ++ (k, v) ∷ [])
All-insert P hs k v h p = All-append P (without k hs) ((k, v) ∷ []) (All-without P k hs h) (p, tt)

instance abbrev pub assoc_ops : HeaderOps (List Header)
assoc_ops = record {
  parse_name = parse_name;
  parse_value = allowed;
  to_str = visible;
  empty = [];
  insert = λ m k v. (without k m ++ (k, v) ∷ [], first_value k m);
  append = λ m k v. m ++ (k, v) ∷ [];
  remove = λ m k. (without k m, first_value k m);
  get = λ m k. first_value k m;
  iter = λ m. m;
  parse_name_lem = parse_name_lem;
  parse_value_lem = allowed_lem;
  to_str_lem = visible_lem;
  get-empty = first_value-nil;
  get-insert = first_value-insert;
  get-remove = λ m k j. first_value-without k j m;
  get-append = λ m k v j. first_value-append j k v m;
  get-iter = λ m k. refl;
  All-iter-insert = All-insert;
  All-iter-remove = λ P m k h. All-without P k m h;
  insert_old = λ m k v. refl;
  remove_old = λ m k. refl;
}
