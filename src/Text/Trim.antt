-- ===== src/Text/Trim.antt =====
-- `[u8]::trim_ascii`, `str::trim`, `str::trim_start_matches` and `str::to_lowercase`.
use jequi.Prelude.{
  ℕ, ◌+◌, ◌<◌, ◌≡◌, refl, sym, ap, ◌∙◌, ◌≢◌, Bool, true, false, ◌&&◌, ◌||◌, [], ◌∷◌, ◌++◌, map,
  reverse, append-nil, arith, ◌==◌, if◌then◌else◌, within, Bytes, is_empty, All,
}

-- `u8::is_ascii_whitespace`
abbrev pub is_ascii_space : ℕ → Bool
is_ascii_space c = c == 32 || c == 9 || c == 10 || c == 12 || c == 13

unfoldable pub trim_ascii_start : Bytes → Bytes
trim_ascii_start [] = []
trim_ascii_start (x ∷ xs) = if is_ascii_space x then trim_ascii_start xs else x ∷ xs

-- `trim_ascii_end`: a space stays only if something behind it stays.
unfoldable pub trim_ascii_end : Bytes → Bytes
trim_ascii_end [] = []
trim_ascii_end (x ∷ xs) =
    let rest = trim_ascii_end xs in if is_ascii_space x && is_empty rest then [] else x ∷ rest

unfoldable pub trim_ascii : Bytes → Bytes
unfolding trim_ascii_start trim_ascii_end
trim_ascii xs = trim_ascii_end (trim_ascii_start xs)

-- `trim_start_matches(c)` at one byte
unfoldable pub trim_start_matches : ℕ → Bytes → Bytes
trim_start_matches c [] = []
trim_start_matches c (x ∷ xs) = if x == c then trim_start_matches c xs else x ∷ xs

-- `char::is_whitespace` on the UTF-8 form of a character of one, two or three bytes.
abbrev space1 : ℕ → Bool
space1 c = within 9 13 c || c == 32

abbrev space2 : ℕ → ℕ → Bool
space2 a b = a == 0xc2 && (b == 0x85 || b == 0xa0)

abbrev space3 : ℕ → ℕ → ℕ → Bool
space3 a b c =
    a == 0xe1 && b == 0x9a && c == 0x80
    || a == 0xe2 && b == 0x80 && (within 0x80 0x8a c || c == 0xa8 || c == 0xa9 || c == 0xaf)
    || a == 0xe2 && b == 0x81 && c == 0x9f
    || a == 0xe3 && b == 0x80 && c == 0x80

unfoldable pub trim_start : Bytes → Bytes
trim_start [] = []
trim_start (a ∷ []) = if space1 a then [] else a ∷ []
trim_start (a ∷ (b ∷ [])) =
    let one = trim_start (b ∷ []) in
    if space1 a then one else if space2 a b then [] else a ∷ (b ∷ [])
trim_start (a ∷ (b ∷ (c ∷ rest))) =
    let one = trim_start (b ∷ (c ∷ rest)) in
    let two = trim_start (c ∷ rest) in
    let three = trim_start rest in
    if space1 a
    then one
    else if space2 a b
    then two
    else if space3 a b c
    then three
    else a ∷ (b ∷ (c ∷ rest))

-- The same from the other end, on the reversed text.
trim_back : Bytes → Bytes
trim_back [] = []
trim_back (a ∷ []) = if space1 a then [] else a ∷ []
trim_back (b ∷ (a ∷ [])) =
    let one = trim_back (a ∷ []) in
    if space1 b then one else if space2 a b then [] else b ∷ (a ∷ [])
trim_back (c ∷ (b ∷ (a ∷ rest))) =
    let one = trim_back (b ∷ (a ∷ rest)) in
    let two = trim_back (a ∷ rest) in
    let three = trim_back rest in
    if space1 c
    then one
    else if space2 b c
    then two
    else if space3 a b c
    then three
    else c ∷ (b ∷ (a ∷ rest))

-- `str::trim`
unfoldable pub trim : Bytes → Bytes
unfolding trim_start trim_back
trim xs = reverse (trim_back (reverse (trim_start xs)))

abbrev pub lower : ℕ → ℕ
lower c = if within b'A' b'Z' c then c + 32 else c

-- `str::to_lowercase`. Of the characters that are not ASCII only the Kelvin sign (e2 84 aa) has an
-- ASCII lower case; the others are left as they are: the program lowers a text only to compare it
-- with an ASCII text or to parse it as a header name, which is ASCII.
unfoldable pub to_lowercase : Bytes → Bytes
to_lowercase [] = []
to_lowercase (a ∷ []) = lower a ∷ []
to_lowercase (a ∷ (b ∷ [])) = lower a ∷ lower b ∷ []
to_lowercase (a ∷ (b ∷ (c ∷ rest))) =
    let plain = lower a ∷ to_lowercase (b ∷ (c ∷ rest)) in
    let kelvin = b'k' ∷ to_lowercase rest in
    if a == 0xe2 && b == 0x84 && c == 0xaa then kelvin else plain

-- A byte that trimming and lowering leave as it is.
abbrev pub IsPlain : ℕ → Type 0
IsPlain c = (32 < c) × (c < 128) × (within b'A' b'Z' c ≡ false)

pub trim_start_plain : (xs : Bytes) → All IsPlain xs → trim_start xs ≡ xs
unfolding trim_start
trim_start_plain [] h = refl
trim_start_plain (a ∷ []) h = ground arith
trim_start_plain (a ∷ (b ∷ [])) h = ground arith
trim_start_plain (a ∷ (b ∷ (c ∷ r))) h = ground arith

pub to_lowercase-map : (xs : Bytes) → All (λ c. c < 128) xs → to_lowercase xs ≡ map lower xs
unfolding to_lowercase
to_lowercase-map [] h = refl
to_lowercase-map (a ∷ []) h = refl
to_lowercase-map (a ∷ (b ∷ [])) h = refl
to_lowercase-map (a ∷ (b ∷ (c ∷ rest))) (p, h) = ground (arith, to_lowercase-map (b ∷ (c ∷ rest)) h)

-- No space at either end.
abbrev pub IsTrimmed : Bytes → Type 0
IsTrimmed [] = Unit
IsTrimmed (x ∷ xs) = (is_ascii_space x ≡ false) × (trim_ascii_end (x ∷ xs) ≡ x ∷ xs)

abbrev pub IsSpaces : Bytes → Type 0
IsSpaces = All (λ c. is_ascii_space c ≡ true)

trim_ascii_start-append :
    (ws xs : Bytes) → IsSpaces ws → trim_ascii_start (ws ++ xs) ≡ trim_ascii_start xs
unfolding trim_ascii_start
trim_ascii_start-append [] xs h = refl
trim_ascii_start-append (w ∷ ws) xs (p, h) = rw p (trim_ascii_start-append ws xs h)

trim_ascii_end-spaces : (ws : Bytes) → IsSpaces ws → trim_ascii_end ws ≡ []
unfolding trim_ascii_end
trim_ascii_end-spaces [] h = refl
trim_ascii_end-spaces (w ∷ ws) (p, h) = rw (p, trim_ascii_end-spaces ws h) refl

trim_ascii_end-append :
    (xs ws : Bytes) → IsSpaces ws → trim_ascii_end (xs ++ ws) ≡ trim_ascii_end xs
unfolding trim_ascii_end
trim_ascii_end-append [] ws h = trim_ascii_end-spaces ws h
trim_ascii_end-append (x ∷ xs) ws h = rw (trim_ascii_end-append xs ws h) refl

pub trim_ascii_start-IsTrimmed :
    (v xs : Bytes) → IsTrimmed v → v ≢ [] → trim_ascii_start (v ++ xs) ≡ v ++ xs
unfolding trim_ascii_start
trim_ascii_start-IsTrimmed [] xs h k = absurd (k refl)
trim_ascii_start-IsTrimmed (x ∷ v) xs h k = rw (h.0) refl

-- Trimming takes the spaces off both sides of a trimmed text.
pub trim_ascii-spaces :
    (b v a : Bytes) → IsSpaces b → IsTrimmed v → IsSpaces a → trim_ascii (b ++ (v ++ a)) ≡ v
unfolding trim_ascii
trim_ascii-spaces b [] a hb hv ha =
    ap trim_ascii_end (trim_ascii_start-append b a hb)
    ∙ ap (λ t. trim_ascii_end (trim_ascii_start t)) (sym (append-nil a))
    ∙ ap trim_ascii_end (trim_ascii_start-append a [] ha)
trim_ascii-spaces b (x ∷ v) a hb hv ha =
    ap trim_ascii_end (trim_ascii_start-append b (x ∷ (v ++ a)) hb)
    ∙ ap trim_ascii_end (trim_ascii_start-IsTrimmed (x ∷ v) a hv (λ e. cc))
    ∙ trim_ascii_end-append (x ∷ v) a ha
    ∙ hv.1
