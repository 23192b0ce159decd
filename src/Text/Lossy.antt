-- ===== src/Text/Lossy.antt =====
-- `String::from_utf8_lossy`: each maximal invalid part becomes U+FFFD, as Rust's decoder does it.
use jequi.Prelude.{
  ℕ, ◌-◌, ◌<◌, ◌≡◌, refl, ap, ◌∙◌, not, [], ◌∷◌, ◌++◌, ltb, ◌==◌, if◌then◌else◌, within, lt→ltb,
  Bytes, All,
}

-- What is still wanted of a character: how many bytes, and the range of the next one.
pub record Pending : Type 0 where
  pub bytes : Bytes
  pub want : ℕ
  pub lo : ℕ
  pub hi : ℕ

abbrev pub replacement : Bytes
replacement = 0xef ∷ 0xbf ∷ 0xbd ∷ []

abbrev pub nothing : Pending
nothing = record { bytes = []; want = 0; lo = 0x80; hi = 0xbf }

abbrev open_char : ℕ → ℕ → ℕ → ℕ → Bytes × Pending
open_char b n l h = ([], record { bytes = b ∷ []; want = n; lo = l; hi = h })

-- The first byte of a character: what is written, and what is wanted next.
first_byte : ℕ → Bytes × Pending
first_byte b =
    if ltb b 0x80
    then (b ∷ [], nothing)
    else if within 0xc2 0xdf b
    then open_char b 1 0x80 0xbf
    else if b == 0xe0
    then open_char b 2 0xa0 0xbf
    else if b == 0xed
    then open_char b 2 0x80 0x9f
    else if within 0xe1 0xef b
    then open_char b 2 0x80 0xbf
    else if b == 0xf0
    then open_char b 3 0x90 0xbf
    else if within 0xf1 0xf3 b
    then open_char b 3 0x80 0xbf
    else if b == 0xf4
    then open_char b 3 0x80 0x8f
    else (replacement, nothing)

restart : ℕ → Bytes × Pending
unfolding first_byte
restart b = let (out, p) = first_byte b in (replacement ++ out, p)

next_byte : Pending → ℕ → Bytes × Pending
unfolding first_byte restart
next_byte p b =
    if p.want == 0
    then first_byte b
    else if not (within p.lo p.hi b)
    then restart b
    else if p.want == 1
    then (p.bytes ++ b ∷ [], nothing)
    else ([], record { bytes = p.bytes ++ b ∷ []; want = p.want - 1; lo = 0x80; hi = 0xbf })

lossy_from : Pending → Bytes → Bytes
unfolding next_byte
lossy_from p [] = if p.want == 0 then [] else replacement
lossy_from p (b ∷ bs) = let (out, q) = next_byte p b in out ++ lossy_from q bs

unfoldable pub from_utf8_lossy : Bytes → Bytes
unfolding lossy_from
from_utf8_lossy bs = lossy_from nothing bs

abbrev pub IsAscii : ℕ → Type 0
IsAscii c = c < 128

lossy_step :
    (b : ℕ) (bs : Bytes) → b < 128 → lossy_from nothing (b ∷ bs) ≡ b ∷ lossy_from nothing bs
unfolding lossy_from
lossy_step b bs h = rw (lt→ltb b 0x80 h, next_byte, first_byte) refl

-- ASCII text is kept.
pub from_utf8_lossy-IsAscii : (bs : Bytes) → All IsAscii bs → from_utf8_lossy bs ≡ bs
unfolding from_utf8_lossy
from_utf8_lossy-IsAscii [] h = refl
from_utf8_lossy-IsAscii (b ∷ bs) (p, h) =
    lossy_step b bs p ∙ ap (λ t. b ∷ t) (from_utf8_lossy-IsAscii bs h)

invalid_parts :
    from_utf8_lossy (b'a' ∷ 0xff ∷ 0xe2 ∷ 0x82 ∷ b'b' ∷ 0xc3 ∷ 0xa9 ∷ 0xf0 ∷ [])
    ≡ b'a' ∷ 0xef ∷ 0xbf ∷ 0xbd ∷ 0xef ∷ 0xbf ∷ 0xbd ∷ b'b' ∷ 0xc3 ∷ 0xa9 ∷ 0xef ∷ 0xbf ∷ 0xbd ∷ []
unfolding from_utf8_lossy
invalid_parts = refl
