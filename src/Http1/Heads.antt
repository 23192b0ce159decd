-- ===== src/Http1/Heads.antt =====
-- Header lines, in any of the forms that `parse_headers` takes, are read as what they say.
use jequi.Prelude.{
  ℕ, zero, suc, ◌<◌, ◌≡◌, refl, sym, ap, subst, ◌∙◌, ◌≢◌, Bool, true, false, some, List, [], ◌∷◌,
  ◌++◌, map, arith, ◌==◌, if◌then◌else◌, Bytes, codes, length, init, length-append, init-concat,
  All, All-append, ok,
}
use jequi.Text.{bytes_eq}
use jequi.Text.Split.{Lacks, take_through_of_Lacks, drop_through_of_Lacks}
use jequi.Text.Trim.{
  trim_ascii, trim_ascii_start, to_lowercase, to_lowercase-map, lower, IsTrimmed, IsSpaces,
  is_ascii_space, trim_ascii-spaces,
}
use jequi.Text.Lossy.{from_utf8_lossy, from_utf8_lossy-IsAscii}
use jequi.Headers.{HeaderOps, IsName, IsNameByte, IsValue}
use jequi.Message.Request.{Request}
use jequi.Http1.Read.{
  Http1Conn, read_until_handle_eof, parse_header, parse_headers_from, parse_headers,
}

-- `name:`, spaces, the value, spaces (a `\r` among them) and the line feed.
pub record Line : Type 0 where
  pub name : Bytes
  pub left : Bytes
  pub value : Bytes
  pub right : Bytes

-- The line, and the bytes that follow it.
abbrev pub line_text : Line → Bytes → Bytes
line_text l rest = l.name ++ (b':' ∷ ((l.left ++ (l.value ++ l.right)) ++ (b'\n' ∷ rest)))

abbrev pub lines_text : List Line → Bytes → Bytes
lines_text [] rest = rest
lines_text (l ∷ ls) rest = line_text l (lines_text ls rest)

-- A letter, digit or `-`, in either case.
abbrev pub IsToken : ℕ → Type 0
IsToken c = IsNameByte (lower c) × (c < 128)

pub record IsLine (l : Line) : Type 0 where
  pub name_ne_nil : l.name ≢ []
  pub name_short : length l.name < 65535
  pub name_tokens : All IsToken l.name
  pub left_spaces : IsSpaces l.left × Lacks b'\n' l.left
  pub value_visible : IsValue l.value
  pub value_trimmed : IsTrimmed l.value
  pub right_spaces : IsSpaces l.right × Lacks b'\n' l.right

pub read_until_of_Lacks :
    (c : ℕ) (xs ys : Bytes)
    → Lacks c xs
    → read_until_handle_eof c (xs ++ c ∷ ys) ≡ ok (xs ++ c ∷ [], ys)
unfolding read_until_handle_eof
read_until_of_Lacks c [] ys h =
    rw (take_through_of_Lacks c [] ys h, drop_through_of_Lacks c [] ys h) refl
read_until_of_Lacks c (x ∷ xs) ys h =
    rw (take_through_of_Lacks c (x ∷ xs) ys h, drop_through_of_Lacks c (x ∷ xs) ys h) refl

tokens_lower : (xs : Bytes) → All IsToken xs → All IsNameByte (map lower xs)
tokens_lower [] h = tt
tokens_lower (x ∷ xs) ((p, _), h) = (p, tokens_lower xs h)

tokens_ascii : (xs : Bytes) → All IsToken xs → All (λ c. c < 128) xs
tokens_ascii [] h = tt
tokens_ascii (x ∷ xs) ((_, p), h) = (p, tokens_ascii xs h)

tokens_lack_colon : (xs : Bytes) → All IsToken xs → Lacks b':' xs
tokens_lack_colon [] h = tt
tokens_lack_colon (x ∷ xs) (p, h) = (ground arith, tokens_lack_colon xs h)

visible_ascii : (xs : Bytes) → IsValue xs → All (λ c. c < 128) xs
visible_ascii [] h = tt
visible_ascii (x ∷ xs) (p, h) = (omega arith, visible_ascii xs h)

visible-Lacks_newline : (xs : Bytes) → IsValue xs → Lacks b'\n' xs
visible-Lacks_newline [] h = tt
visible-Lacks_newline (x ∷ xs) (p, h) = (omega arith, visible-Lacks_newline xs h)

length-map-lower : (xs : Bytes) → length (map lower xs) ≡ length xs
length-map-lower [] = refl
length-map-lower (x ∷ xs) = ap suc (length-map-lower xs)

IsName-lower : (xs : Bytes) → xs ≢ [] → length xs < 65535 → All IsToken xs → IsName (map lower xs)
IsName-lower [] h k l = absurd (h refl)
IsName-lower (x ∷ xs) h k l =
    (λ e. cc, omega (arith, length-map-lower (x ∷ xs)), tokens_lower (x ∷ xs) l)

token_ne_space : (x : ℕ) → IsToken x → is_ascii_space x ≡ false
token_ne_space x h = ground arith

-- The name as it is stored.
header_name :
    (x : ℕ) (xs : Bytes)
    → All IsToken (x ∷ xs)
    → to_lowercase (from_utf8_lossy (trim_ascii_start (init (x ∷ (xs ++ b':' ∷ [])))))
      ≡ map lower (x ∷ xs)
unfolding trim_ascii_start
header_name x xs k =
    ap (λ t. to_lowercase (from_utf8_lossy (trim_ascii_start t))) (init-concat (x ∷ xs) b':')
    ∙ rw (token_ne_space x k.0) refl
    ∙ ap to_lowercase (from_utf8_lossy-IsAscii (x ∷ xs) (tokens_ascii (x ∷ xs) k))
    ∙ to_lowercase-map (x ∷ xs) (tokens_ascii (x ∷ xs) k)

-- The value as it is stored.
header_value :
    (a v b : Bytes)
    → IsSpaces a
    → IsValue v
    → IsTrimmed v
    → IsSpaces b
    → from_utf8_lossy (trim_ascii (init ((a ++ (v ++ b)) ++ b'\n' ∷ []))) ≡ v
header_value a v b ha hv ht hb =
    ap (λ t. from_utf8_lossy (trim_ascii t)) (init-concat (a ++ (v ++ b)) b'\n')
    ∙ ap from_utf8_lossy (trim_ascii-spaces a v b ha ht hb)
    ∙ from_utf8_lossy-IsAscii v (visible_ascii v hv)

-- A line break ends the lines: a line feed, after a carriage return or not.
abbrev pub break_text : Bool → Bytes → Bytes
break_text true rest = b'\r' ∷ (b'\n' ∷ rest)
break_text false rest = b'\n' ∷ rest

token_ne_break : (x : ℕ) → IsToken x → ((x == b'\n') ≡ false) × ((x == b'\r') ≡ false)
token_ne_break x h = ground arith

length-line_text : (l : Line) (rest : Bytes) → length rest < length (line_text l rest)
length-line_text l rest = omega (
  arith,
  length-append l.name (b':' ∷ ((l.left ++ (l.value ++ l.right)) ++ (b'\n' ∷ rest))),
  length-append (l.left ++ (l.value ++ l.right)) (b'\n' ∷ rest),
)

module _ {M : Type 0} ⦃ops : HeaderOps M⦄ where
  -- What a header line adds to a request: its value under the name in lower case, and the host.
  abbrev pub add_line : Request M → Line → Request M
  add_line r l = record r {
    host = if bytes_eq (map lower l.name) (codes "host") then some l.value else r.host;
    headers = (ops.insert r.headers (map lower l.name) l.value).0;
  }

  abbrev pub add_lines : Request M → List Line → Request M
  add_lines r [] = r
  add_lines r (l ∷ ls) = add_lines (add_line r l) ls

  parse_header_lem :
      (r : Request M) (x : ℕ) (xs a v b rest : Bytes)
      → IsLine (record { name = x ∷ xs; left = a; value = v; right = b })
      → parse_header x (xs ++ (b':' ∷ ((a ++ (v ++ b)) ++ (b'\n' ∷ rest)))) r
        ≡ ok (add_line r (record { name = x ∷ xs; left = a; value = v; right = b }), rest)
  unfolding parse_header
  parse_header_lem r x xs a v b rest h =
      rw
        (read_until_of_Lacks b':' xs ((a ++ (v ++ b)) ++ (b'\n' ∷ rest))
          (tokens_lack_colon xs h.name_tokens.1))
        (rw
          (read_until_of_Lacks b'\n' (a ++ (v ++ b)) rest (
            All-append (λ c. c ≢ b'\n') a (v ++ b) h.left_spaces.1
              (All-append (λ c. c ≢ b'\n') v b (visible-Lacks_newline v h.value_visible)
                h.right_spaces.1)))
          (rw (header_name x xs h.name_tokens) (
            rw (header_value a v b h.left_spaces.0 h.value_visible h.value_trimmed h.right_spaces.0)
              (rw
                (ops.parse_name_lem _
                  (IsName-lower (x ∷ xs) h.name_ne_nil h.name_short h.name_tokens))
                (rw (ops.parse_value_lem v h.value_visible) refl)))))

  parse_headers_break :
      (fuel : ℕ) (crlf : Bool) (rest : Bytes) (r : Request M)
      → parse_headers_from (suc fuel) (break_text crlf rest) r ≡ ok (r, rest)
  unfolding parse_headers_from
  parse_headers_break fuel true rest r = refl
  parse_headers_break fuel false rest r = refl

  parse_headers_line :
      (fuel : ℕ) (name a v b rest : Bytes) (r : Request M)
      → IsLine (record { name = name; left = a; value = v; right = b })
      → parse_headers_from
          (suc fuel)
          (line_text (record { name = name; left = a; value = v; right = b }) rest)
          r
        ≡ parse_headers_from fuel rest
            (add_line r (record { name = name; left = a; value = v; right = b }))
  unfolding parse_headers_from
  parse_headers_line fuel [] a v b rest r h = absurd (h.name_ne_nil refl)
  parse_headers_line fuel (x ∷ xs) a v b rest r h =
      rw (token_ne_break x h.name_tokens.0).0
        (rw (token_ne_break x h.name_tokens.0).1 (rw (parse_header_lem r x xs a v b rest h) refl))

  parse_headers_from_lines :
      (ls : List Line) (fuel : ℕ) (crlf : Bool) (rest : Bytes) (r : Request M)
      → All IsLine ls
      → length (lines_text ls (break_text crlf rest)) < fuel
      → parse_headers_from fuel (lines_text ls (break_text crlf rest)) r ≡ ok (add_lines r ls, rest)
  parse_headers_from_lines ls zero crlf rest r h k = absurd (omega arith)
  parse_headers_from_lines [] (suc fuel) crlf rest r h k = parse_headers_break fuel crlf rest r
  parse_headers_from_lines (l ∷ ls) (suc fuel) crlf rest r (p, h) k =
      parse_headers_line fuel l.name l.left l.value l.right (lines_text ls (break_text crlf rest)) r
        p
      ∙ parse_headers_from_lines ls fuel crlf rest (add_line r l) h
          (omega (arith, length-line_text l (lines_text ls (break_text crlf rest))))

  -- Header lines (a name of letters, digits and `-` in any case, a colon, a trimmed value of visible
  -- characters with any ASCII spaces around it, and a line feed, so also a carriage return and a
  -- line feed) up to an empty line are read in order, each as its value under its name in lower
  -- case, with `host` set by the last `Host` line. What follows the empty line is left unread.
  pub parse_headers-lines_text :
      (c : Http1Conn M) (ls : List Line) (crlf : Bool) (rest : Bytes)
      → All IsLine ls
      → c.input ≡ lines_text ls (break_text crlf rest)
      → parse_headers c ≡ ok (record c { input = rest; request = add_lines c.request ls })
  unfolding parse_headers
  parse_headers-lines_text c ls crlf rest h e =
      rw
        (subst
          (λ (t : Bytes).
            parse_headers_from (suc (length t)) t c.request ≡ ok (add_lines c.request ls, rest))
          (sym e)
          (parse_headers_from_lines ls (suc (length (lines_text ls (break_text crlf rest)))) crlf
            rest c.request h (omega arith)))
        refl
