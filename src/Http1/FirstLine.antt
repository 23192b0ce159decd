-- ===== src/Http1/FirstLine.antt =====
-- The request line: method, target and version.
use jequi.Prelude.{
  init, ℕ, suc, ◌<◌, ◌≡◌, refl, ap, ◌∙◌, ◌≢◌, Bool, true, false, ◌||◌, [], ◌∷◌, ◌++◌, append_assoc,
  arith, Bytes, is_empty, init-concat, All, All-append, ok,
}
use jequi.Text.{bytes_eq}
use jequi.Text.Split.{Lacks, take_through, drop_through}
use jequi.Text.Trim.{
  trim_ascii_start, trim_ascii_end, trim_ascii, IsTrimmed, IsSpaces, is_ascii_space,
  trim_ascii-spaces,
}
use jequi.Text.Lossy.{from_utf8_lossy, from_utf8_lossy-IsAscii}
use jequi.Headers.{HeaderOps}
use jequi.Http1.Read.{Http1Conn, read_uri, parse_first_line, read_until_handle_eof}
use jequi.Http1.Heads.{read_until_of_Lacks}

abbrev pub IsAsciiText : Bytes → Type 0
IsAsciiText = All (λ c. c < 128)

pub record IsRequestLine (method uri version right : Bytes) : Type 0 where
  pub method_word : Lacks b' ' method × IsAsciiText method
  pub uri_ne_nil : uri ≢ []
  pub uri_word : Lacks b' ' uri × IsAsciiText uri × IsTrimmed uri
  pub version_text : Lacks b'\n' version × IsAsciiText version × IsTrimmed version
  pub right_spaces : IsSpaces right × Lacks b'\n' right

-- One space more than the grammar has may stand before the target.
abbrev pub pad : Bool → Bytes → Bytes
pad true rest = b' ' ∷ rest
pad false rest = rest

abbrev pub request_line : Bool → Bytes → Bytes → Bytes → Bytes → Bytes → Bytes
request_line padded method uri version right rest =
    method ++ (b' ' ∷ pad padded (uri ++ (b' ' ∷ ((version ++ right) ++ (b'\n' ∷ rest)))))

word_ends_loop :
    (begun uri : Bytes)
    → uri ≢ []
    → is_empty (begun ++ (uri ++ b' ' ∷ [])) || bytes_eq (begun ++ (uri ++ b' ' ∷ [])) (b' ' ∷ [])
      ≡ false
unfolding bytes_eq
word_ends_loop begun [] h = absurd (h refl)
word_ends_loop [] (x ∷ []) h = ground arith
word_ends_loop [] (x ∷ (y ∷ ys)) h = ground arith
word_ends_loop (b ∷ []) (x ∷ xs) h = ground arith
word_ends_loop (b ∷ (c ∷ cs)) (x ∷ xs) h = ground arith

read_uri_more :
    (fuel : ℕ) (begun uri rest : Bytes)
    → is_empty begun || bytes_eq begun (b' ' ∷ []) ≡ true
    → uri ≢ []
    → Lacks b' ' uri
    → read_uri (suc (suc fuel)) begun (uri ++ (b' ' ∷ rest))
      ≡ ok (begun ++ (uri ++ b' ' ∷ []), rest)
unfolding read_uri
read_uri_more fuel begun uri rest b h k =
    rw (b, read_uri)
      (rw (read_until_of_Lacks b' ' uri rest k, read_uri) (rw (word_ends_loop begun uri h) refl))

-- A space in front of the target is read in a round of its own.
read_uri-pad :
    (padded : Bool) (uri rest : Bytes)
    → uri ≢ []
    → Lacks b' ' uri
    → read_uri 3 [] (pad padded (uri ++ (b' ' ∷ rest))) ≡ ok (pad padded (uri ++ b' ' ∷ []), rest)
unfolding read_uri bytes_eq
read_uri-pad false uri rest h k = read_uri_more 1 [] uri rest refl h k
read_uri-pad true uri rest h k =
    rw (read_until_of_Lacks b' ' [] (uri ++ (b' ' ∷ rest)) tt, read_uri)
      (read_uri_more 0 (b' ' ∷ []) uri rest refl h k)

trim_pad :
    (padded : Bool) (uri : Bytes) → IsTrimmed uri → trim_ascii (pad padded (uri ++ b' ' ∷ [])) ≡ uri
trim_pad true uri h = trim_ascii-spaces (b' ' ∷ []) uri (b' ' ∷ []) (refl, tt) h (refl, tt)
trim_pad false uri h = trim_ascii-spaces [] uri (b' ' ∷ []) tt h (refl, tt)

version_end :
    (version right : Bytes)
    → IsTrimmed version
    → IsSpaces right
    → trim_ascii ((version ++ right) ++ b'\n' ∷ []) ≡ version
version_end version right h k =
    ap trim_ascii (append_assoc version right (b'\n' ∷ []))
    ∙ trim_ascii-spaces [] version (right ++ b'\n' ∷ []) tt h
        (All-append (λ c. is_ascii_space c ≡ true) right (b'\n' ∷ []) k (refl, tt))

-- A request line (method and target in ASCII and separated by one or two spaces, another space, a
-- version with any ASCII spaces behind it, so also a carriage return, and a line feed) gives the
-- connection its method, target and version; nothing else changes, and the input behind the line
-- feed is left unread.
pub parse_first_line-request_line :
    {M : Type 0} ⦃ops : HeaderOps M⦄ (c : Http1Conn M) (padded : Bool)
    (method uri version right rest : Bytes)
    → IsRequestLine method uri version right
    → c.input ≡ request_line padded method uri version right rest
    → parse_first_line c
      ≡ ok (record c {
        input = rest;
        version = version;
        request = record c.request { method = method; uri = record { text = uri } };
      })
unfolding parse_first_line
parse_first_line-request_line c padded method uri version right rest h e = rw e (
    rw
      (read_until_of_Lacks b' ' method
        (pad padded (uri ++ (b' ' ∷ ((version ++ right) ++ (b'\n' ∷ rest))))) h.method_word.0)
      (rw (read_uri-pad padded uri ((version ++ right) ++ (b'\n' ∷ rest)) h.uri_ne_nil h.uri_word.0)
        (rw
          (read_until_of_Lacks b'\n' (version ++ right) rest
            (All-append (λ x. x ≢ b'\n') version right h.version_text.0 h.right_spaces.1))
          (rw
            (
              init-concat method b' ',
              trim_pad padded uri h.uri_word.2,
              version_end version right h.version_text.2 h.right_spaces.0,
            )
            (rw
              (
                from_utf8_lossy-IsAscii method h.method_word.1,
                from_utf8_lossy-IsAscii uri h.uri_word.1,
                from_utf8_lossy-IsAscii version h.version_text.1,
              )
              refl)))))

-- With two or more spaces too many in front of the target the target is read as empty, whatever the
-- rest of the line says, and the rest of the line is taken for the version.
pub parse_first_line_empty_target :
    {M : Type 0} ⦃ops : HeaderOps M⦄ (c : Http1Conn M) (method line rest : Bytes)
    → Lacks b' ' method
    → Lacks b'\n' line
    → c.input ≡ method ++ (b' ' ∷ (b' ' ∷ (b' ' ∷ (line ++ (b'\n' ∷ rest)))))
    → (c' : Http1Conn M) × (parse_first_line c ≡ ok c')
      × (c'.request.uri.text ≡ [])
      × (c'.version ≡ from_utf8_lossy (trim_ascii (line ++ b'\n' ∷ [])))
unfolding parse_first_line
parse_first_line_empty_target c method line rest h k e = (
  record c {
    input = rest;
    version = from_utf8_lossy (trim_ascii (line ++ b'\n' ∷ []));
    request = record c.request {
      method = from_utf8_lossy (init (method ++ b' ' ∷ []));
      uri = record { text = [] };
    };
  },
  rw e (
      rw (read_until_of_Lacks b' ' method (b' ' ∷ (b' ' ∷ (line ++ (b'\n' ∷ rest)))) h) (
        rw (two_spaces (line ++ (b'\n' ∷ rest))) (
          rw (read_until_of_Lacks b'\n' line rest k)
            (unfold trim_ascii trim_ascii_start trim_ascii_end from_utf8_lossy in refl)))),
  refl,
  refl,
)
  where
    two_spaces : (more : Bytes) → read_uri 3 [] (b' ' ∷ (b' ' ∷ more)) ≡ ok (b' ' ∷ b' ' ∷ [], more)
    two_spaces more =
        unfold read_uri read_until_handle_eof bytes_eq take_through drop_through in refl
