-- ===== src/Api/Strings.antt =====
-- What passes through the C interface, and what does not.
use jequi.Prelude.{
  ◌≡◌, refl, ap, subst, ◌∙◌, true, false, some, [], ◌∷◌, ◌++◌, append_assoc, arith, Bytes, All, ok,
  panic,
}
use jequi.Text.{bytes_eq_refl}
use jequi.Text.Split.{Lacks, before, before_of_Lacks}
use jequi.Text.Lossy.{IsAscii, from_utf8_lossy-IsAscii}
use jequi.Text.Trim.{trim, to_lowercase}
use jequi.Headers.{HeaderOps, IsName, IsValue}
use jequi.Message.Body
use jequi.Message.Request.{Request}
use jequi.Message.Response.{Response, get_header}
use jequi.Message.Response.Laws.{get_header-set_header}
use jequi.Proxy.Handle.{await_body}
use jequi.Api.{from_ptr, to_str, has_zero, into_raw, get_request_body, set_response_header}

has_zero-append : (xs ys : Bytes) → has_zero (xs ++ (0 ∷ ys)) ≡ true
has_zero-append [] ys = refl
has_zero-append (x ∷ xs) ys = ground (arith, has_zero-append xs ys)

has_zero_of_Lacks : (xs : Bytes) → Lacks 0 xs → has_zero xs ≡ false
has_zero_of_Lacks [] h = refl
has_zero_of_Lacks (x ∷ xs) (p, h) = ground (arith, has_zero_of_Lacks xs h)

-- A text that the program hands out is read by a C program as it is, whatever follows in memory.
pub from_ptr-into_raw :
    (bytes rest : Bytes)
    → Lacks 0 bytes
    → (memory : Bytes) × (into_raw bytes ≡ ok memory) × (from_ptr (memory ++ rest) ≡ bytes)
unfolding into_raw from_ptr
from_ptr-into_raw bytes rest h = (
  bytes ++ (0 ∷ []),
  rw (has_zero_of_Lacks bytes h) refl,
  ap (before 0) (append_assoc bytes (0 ∷ []) rest) ∙ before_of_Lacks 0 bytes rest h,
)

Lacks-IsValue : (v : Bytes) → IsValue v → Lacks 0 v × All IsAscii v
Lacks-IsValue [] h = (tt, tt)
Lacks-IsValue (c ∷ cs) ((lo, hi), h) =
    let (lacks, ascii) = Lacks-IsValue cs h in (((λ e. omega arith), lacks), (omega arith, ascii))

to_str-from_ptr :
    (text rest : Bytes)
    → Lacks 0 text
    → All IsAscii text
    → to_str (from_ptr (text ++ (0 ∷ rest))) ≡ some text
unfolding to_str from_ptr
to_str-from_ptr text rest h a =
    rw (before_of_Lacks 0 text rest h) (rw (from_utf8_lossy-IsAscii text a) (rw bytes_eq_refl refl))

module _ {M : Type 0} where
  -- A body that is written and has no zero byte is what a C program reads, whatever follows it in
  -- memory.
  pub from_ptr-get_request_body :
      (req : Request M) (bytes rest : Bytes)
      → req.body.is_written ≡ true
      → req.body.bytes ≡ some bytes
      → Lacks 0 bytes
      → (memory : Bytes) × (get_request_body req ≡ ok memory) × (from_ptr (memory ++ rest) ≡ bytes)
  unfolding get_request_body await_body Body.poll
  from_ptr-get_request_body req bytes rest w b h = rw w (rw b (from_ptr-into_raw bytes rest h))

  -- A call for a body that is written and has a zero byte somewhere panics.
  pub get_request_body_zero :
      (req : Request M) (xs ys : Bytes)
      → req.body.is_written ≡ true
      → req.body.bytes ≡ some (xs ++ (0 ∷ ys))
      → get_request_body req ≡ panic
  unfolding get_request_body await_body Body.poll into_raw
  get_request_body_zero req xs ys w b = rw w (rw b (rw (has_zero-append xs ys) refl))

module _ {M : Type 0} ⦃ops : HeaderOps M⦄ where
  -- A header that a C program sets, with a name in ASCII and a value of visible bytes, is what a
  -- reader of that name finds, in whatever case both spell it; the response's status and body stay.
  pub get_header-set_response_header :
      (resp : Response M) (header j value rest more : Bytes)
      → Lacks 0 header
      → All IsAscii header
      → IsName (to_lowercase (trim header))
      → to_lowercase (trim header) ≡ trim (to_lowercase j)
      → IsValue value
      → (s : Response M) × (set_response_header resp (header ++ (0 ∷ rest)) (value ++ (0 ∷ more))
          ≡ ok s)
        × (get_header s j ≡ some value)
        × (s.status ≡ resp.status)
        × (s.body_buffer ≡ resp.body_buffer)
  unfolding set_response_header
  get_header-set_response_header resp header j value rest more lacks ascii name same valid =
      let (s, e, g, status, body) =
        get_header-set_header resp header j name (subst IsName same name) value valid in
      let (plain, visible) = Lacks-IsValue value valid in
      (
        s,
        rw (to_str-from_ptr header rest lacks ascii)
            (rw (to_str-from_ptr value more plain visible) (rw e refl)),
        g ∙ rw same (rw bytes_eq_refl refl),
        status,
        body,
      )
