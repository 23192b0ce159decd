-- ===== src/Http2/Streams/Requests.antt =====
-- What the frames of a stream make of its request.
use jequi.Prelude.{
  ◌++◌, ℕ, ◌≡◌, refl, sym, ap, subst, ◌∙◌, inl, inr, true, false, Option, none, some, List, [], ◌∷◌,
  arith, ◌==◌, if◌then◌else◌, ==_refl, Bool-cases, Bytes, codes, All, ok, ◌>>=◌,
}
use jequi.Text.{bytes_eq, bytes_eq_iff}
use jequi.Text.Lossy.{from_utf8_lossy-IsAscii}
use jequi.Headers.{IsSent, Header, HeaderOps, IsName, IsValue, is_name_byte}
use jequi.Maps
use jequi.Maps.{nat_Eq, get-insert}
use jequi.Message.Body
use jequi.Message.Request.{Request, new}
use jequi.Http1.FirstLine.{IsAsciiText}
use jequi.Http2.Frame.{Http2Frame}
use jequi.Http2.Streams.{Stream, Streams, add_field, add_fields, process_data, pseudo_header}

abbrev pub request_body : {M : Type 0} → Option (Stream M) → Option Body.RequestBody
request_body none = none
request_body (some s) = some s.request.body

-- The body that a stream's request has, if the stream is open.
abbrev pub body_of : {M : Type 0} → ℕ → Streams M → Option Body.RequestBody
body_of id streams = request_body (Maps.get id streams)

-- A pseudo-header field: its name starts with a colon.
abbrev pub IsPseudo : Header → Type 0
IsPseudo ([], v) = ⊥
IsPseudo (c ∷ name, v) = (c ≡ b':') × IsAsciiText v

-- What the last of the fields with a name says, if there is one.
abbrev pub last_value {ℓ} : {A : Type ℓ} → (Bytes → A) → A → Bytes → List Header → A
last_value read a name [] = a
last_value read a name ((h, v) ∷ hs) =
    last_value read (if bytes_eq h name then read v else a) name hs

name_no_colon : (c : ℕ) → is_name_byte c ≡ true → (c == b':') ≡ false
name_no_colon c h = ground arith

module _ {M : Type 0} ⦃ops : HeaderOps M⦄ where
  abbrev pub append_all : M → List Header → M
  append_all m [] = m
  append_all m ((h, v) ∷ hs) = append_all (ops.append m h v) hs

  add_field_lem :
      (r : Request M) (h v : Bytes)
      → IsName h
      → IsValue v
      → add_field r h v ≡ ok (record r { headers = ops.append r.headers h v })
  unfolding add_field
  add_field_lem r [] v n k = absurd (n.0 refl)
  add_field_lem r (c ∷ cs) v n k =
      rw (name_no_colon c n.2.0, ops.parse_name_lem (c ∷ cs) n) (rw (ops.parse_value_lem v k) refl)

  add_fields_lem :
      (r : Request M) (hs : List Header)
      → All IsSent hs
      → add_fields r hs ≡ ok (record r { headers = append_all r.headers hs })
  unfolding add_fields
  add_fields_lem r [] h = refl
  add_fields_lem r ((h, v) ∷ hs) ((n, k), rest) =
      rw (add_field_lem r h v n k)
        (add_fields_lem (record r { headers = ops.append r.headers h v }) hs rest)

  -- Pseudo-header fields, by what `pseudo_header` looks for.
  pseudo_header-method :
      (r : Request M) (v : Bytes)
      → IsAsciiText v
      → pseudo_header r (codes ":method") v ≡ record r { method = v }
  unfolding pseudo_header bytes_eq
  pseudo_header-method r v a = rw (from_utf8_lossy-IsAscii v a) refl

  pseudo_header-path :
      (r : Request M) (v : Bytes)
      → IsAsciiText v
      → pseudo_header r (codes ":path") v ≡ record r { uri = record { text = v } }
  unfolding pseudo_header bytes_eq
  pseudo_header-path r v a = rw (from_utf8_lossy-IsAscii v a) refl

  pseudo_header-authority :
      (r : Request M) (v : Bytes)
      → IsAsciiText v
      → pseudo_header r (codes ":authority") v ≡ record r { host = some v }
  unfolding pseudo_header bytes_eq
  pseudo_header-authority r v a = rw (from_utf8_lossy-IsAscii v a) refl

  pseudo_header-other :
      (r : Request M) (h v : Bytes)
      → bytes_eq h (codes ":method") ≡ false
      → bytes_eq h (codes ":path") ≡ false
      → bytes_eq h (codes ":authority") ≡ false
      → pseudo_header r h v ≡ r
  unfolding pseudo_header
  pseudo_header-other r h v e f g = rw e (rw f (rw g refl))

  add_field-pseudo :
      (r : Request M) (c : ℕ) (name v : Bytes)
      → c ≡ b':'
      → add_field r (c ∷ name) v ≡ ok (pseudo_header r (c ∷ name) v)
  unfolding add_field
  add_field-pseudo r c name v h = rw h refl

  add_fields-add_field :
      (r next : Request M) (h v : Bytes) (hs : List Header)
      → add_field r h v ≡ ok next
      → add_fields r ((h, v) ∷ hs) ≡ add_fields next hs
  unfolding add_fields
  add_fields-add_field r next h v hs e = rw e refl

  -- What the fields say, on top of a request.
  abbrev pub with_fields : Request M → List Header → Request M
  with_fields r ps = record r {
    method = last_value (λ v. v) r.method (codes ":method") ps;
    uri = last_value (λ v. record { text = v }) r.uri (codes ":path") ps;
    host = last_value some r.host (codes ":authority") ps;
  }

  with_fields-pseudo :
      (r : Request M) (h v : Bytes) (ps : List Header)
      → IsAsciiText v
      → with_fields (pseudo_header r h v) ps ≡ with_fields r ((h, v) ∷ ps)
  unfolding bytes_eq
  with_fields-pseudo r h v ps a = elim (Bool-cases (bytes_eq h (codes ":method"))) [
    | inl e ↦
        subst (λ (k : Bytes). with_fields (pseudo_header r k v) ps ≡ with_fields r ((k, v) ∷ ps))
          (sym ((bytes_eq_iff h (codes ":method")).0 e)) (rw (pseudo_header-method r v a) refl)
    | inr e ↦ elim (Bool-cases (bytes_eq h (codes ":path"))) [
      | inl f ↦
          subst (λ (k : Bytes). with_fields (pseudo_header r k v) ps ≡ with_fields r ((k, v) ∷ ps))
            (sym ((bytes_eq_iff h (codes ":path")).0 f)) (rw (pseudo_header-path r v a) refl)
      | inr f ↦ elim (Bool-cases (bytes_eq h (codes ":authority"))) [
        | inl g ↦
            subst
              (λ (k : Bytes). with_fields (pseudo_header r k v) ps ≡ with_fields r ((k, v) ∷ ps))
              (sym ((bytes_eq_iff h (codes ":authority")).0 g))
              (rw (pseudo_header-authority r v a) refl)
        | inr g ↦ rw (pseudo_header-other r h v e f g) (rw e (rw f (rw g refl)))
      ]
    ]
  ]

  add_fields-pseudo :
      (r : Request M) (ps hs : List Header)
      → All IsPseudo ps
      → add_fields r (ps ++ hs) ≡ add_fields (with_fields r ps) hs
  add_fields-pseudo r [] hs h = refl
  add_fields-pseudo r ((c ∷ name, v) ∷ ps) hs ((colon, a), h) =
      add_fields-add_field r (pseudo_header r (c ∷ name) v) (c ∷ name) v (ps ++ hs)
        (add_field-pseudo r c name v colon)
      ∙ add_fields-pseudo (pseudo_header r (c ∷ name) v) ps hs h
      ∙ ap (λ (q : Request M). add_fields q hs) (with_fields-pseudo r (c ∷ name) v ps a)
  add_fields-pseudo r (([], v) ∷ ps) hs (bad, h) = absurd bad

  -- The fields of a request by RFC 9113, its pseudo-header fields in any order and in ASCII, then
  -- headers whose names are lower-case letters, digits and `-` and whose values are visible text, make
  -- the request with the last `:method`, `:path` and `:authority` as its method, target and host (as
  -- they are in a new request, where one is missing) and with the headers appended in their order;
  -- other pseudo-header fields, as `:scheme`, change nothing.
  pub add_fields-request :
      (ps hs : List Header)
      → All IsPseudo ps
      → All IsSent hs
      → add_fields new (ps ++ hs)
        ≡ ok (record new {
          method = last_value (λ v. v) (new {M = M}).method (codes ":method") ps;
          uri = last_value (λ v. record { text = v }) (new {M = M}).uri (codes ":path") ps;
          host = last_value some (new {M = M}).host (codes ":authority") ps;
          headers = append_all ops.empty hs;
        })
  add_fields-request ps hs a h =
      add_fields-pseudo new ps hs a ∙ add_fields_lem (with_fields new ps) hs h

module _ {M : Type 0} where
  -- The stream with its body written.
  abbrev written : Stream M → Bytes → Stream M
  written s payload = record s {
    request = record s.request { body = (Body.write_body (some payload) s.request.body).0 };
  }

  process_data_lem :
      (f : Http2Frame) (s : Stream M) (streams : Streams M)
      → Maps.get f.stream_id streams ≡ some s
      → process_data f streams ≡ ok (Maps.insert f.stream_id (written s f.payload) streams)
  unfolding process_data
  process_data_lem f s streams h = rw h refl

  body_of-insert :
      (id asked : ℕ) (s : Stream M) (streams : Streams M)
      → body_of asked (Maps.insert id s streams)
        ≡ (if id == asked then some s.request.body else body_of asked streams)
  body_of-insert id asked s streams =
      ap request_body (get-insert id asked s streams)
      ∙ elim (Bool-cases (id == asked)) [ inl e ↦ rw e refl | inr e ↦ rw e refl ]

  get-insert_same :
      (id : ℕ) (s : Stream M) (streams : Streams M)
      → Maps.get id (Maps.insert id s streams) ≡ some s
  get-insert_same id s streams = get-insert id id s streams ∙ rw (==_refl id) refl

  -- Two data frames of an open stream, one after the other, leave its body written with the payload
  -- of the second alone; the bodies of the other streams stay.
  pub process_data_twice :
      (f g : Http2Frame) (s : Stream M) (streams : Streams M) (asked : ℕ)
      → f.stream_id ≡ g.stream_id
      → Maps.get g.stream_id streams ≡ some s
      → (after : Streams M) × ((process_data f streams >>= process_data g) ≡ ok after)
        × (body_of asked after ≡ (
            if g.stream_id == asked
            then some (record s.request.body { bytes = some g.payload; is_written = true })
            else body_of asked streams))
  unfolding Body.write_body
  process_data_twice f g s streams asked same opened =
      let id = g.stream_id in
      let first : Streams M = Maps.insert id (written s f.payload) streams in
      let second : Stream M = written (written s f.payload) g.payload in
      (
        Maps.insert id second first,
        ap (λ r. r >>= process_data g) first_lem
            ∙ process_data_lem g (written s f.payload) first
                (get-insert_same id (written s f.payload) streams),
        body_of-insert id asked second first ∙ elim (Bool-cases (id == asked)) [
          | inl e ↦ rw e refl
          | inr e ↦ rw e (body_of-insert id asked (written s f.payload) streams ∙ rw e refl)
        ],
      )
    where
      first_lem :
          process_data f streams ≡ ok (Maps.insert g.stream_id (written s f.payload) streams)
      first_lem =
          subst
            (λ (i : ℕ). process_data f streams ≡ ok (Maps.insert i (written s f.payload) streams))
            same
            (process_data_lem f s streams
              (subst (λ (i : ℕ). Maps.get i streams ≡ some s) (sym same) opened))
