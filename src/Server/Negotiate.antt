-- ===== src/Server/Negotiate.antt =====
-- Which protocol a connection speaks: the selection callback of jequi/src/ssl.rs and `HttpConn::new`
-- of jequi/src/lib.rs. The handshake itself is `openssl`'s: it hands the client's list to the
-- callback and reports what was selected.
use jequi.Prelude.{
  ℕ, ◌≡◌, refl, inl, inr, Bool, true, false, not, ◌||◌, Option, none, some, List, [], ◌∷◌, ◌++◌,
  append_assoc, arith, if◌then◌else◌, Bool-cases, Bytes, codes, length,
}
use jequi.Text.{bytes_eq, starts_with, has_window}
use jequi.Server.Plugin.{Config}

-- `none` is `AlpnError::NOACK`.
unfoldable pub select_alpn : Bool → Bytes → Option Bytes
unfolding has_window
select_alpn http2 protos =
    if not http2
    then if has_window (8 ∷ codes "http/1.1") protos then some (codes "http/1.1") else none
    else if has_window (2 ∷ codes "h2") protos
    then some (codes "h2")
    else if has_window (8 ∷ codes "http/1.1") protos
    then some (codes "http/1.1")
    else none

pub data HttpConn : Type 0 where
  http1 http1_ssl http2 : HttpConn

-- The protocol that was selected, as text; the empty text if none was.
abbrev pub version_of : Option Bytes → Bytes
version_of none = []
version_of (some protocol) = protocol

unfoldable pub new_conn : Config → Option Bytes → HttpConn
unfolding bytes_eq
new_conn conf selected =
    if conf.tls_active
    then if bytes_eq (version_of selected) (codes "h2") then http2 else http1_ssl
    else http1

-- `HttpConn::handle_connection`, for what the two kinds of connection do.
unfoldable pub handle_connection : {A : Type 0} → A → A → HttpConn → A
handle_connection handle_http1 handle_http2 http1 = handle_http1
handle_connection handle_http1 handle_http2 http1_ssl = handle_http1
handle_connection handle_http1 handle_http2 http2 = handle_http2

-- The list of protocols of a client: each name behind its length.
abbrev pub offer : List Bytes → Bytes
offer [] = []
offer (p ∷ ps) = length p ∷ (p ++ offer ps)

pub offer-append : (ps qs : List Bytes) → offer (ps ++ qs) ≡ offer ps ++ offer qs
offer-append [] qs = refl
offer-append (p ∷ ps) qs = simp (append_assoc, offer-append ps qs)

starts_with-append : (w ys : Bytes) → starts_with w (w ++ ys) ≡ true
unfolding starts_with
starts_with-append [] ys = refl
starts_with-append (x ∷ w) ys = ground (arith, starts_with-append w ys)

or_true : (b : Bool) → b || true ≡ true
or_true true = refl
or_true false = refl

pub has_window-append :
    (c : ℕ) (w xs ys : Bytes) → has_window (c ∷ w) (xs ++ ((c ∷ w) ++ ys)) ≡ true
unfolding has_window
has_window-append c w [] ys = rw (starts_with-append (c ∷ w) ys) refl
has_window-append c w (x ∷ xs) ys =
    rw (has_window-append c w xs ys) (or_true (starts_with (c ∷ w) (x ∷ (xs ++ ((c ∷ w) ++ ys)))))

-- Over TLS a client that offers `h2`, wherever in its list, gets an HTTP/2 connection if its host
-- has `http2`, and an HTTP/1 connection if not.
pub new_conn-offer :
    (conf host : Config) (before after : List Bytes)
    → conf.tls_active ≡ true
    → new_conn conf (select_alpn host.http2 (offer (before ++ (codes "h2" ∷ after))))
      ≡ (if host.http2 then http2 else http1_ssl)
unfolding new_conn select_alpn bytes_eq
new_conn-offer conf host before after tls = elim (Bool-cases host.http2) [
  | inl on ↦
      rw (tls, on)
        (rw (offer-append before (codes "h2" ∷ after))
          (rw (has_window-append 2 (codes "h2") (offer before) (offer after)) refl))
  | inr off ↦
      elim (Bool-cases
        (has_window (8 ∷ codes "http/1.1") (offer (before ++ (codes "h2" ∷ after))))) [
          | inl e ↦ rw (tls, off, e) refl
          | inr e ↦ rw (tls, off, e) refl
        ]
]
