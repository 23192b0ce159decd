-- ===== src/Server/Tls.antt =====
-- Keys, certificates and the handshake: jequi/src/ssl.rs, and `HttpConn::new` of jequi/src/lib.rs.
-- `exists` and `fs_read` are the file system, `private_key_from_pem` and `stack_from_pem` read keys
-- and certificates (`openssl`), and `takes_key` and `takes_certificate` say whether a context accepts
-- one. A handshake is what it selects: the context of the server's name that the client gives, and
-- the protocol; one that fails is a panic of the connection's task and left out.
pub mod NewHttpConn
use jequi.Prelude.{
  ℕ, ◌+◌, ◌≡◌, refl, ◌∙◌, Bool, true, not, ◌&&◌, Option, none, some, List, [], ◌∷◌, ◌++◌,
  append-nil, append_assoc, if◌then◌else◌, Bytes, codes, length, All, other, Result, ok, err, panic,
  ◌>>=◌, unwrap, unwrap_option, ok_or,
}
use jequi.Config.Deserialize.{Given, deserialize_string, text_visitor}
use jequi.FilePath.{PathBuf, components}
use jequi.Config.Select.{ConfigMap, host_scope, select_path, get_config_for_request}
use jequi.Server.Plugin.{Config, Plugin, get_jequi}
use jequi.Server.Negotiate.{
  HttpConn, http2, http1_ssl, select_alpn, new_conn, offer, has_window-append, new_conn-offer,
}

module _ (exists : PathBuf → Bool) (fs_read : PathBuf → Result Bytes) where
  -- `SslKeyConfigVisitor::visit_str`
  unfoldable pub key_visit_str : (Bytes → Option ℕ) → Bytes → Result ℕ
  unfolding components
  key_visit_str private_key_from_pem v = if not (exists (components v)) then err other else (do
    content ← unwrap (fs_read (components v))
    ok_or (private_key_from_pem content) other)

  -- `SslCertConfigVisitor::visit_str`
  unfoldable pub certificate_visit_str : (Bytes → Option (List ℕ)) → Bytes → Result (List ℕ)
  unfolding components
  certificate_visit_str stack_from_pem v =
      if not (exists (components v))
      then err other
      else (do content ← unwrap (fs_read (components v)); ok_or (stack_from_pem content) other)

  -- `SslKeyConfig::deserialize`
  unfoldable pub deserialize_key : (Bytes → Option ℕ) → Given → Result ℕ
  unfolding key_visit_str deserialize_string
  deserialize_key private_key_from_pem given =
      deserialize_string given (text_visitor (key_visit_str private_key_from_pem))

  -- `SslCertConfig::deserialize`
  unfoldable pub deserialize_certificate : (Bytes → Option (List ℕ)) → Given → Result (List ℕ)
  unfolding certificate_visit_str deserialize_string
  deserialize_certificate stack_from_pem given =
      deserialize_string given (text_visitor (certificate_visit_str stack_from_pem))

-- Keys are compared by their public parts.
abbrev pub key_eq : (ℕ → ℕ → Bool) → ℕ → ℕ → Bool
key_eq public_eq key other_key = public_eq key other_key

-- What is set in a `SslContextBuilder`; `http2` is what its selection callback has captured.
pub record SslContext : Type 0 where
  pub private_key : ℕ
  pub certificate : ℕ
  pub extra_chain : List ℕ
  pub http2 : Bool

-- The protocol that is selected from what a client offers, if it offers any.
abbrev pub selected : SslContext → Option Bytes → Option Bytes
selected context none = none
selected context (some protos) = select_alpn context.http2 protos

module _ (takes_key takes_certificate : ℕ → Bool) where
  -- The loop over the certificates behind the first.
  unfoldable pub add_extra_chain : SslContext → List ℕ → Result SslContext
  add_extra_chain context [] = ok context
  add_extra_chain context (cert ∷ chain) =
      let rest =
        add_extra_chain (record context { extra_chain = context.extra_chain ++ (cert ∷ []) })
          chain in
      if takes_certificate cert then rest else panic

  -- The context of a configuration with a chain of certificates: the first one is its own.
  unfoldable pub context_of : Bool → ℕ → List ℕ → Result SslContext
  unfolding add_extra_chain
  context_of speaks_http2 key [] = panic
  context_of speaks_http2 key (cert ∷ chain) =
      if takes_key key && takes_certificate cert
      then add_extra_chain
          (record { private_key = key; certificate = cert; extra_chain = []; http2 = speaks_http2 })
          chain
      else panic

  add_extra_chain_lem :
      (context : SslContext) (chain : List ℕ)
      → All (λ c. takes_certificate c ≡ true) chain
      → add_extra_chain context chain
        ≡ ok (record context { extra_chain = context.extra_chain ++ chain })
  unfolding add_extra_chain
  add_extra_chain_lem context [] h = rw append-nil refl
  add_extra_chain_lem context (cert ∷ chain) (p, h) = rw p (
      rw
        (add_extra_chain_lem (record context { extra_chain = context.extra_chain ++ (cert ∷ []) })
          chain h)
        (rw append_assoc refl))

  module _ {M H : Type 0} where
    -- The callback for the name of a server.
    unfoldable pub servername_callback :
        ConfigMap (List (Plugin M H)) → Option Bytes → Result SslContext
    unfolding context_of get_config_for_request get_jequi
    servername_callback config_map servername = do
      config ← unwrap_option (get_config_for_request config_map servername none)
      conf ← unwrap_option (get_jequi config)
      key ← unwrap_option conf.ssl_key
      chain ← unwrap_option conf.ssl_certificate
      context_of conf.http2 key chain

    -- `HttpConn::new` with `ssl_new`: the protocol of a new connection, and over TLS the context.
    unfoldable pub accept :
        ConfigMap (List (Plugin M H))
        → Option Bytes
        → Option Bytes
        → Result (HttpConn × Option SslContext)
    unfolding servername_callback
    accept config_map servername protos = do
      conf ← unwrap_option (get_jequi config_map.config)
      if conf.tls_active
          then (do
            context ← servername_callback config_map servername
            ok (new_conn conf (selected context protos), some context))
          else ok (new_conn conf none, none)

    accept_lem :
        (config_map : ConfigMap (List (Plugin M H))) (servername protos : Option Bytes)
        (main : Config) (context : SslContext)
        → get_jequi config_map.config ≡ some main
        → main.tls_active ≡ true
        → servername_callback config_map servername ≡ ok context
        → accept config_map servername protos
          ≡ ok (new_conn main (selected context protos), some context)
    unfolding accept
    accept_lem config_map servername protos main context m tls e = rw m (rw tls (rw e refl))

    servername_callback_lem :
        (config_map : ConfigMap (List (Plugin M H))) (servername : Option Bytes) (conf : Config)
        (key leaf : ℕ) (chain : List ℕ)
        → get_jequi (host_scope config_map servername).0 ≡ some conf
        → conf.ssl_key ≡ some key
        → conf.ssl_certificate ≡ some (leaf ∷ chain)
        → takes_key key ≡ true
        → All (λ c. takes_certificate c ≡ true) (leaf ∷ chain)
        → servername_callback config_map servername
          ≡ ok (record {
            private_key = key;
            certificate = leaf;
            extra_chain = chain;
            http2 = conf.http2;
          })
    unfolding servername_callback context_of get_config_for_request select_path
    servername_callback_lem config_map servername conf key leaf chain c k certs tk (tc, h) = rw c (
        rw k (
          rw certs (
            rw tk (
              rw tc (
                add_extra_chain_lem
                  (record {
                    private_key = key;
                    certificate = leaf;
                    extra_chain = [];
                    http2 = conf.http2;
                  })
                  chain h)))))

    -- If the general configuration has TLS, a client that offers `h2`, wherever in its list, is shown
    -- the key and the whole chain of certificates of the host that it names (of the general
    -- configuration, where that host is not configured), and speaks HTTP/2 or HTTP/1 as that host
    -- has `http2` or not.
    pub accept-offer :
        (config_map : ConfigMap (List (Plugin M H))) (servername : Option Bytes)
        (main conf : Config) (key leaf : ℕ) (chain : List ℕ) (before after : List Bytes)
        → get_jequi config_map.config ≡ some main
        → main.tls_active ≡ true
        → get_jequi (host_scope config_map servername).0 ≡ some conf
        → conf.ssl_key ≡ some key
        → conf.ssl_certificate ≡ some (leaf ∷ chain)
        → takes_key key ≡ true
        → All (λ c. takes_certificate c ≡ true) (leaf ∷ chain)
        → accept config_map servername (some (offer (before ++ (codes "h2" ∷ after))))
          ≡ ok (
            if conf.http2 then http2 else http1_ssl,
            some (record {
              private_key = key;
              certificate = leaf;
              extra_chain = chain;
              http2 = conf.http2;
            }),
          )
    accept-offer config_map servername main conf key leaf chain before after m tls c k certs tk h =
        accept_lem config_map servername (some (offer (before ++ (codes "h2" ∷ after)))) main _ m
          tls (servername_callback_lem config_map servername conf key leaf chain c k certs tk h)
        ∙ rw (new_conn-offer main conf before after tls) refl

-- A client that offers one protocol whose name only has the bytes of `h2` and its length inside is
-- given `h2`, which it has not offered.
pub select_alpn_inside :
    (before after : Bytes)
    → select_alpn true (offer ((before ++ ((2 ∷ codes "h2") ++ after)) ∷ [])) ≡ some (codes "h2")
unfolding select_alpn
select_alpn_inside before after =
    let w : Bytes = before ++ ((2 ∷ codes "h2") ++ after) in
    rw append-nil (rw (has_window-append 2 (codes "h2") (length w ∷ before) after) refl)
