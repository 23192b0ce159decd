-- ===== src/Server/Tls/NewHttpConn.antt =====
-- `new_http_conn` of jequi/src/tcp_stream.rs, a second `HttpConn::new`.
use jequi.Prelude.{
  ℕ, ◌≡◌, refl, inl, inr, Bool, Option, none, some, List, if◌then◌else◌, Bool-cases, Option-cases,
  Bytes, codes, Result, ok, ◌>>=◌, unwrap_option,
}
use jequi.Config.Select.{ConfigMap}
use jequi.Server.Plugin.{Plugin, get_jequi}
use jequi.Server.Negotiate.{http1, version_of, HttpConn, http2, http1_ssl, new_conn}
use jequi.Text.{bytes_eq}
use jequi.Server.Tls.{SslContext, selected, servername_callback, accept}

module _ (takes_key takes_certificate : ℕ → Bool) where
  module _ {M H : Type 0} where
    -- `new_http_conn` of jequi/src/tcp_stream.rs, which does the same as `HttpConn::new`.
    unfoldable pub new_http_conn :
        ConfigMap (List (Plugin M H))
        → Option Bytes
        → Option Bytes
        → Result (HttpConn × Option SslContext)
    unfolding servername_callback
    new_http_conn config_map servername protos = do
      conf ← unwrap_option (get_jequi config_map.config)
      if conf.tls_active
          then (do
            context ← servername_callback takes_key takes_certificate config_map servername
            ok (
              if bytes_eq (version_of (selected context protos)) (codes "h2")
                  then http2
                  else http1_ssl,
              some context,
            ))
          else ok (http1, none)

    -- A connection is opened alike by both.
    pub new_http_conn-accept :
        (config_map : ConfigMap (List (Plugin M H))) (servername protos : Option Bytes)
        → new_http_conn config_map servername protos
          ≡ accept takes_key takes_certificate config_map servername protos
    unfolding new_http_conn accept new_conn
    new_http_conn-accept config_map servername protos =
        elim (Option-cases (get_jequi config_map.config)) [
          | inl e ↦ rw e refl
          | inr (conf, e) ↦ elim (Bool-cases conf.tls_active) [
            | inl t ↦ rw (e, t) refl
            | inr t ↦ rw (e, t) refl
          ]
        ]
