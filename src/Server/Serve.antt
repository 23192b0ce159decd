-- ===== src/Server/Serve.antt =====
-- `handle_connection` of server/src/bin/jequi.rs: a connection that was accepted is opened, and
-- handled by what its protocol wants.
use jequi.Prelude.{ℕ, Bool, Option, List, Bytes, Result, ◌>>=◌}
use jequi.Config.Select.{ConfigMap}
use jequi.Server.Plugin.{Plugin}
use jequi.Server.Negotiate
use jequi.Server.Tls.{accept}

module _ (takes_key takes_certificate : ℕ → Bool) {M H A : Type 0} where
  -- `handle_http1` and `handle_http2` are the `handle_connection` of the two kinds of connection,
  -- `servername` and `protos` what a client says in the handshake.
  unfoldable pub handle_connection :
      (ConfigMap (List (Plugin M H)) → Result A)
      → (ConfigMap (List (Plugin M H)) → Result A)
      → Option Bytes
      → Option Bytes
      → ConfigMap (List (Plugin M H))
      → Result A
  unfolding accept Negotiate.handle_connection
  handle_connection handle_http1 handle_http2 servername protos config_map = do
    (http, _) ← accept takes_key takes_certificate config_map servername protos
    Negotiate.handle_connection (handle_http1 config_map) (handle_http2 config_map) http
