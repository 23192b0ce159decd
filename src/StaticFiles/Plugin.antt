-- ===== src/StaticFiles/Plugin.antt =====
-- `load_plugin` of plugins/jequi_serve_static/src/lib.rs: the plugin of a section that was
-- deserialised. `number` is the plugin's number.
use jequi.Prelude.{ℕ, Option, none, some, Bytes, Result, ok, ◌>>=◌}
use jequi.FilePath.{PathBuf}
use jequi.Headers.{HeaderOps}
use jequi.Server.Plugin.{Plugin, foreign}
use jequi.StaticFiles.Config.{Config, load}
use jequi.StaticFiles.Handle
use jequi.Message.Request.{Request}
use jequi.Message.Response.{Response}
use jequi.Server.Handle.{Handled}

module _ {M H : Type 0} ⦃ops : HeaderOps M⦄ (fs_read : PathBuf → Result Bytes) where
  -- The closure: the request is left as it is.
  abbrev pub request_handler : Config → Request M → Response M → Result (Handled M H)
  request_handler conf req resp = do
    (answered, post) ← Handle.handle_request H fs_read conf req resp
    ok (req, answered, post)

  unfoldable pub load_plugin : ℕ → Config → Option (Plugin M H)
  unfolding load
  load_plugin number section = elim (load section) [
    | none ↦ none
    | some conf ↦
        some (record { config = foreign number; request_handler = some (request_handler conf) })
  ]
