-- ===== src/Server/Plugin.antt =====
-- `Config`, `Plugin` and `ConfigList` of jequi/src/lib.rs, and the default configuration of
-- jequi/src/config.rs. Keys and certificates are left to `openssl`, and known by numbers. A
-- configuration of another plugin is known by its plugin's number.
use jequi.Prelude.{
  ℕ, ◌*◌, Bool, false, Option, none, some, List, [], ◌∷◌, Bytes, codes, Result, ok, ◌>>=◌, unwrap,
}
use jequi.Message.Hijack.{PostRequestHandler}
use jequi.Message.Request.{Request}
use jequi.Message.Response.{Response}

pub record Config : Type 0 where
  pub ip : Bytes
  pub port : ℕ
  pub tls_active : Bool
  pub http2 : Bool
  pub chunk_size : ℕ
  pub ssl_key : Option ℕ
  pub ssl_certificate : Option (List ℕ)

abbrev pub default : Config
default = record {
  ip = codes "127.0.0.1";
  port = 7878;
  tls_active = false;
  http2 = false;
  chunk_size = 1024 * 64;
  ssl_key = none;
  ssl_certificate = none;
}

-- `Config::load`; how a value is deserialised is `serde_yaml`'s.
abbrev pub load : {V : Type 0} → (V → Result Config) → V → Result (Option Config)
load deserialize config_yaml = do conf ← unwrap (deserialize config_yaml); ok (some conf)

pub data PluginConfig : Type 0 where
  own : Config → PluginConfig
  foreign : ℕ → PluginConfig

-- A handler takes the request and the response, and gives them back changed.
abbrev pub RequestHandler : Type 0 → Type 0 → Type 0
RequestHandler M H = Request M → Response M → Result (Request M × Response M × PostRequestHandler H)

pub record Plugin (M H : Type 0) : Type 0 where
  pub config : PluginConfig
  pub request_handler : Option (RequestHandler M H)

abbrev pub as_jequi : PluginConfig → Option Config
as_jequi (own c) = some c
as_jequi (foreign n) = none

-- `get_plugin!(list, jequi)`: the plugin of index 0, if it is the server's own.
unfoldable pub get_jequi : {M H : Type 0} → List (Plugin M H) → Option Config
get_jequi [] = none
get_jequi (p ∷ ps) = as_jequi p.config
