-- ===== src/Plugins/Loaded.antt =====
-- `load_plugins` as the macro writes it for the plugins of the repository. A section of the
-- configuration is `V`; how each plugin reads its own part of it (`serde`) is a parameter. A plugin's
-- handler shares its configuration with the list of plugins, so here it is made from that.
pub mod Order
pub mod Handlers
pub mod Lookup
use jequi.Prelude.{
  ℕ, zero, suc, ◌-◌, Option, none, some, List, [], ◌∷◌, if◌then◌else◌, Bytes, codes, Result, ok,
  panic, ◌>>=◌, unwrap, unwrap_option,
}
use jequi.Text.{bytes_eq}
use jequi.Message.Request.{Request}
use jequi.Message.Response.{Response}
use jequi.Server.Plugin
use jequi.Server.Plugin.{Plugin}
use jequi.StaticFiles.Config as StaticConfig
use jequi.Proxy.Config as ProxyConfig
use jequi.Proxy.Config.{RequestProxyHandler, add_proxy_handler}
use jequi.Go
use jequi.Plugins.Macros.{get_plugin_index}

-- plugins.txt
abbrev pub plugins_txt : Bytes
plugins_txt = codes "jequi_go - require jequi_proxy\njequi_serve_static\njequi_proxy\n"

-- The configuration of a loaded plugin.
pub data Loaded (M L : Type 0) : Type 0 where
  server : Plugin.Config → Loaded M L
  serve_static : StaticConfig.Config → Loaded M L
  proxy : ProxyConfig.Config M → Loaded M L
  go : Go.Config L → Loaded M L

module _ {M L : Type 0} where
  -- `get_plugin!(configs, jequi_proxy, mut Option)` and the addition of the handler: nothing happens
  -- where no plugin is loaded at the index, and another plugin there is a panic.
  unfoldable pub add_to_proxy :
      ℕ → RequestProxyHandler M → List (Option (Loaded M L)) → Result (List (Option (Loaded M L)))
  unfolding add_proxy_handler
  add_to_proxy i handler [] = ok []
  add_to_proxy zero handler (none ∷ ps) = ok (none ∷ ps)
  add_to_proxy zero handler (some (proxy conf) ∷ ps) =
      ok (some (proxy (add_proxy_handler conf handler)) ∷ ps)
  add_to_proxy zero handler (some p ∷ ps) = panic
  add_to_proxy (suc i) handler (p ∷ ps) = do rest ← add_to_proxy i handler ps; ok (p ∷ rest)

-- How the plugins read a section.
pub record Sections (V : Type 0) (M : Type 0) : Type 0 where
  pub read_jequi : V → Result Plugin.Config
  pub read_static : V → Result StaticConfig.Config
  pub read_proxy : V → Result (ProxyConfig.Config M)
  pub read_go : V → Result (Option Bytes)

module _ {V M L : Type 0} (sections : Sections V M) (open_library : Bytes → Option L)
    (handle : L → Request M → Response M → Result (Request M × Response M))
    (handle_proxy : L
      → Request M
      → Response M
      → Result (Request M × Response M × Option Bytes)) where
  unfoldable pub load_go :
      V → List (Option (Loaded M L)) → Result (Option (Loaded M L) × List (Option (Loaded M L)))
  unfolding Go.load Go.proxy_handler add_to_proxy get_plugin_index
  load_go config plugins = do
    path ← unwrap (sections.read_go config)
    loaded ← Go.load open_library handle handle_proxy path
    elim loaded [
      | none ↦ ok (none, plugins)
      | some conf ↦ do
        i ← unwrap_option (get_plugin_index plugins_txt (codes "jequi_proxy"))
        changed ← add_to_proxy i (Go.proxy_handler open_library handle handle_proxy conf) plugins
        ok (some (go conf), changed)
    ]

  -- The `load_plugin` of the crate of a name.
  unfoldable pub load_plugin :
      Bytes
      → V
      → List (Option (Loaded M L))
      → Result (Option (Loaded M L) × List (Option (Loaded M L)))
  unfolding load_go bytes_eq
  load_plugin name config plugins =
      if bytes_eq name (codes "jequi")
      then (do
        conf ← Plugin.load sections.read_jequi config
        ok (elim conf [ none ↦ none | some c ↦ some (server c) ], plugins))
      else if bytes_eq name (codes "jequi_serve_static")
      then (do
        conf ← unwrap (sections.read_static config)
        ok (
          elim (StaticConfig.load conf) [ none ↦ none | some c ↦ some (serve_static c) ],
          plugins,
        ))
      else if bytes_eq name (codes "jequi_proxy")
      then (do
        conf ← unwrap (sections.read_proxy config)
        ok (elim (ProxyConfig.load conf) [ none ↦ none | some c ↦ some (proxy c) ], plugins))
      else load_go config plugins
