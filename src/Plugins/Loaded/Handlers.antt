-- ===== src/Plugins/Loaded/Handlers.antt =====
-- The plugins as the server calls them: the `load_plugin` functions of jequi/src/lib.rs and of the
-- crates under plugins, which put a handler to each configuration. `fs_read` is the file system;
-- `choose`, `build_request` and `upstream` are as in Proxy/Handle, the rest as in Go.
use jequi.Prelude.{ℕ, ◌≡◌, refl, Option, none, some, List, ◌++◌, map, Bytes, Result, ok}
use jequi.FilePath.{PathBuf}
use jequi.Headers.{HeaderOps}
use jequi.Message.Request.{Request}
use jequi.Message.Response.{Response}
use jequi.Server.Plugin
use jequi.Server.Plugin.{Plugin, RequestHandler, own, foreign, get_jequi}
use jequi.Server.Handle.{handlers}
use jequi.StaticFiles.Config as StaticConfig
use jequi.StaticFiles.Plugin as StaticPlugin
use jequi.Proxy.Config as ProxyConfig
use jequi.Proxy.Handle as ProxyHandle
use jequi.Go
use jequi.Plugins.Macros.{load_plugins}
use jequi.Plugins.Loaded.{Loaded, server, serve_static, proxy, go, Sections, load_plugin}
use jequi.Plugins.Loaded.Order.{planned, only, with_go, load_plugins-order}

module _ {M L R : Type 0} ⦃ops : HeaderOps M⦄ (H : Type 0) (fs_read : PathBuf → Result Bytes)
    (choose : List Bytes → Option Bytes) (build_request : Bytes → Bytes → Bytes → Bytes → Option R)
    (upstream : R → M → Option Bytes → Result (ℕ × M × Bytes)) (open_library : Bytes → Option L)
    (handle : L → Request M → Response M → Result (Request M × Response M))
    (handle_proxy : L
      → Request M
      → Response M
      → Result (Request M × Response M × Option Bytes)) where
  abbrev pub go_handler : Go.Config L → RequestHandler M H
  go_handler conf = Go.handle_request open_library handle handle_proxy H conf

  abbrev pub proxy_handler : ProxyConfig.Config M → RequestHandler M H
  proxy_handler conf = ProxyHandle.handle_request H choose build_request upstream conf

  -- The plugin of a configuration; the numbers are those of `get_plugin!`.
  unfoldable pub to_plugin : Loaded M L → Plugin M H
  to_plugin (server conf) = record { config = own conf; request_handler = none }
  to_plugin (go conf) = record { config = foreign 1; request_handler = some (go_handler conf) }
  to_plugin (serve_static conf) = record {
    config = foreign 2;
    request_handler = some (StaticPlugin.request_handler fs_read conf);
  }
  to_plugin (proxy conf) = record {
    config = foreign 3;
    request_handler = some (proxy_handler conf);
  }

  handlers_each :
      (loaded : Option (Go.Config L)) (files : Option StaticConfig.Config)
      (address : Option (ProxyConfig.Config M))
      (with_handler : ProxyConfig.Config M → ProxyConfig.Config M)
      → handlers (
          map to_plugin (
            only go loaded
            ++ (only serve_static files ++ only (λ c. proxy (with_handler c)) address)))
        ≡ only go_handler loaded
          ++ (only (StaticPlugin.request_handler fs_read) files
              ++ only (λ c. proxy_handler (with_handler c)) address)
  unfolding to_plugin handlers
  handlers_each none none none w = refl
  handlers_each none none (some a) w = refl
  handlers_each none (some f) none w = refl
  handlers_each none (some f) (some a) w = refl
  handlers_each (some g) none none w = refl
  handlers_each (some g) none (some a) w = refl
  handlers_each (some g) (some f) none w = refl
  handlers_each (some g) (some f) (some a) w = refl

  -- Where every plugin of the repository can read its part of a section, the list of plugins that
  -- `load_plugins` gives has the server's own configuration where it is looked for, and the handlers
  -- of a request are the Go plugin's, that for static files and the proxy's, in this order, each only
  -- if its part of the section asks for it; and the proxy, if it is there together with the Go
  -- plugin, has that one's handler behind its own.
  pub load_plugins-handlers :
      {V : Type 0} (sections : Sections V M) (config : V) (main : Plugin.Config)
      (files : StaticConfig.Config) (address : ProxyConfig.Config M) (library : Option Bytes)
      (loaded : Option (Go.Config L))
      → sections.read_jequi config ≡ ok main
      → sections.read_static config ≡ ok files
      → sections.read_proxy config ≡ ok address
      → sections.read_go config ≡ ok library
      → Go.load open_library handle handle_proxy library ≡ ok loaded
      → (ls : List (Loaded M L)) × (load_plugins
            (load_plugin sections open_library handle handle_proxy)
            planned
            config
          ≡ ok ls)
        × (get_jequi (map to_plugin ls) ≡ some main)
        × (handlers (map to_plugin ls)
            ≡ only go_handler loaded
              ++ (only (StaticPlugin.request_handler fs_read) (StaticConfig.load files)
                  ++ only
                      (λ c. proxy_handler (with_go open_library handle handle_proxy loaded c))
                      (ProxyConfig.load address)))
  unfolding to_plugin get_jequi handlers
  load_plugins-handlers sections config main files address library loaded a b c d e = (
    _,
    load_plugins-order sections open_library handle handle_proxy config main files address library
        loaded a b c d e,
    refl,
    handlers_each loaded (StaticConfig.load files) (ProxyConfig.load address)
        (with_go open_library handle handle_proxy loaded),
  )
