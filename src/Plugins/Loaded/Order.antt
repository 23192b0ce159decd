-- ===== src/Plugins/Loaded/Order.antt =====
-- The order of the plugins of the repository, and the handler that one of them gives to another.
use jequi.Text.Split.{after, before}
use jequi.Text.Trim.{trim}
use jequi.Text.Lines.{without_return, raw_lines, lines}
use jequi.Prelude.{
  true, all, Bool, arith, ◌≡◌, refl, Option, none, some, List, [], ◌∷◌, ◌++◌, Bytes, codes, Result,
  ok,
}
use jequi.Message.Request.{Request}
use jequi.Message.Response.{Response}
use jequi.Server.Plugin
use jequi.StaticFiles.Config as StaticConfig
use jequi.Proxy.Config as ProxyConfig
use jequi.Proxy.Config.{add_proxy_handler}
use jequi.Go
use jequi.Text.{strip_prefix, bytes_eq}
use jequi.Maps
use jequi.Maps.{bytes_Eq}
use jequi.Plugins.Macros.{
  Planned, plan, load_plugins, plan_lines, plugin_name, line_info, run_plan, vec_insert,
  get_plugin_index,
}
use jequi.Plugins.Loaded.{
  plugins_txt, server, serve_static, proxy, go, Sections, load_plugin, load_go, add_to_proxy,
}

-- The Go plugin waits for the proxy, whose place is behind its own.
abbrev pub planned : List Planned
planned =
    (codes "jequi_serve_static", 2) ∷ ((codes "jequi_proxy", 3) ∷ ((codes "jequi_go", 1) ∷ []))

pub plan_lem :
    (is_ident : Bytes → Bool)
    → all (λ p. is_ident p.0) planned ≡ true
    → plan is_ident plugins_txt ≡ ok planned
unfolding plan plan_lines lines raw_lines without_return plugin_name line_info trim before after
    strip_prefix Maps.insert Maps.get bytes_eq
plan_lem is_ident h = rw h refl

abbrev pub only {ℓ κ} : {A : Type ℓ} {B : Type κ} → (A → B) → Option A → List B
only f none = []
only f (some a) = f a ∷ []

module _ {M L : Type 0} (open_library : Bytes → Option L)
    (handle : L → Request M → Response M → Result (Request M × Response M))
    (handle_proxy : L
      → Request M
      → Response M
      → Result (Request M × Response M × Option Bytes)) where
  -- The proxy's configuration, with the handler of the Go plugin if that is loaded.
  abbrev pub with_go : Option (Go.Config L) → ProxyConfig.Config M → ProxyConfig.Config M
  with_go none conf = conf
  with_go (some g) conf =
      add_proxy_handler conf (Go.proxy_handler open_library handle handle_proxy g)

module _ {V M L : Type 0} (sections : Sections V M) (open_library : Bytes → Option L)
    (handle : L → Request M → Response M → Result (Request M × Response M))
    (handle_proxy : L
      → Request M
      → Response M
      → Result (Request M × Response M × Option Bytes)) where
  -- Where every plugin of the repository can read its part of a section, the plugins of the section
  -- are the server's own, the Go plugin, the static files and the proxy, in this order, each but the
  -- first only if its part of the section asks for it; and the proxy, if it is there together with
  -- the Go plugin, has that one's handler behind its own.
  pub load_plugins-order :
      (config : V) (main : Plugin.Config) (files : StaticConfig.Config)
      (address : ProxyConfig.Config M) (library : Option Bytes) (loaded : Option (Go.Config L))
      → sections.read_jequi config ≡ ok main
      → sections.read_static config ≡ ok files
      → sections.read_proxy config ≡ ok address
      → sections.read_go config ≡ ok library
      → Go.load open_library handle handle_proxy library ≡ ok loaded
      → load_plugins (load_plugin sections open_library handle handle_proxy) planned config
        ≡ ok (
            server main
            ∷ (only go loaded
                ++ (only serve_static (StaticConfig.load files)
                    ++ only
                        (λ c. proxy (with_go open_library handle handle_proxy loaded c))
                        (ProxyConfig.load address))))
  unfolding load_plugins run_plan load_plugin load_go vec_insert bytes_eq add_to_proxy
      get_plugin_index
  load_plugins-order config main files address library none a b c d e =
      rw a (rw b (rw c (rw d (rw e (ground arith)))))
  load_plugins-order config main files address library (some g) a b c d e =
      rw a (rw b (rw c (rw d (rw e (ground arith)))))
