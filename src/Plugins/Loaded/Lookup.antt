-- ===== src/Plugins/Loaded/Lookup.antt =====
-- What `get_plugin!` finds in the list that `load_plugins` gives.
use jequi.Prelude.{
  ℕ, zero, suc, ◌≡◌, refl, inl, inr, Option, none, some, List, [], ◌∷◌, Option-cases, Bytes, codes,
  Result, ok, panic,
}
use jequi.Message.Request.{Request}
use jequi.Message.Response.{Response}
use jequi.Server.Plugin
use jequi.StaticFiles.Config as StaticConfig
use jequi.Proxy.Config as ProxyConfig
use jequi.Go
use jequi.Plugins.Macros.{get_plugin_index, load_plugins}
use jequi.Plugins.Loaded.{Loaded, server, serve_static, Sections, load_plugin, plugins_txt}
use jequi.Plugins.Loaded.Order.{planned, load_plugins-order}

-- `list.get(index)` with `downcast_ref`, which gives nothing for a configuration of another type.
unfoldable pub get : {P C : Type 0} → (P → Option C) → ℕ → List P → Option C
get downcast_ref i [] = none
get downcast_ref zero (p ∷ ps) = downcast_ref p
get downcast_ref (suc i) (p ∷ ps) = get downcast_ref i ps

-- The same in a list of plugins that may be missing, with `mut Option`: another type is a panic.
unfoldable pub get_option_mut :
    {P C : Type 0} → (P → Option C) → ℕ → List (Option P) → Result (Option C)
get_option_mut downcast_mut i [] = ok none
get_option_mut downcast_mut zero (none ∷ ps) = ok none
get_option_mut downcast_mut zero (some p ∷ ps) = elim (downcast_mut p) [
  | none ↦ panic
  | some conf ↦ ok (some conf)
]
get_option_mut downcast_mut (suc i) (p ∷ ps) = get_option_mut downcast_mut i ps

module _ {M L : Type 0} where
  abbrev pub as_server : Loaded M L → Option Plugin.Config
  as_server (server conf) = some conf
  as_server _ = none

  abbrev pub as_static : Loaded M L → Option StaticConfig.Config
  as_static (serve_static conf) = some conf
  as_static _ = none

  -- `get_plugin!(list, <name>)`
  unfoldable pub find :
      {C : Type 0} → Bytes → (Loaded M L → Option C) → List (Loaded M L) → Option C
  unfolding get get_plugin_index
  find name downcast_ref ls = elim (get_plugin_index plugins_txt name) [
    | none ↦ none
    | some i ↦ get downcast_ref i ls
  ]

module _ {V M L : Type 0} (sections : Sections V M) (open_library : Bytes → Option L)
    (handle : L → Request M → Response M → Result (Request M × Response M))
    (handle_proxy : L
      → Request M
      → Response M
      → Result (Request M × Response M × Option Bytes)) where
  -- In the list of a section that has static files but not the Go plugin, the server's own
  -- configuration is found, and that of the static files is not, though it is there: the list has no
  -- place for a plugin that is not loaded, and `get_plugin!` counts one.
  pub find_without_go :
      (config : V) (main : Plugin.Config) (files found : StaticConfig.Config)
      (address : ProxyConfig.Config M) (library : Option Bytes)
      → sections.read_jequi config ≡ ok main
      → sections.read_static config ≡ ok files
      → sections.read_proxy config ≡ ok address
      → sections.read_go config ≡ ok library
      → Go.load open_library handle handle_proxy library ≡ ok none
      → StaticConfig.load files ≡ some found
      → (ls : List (Loaded M L)) × (load_plugins
            (load_plugin sections open_library handle handle_proxy)
            planned
            config
          ≡ ok ls)
        × (find (codes "jequi") as_server ls ≡ some main)
        × (find (codes "jequi_serve_static") as_static ls ≡ none)
        × (get as_static 1 ls ≡ some found)
  unfolding find get
  find_without_go config main files found address library a b c d e f = (
    _,
    load_plugins-order sections open_library handle handle_proxy config main files address library
        none a b c d e,
    refl,
    elim (Option-cases (ProxyConfig.load address)) [
      | inl g ↦ rw (f, g) refl
      | inr (p, g) ↦ rw (f, g) refl
    ],
    rw f refl,
  )
