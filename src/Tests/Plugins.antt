-- ===== src/Tests/Plugins.antt =====
-- The plugins of the repository's plugins.txt, and lists of other plugins.
use jequi.Prelude.{
  false, Bool, ℕ, ◌≡◌, refl, ◌↔◌, true, Option, none, some, List, [], ◌∷◌, map, Bytes, codes,
  length, All, not_found, Result, ok, err,
}
use jequi.Plugins.Macros.Input.{MacroInput, parse, tokens}
use jequi.Plugins.Macros.Input.RoundTrip.{parse-tokens}
use jequi.Plugins.Loaded.Lookup.{find, get, as_server, as_static, find_without_go}
use jequi.Headers.{Header}
use jequi.Text.{bytes_eq}
use jequi.Text.Split.{before}
use jequi.Text.Trim.{trim}
use jequi.Text.Lines.{lines, raw_lines, without_return}
use jequi.Message.Request.{Request}
use jequi.Message.Response.{Response}
use jequi.Server.Plugin
use jequi.StaticFiles.Config as StaticConfig
use jequi.StaticFiles.Config.{dir}
use jequi.Proxy.Config as ProxyConfig
use jequi.Proxy.Config.{address}
use jequi.FilePath.{PathBuf, root_dir}
use jequi.Headers.Assoc.{assoc_ops}
use jequi.Server.Plugin.{get_jequi}
use jequi.Server.Handle.{handlers}
use jequi.StaticFiles.Plugin as StaticPlugin
use jequi.Proxy.Handle as ProxyHandle
use jequi.Plugins.Loaded.Handlers.{to_plugin, load_plugins-handlers}
use jequi.Go
use jequi.Plugins.Macros.{plugin_name, get_plugin_index, load_plugins}
use jequi.Plugins.Macros.Numbers.{plan-get_plugin_index}
use jequi.Plugins.Macros.Places.{load_plugins_total}
use jequi.Plugins.Loaded.{
  Loaded, plugins_txt, server, serve_static, proxy, go, Sections, load_plugin,
}
use jequi.Plugins.Loaded.Order.{planned, plan_lem, load_plugins-order}

-- A name that is not empty.
abbrev is_word : Bytes → Bool
is_word [] = false
is_word (c ∷ cs) = true

plan-get_plugin_index_example : All (λ e. get_plugin_index plugins_txt e.0 ≡ some e.1) planned
unfolding lines raw_lines without_return plugin_name before trim bytes_eq
plan-get_plugin_index_example =
    plan-get_plugin_index is_word plugins_txt planned (plan_lem is_word refl)
      ((refl, (refl, (refl, tt))), ((refl, (refl, tt)), ((refl, tt), (tt, tt))))

-- Every plugin is a number here.
abbrev number : Bytes → ℕ → List (Option ℕ) → Result (Option ℕ × List (Option ℕ))
number name config plugins = ok (some (length name), plugins)

load_plugins_total_example : (loaded : List ℕ) × (load_plugins number planned 0 ≡ ok loaded)
unfolding lines raw_lines without_return
load_plugins_total_example =
    load_plugins_total number is_word plugins_txt 0 planned (plan_lem is_word refl) refl
      (λ name ps. (some (length name), ps, refl, refl)) (λ ps. (5, ps, refl, refl))

abbrev M : Type 0
M = List Header

abbrev files : StaticConfig.Config
files = record StaticConfig.default { static_files_path = some (dir (root_dir ∷ [])) }

abbrev upstreams : ProxyConfig.Config M
upstreams = record { proxy_address = some (address (codes "a")); proxy_handlers = none }

abbrev sections : Sections ℕ M
sections = record {
  read_jequi = λ v. ok Plugin.default;
  read_static = λ v. ok files;
  read_proxy = λ v. ok upstreams;
  read_go = λ v. ok (some (codes "go.so"));
}

abbrev open_library : Bytes → Option ℕ
open_library path = some (length path)

abbrev handle : ℕ → Request M → Response M → Result (Request M × Response M)
handle lib req resp = ok (req, resp)

abbrev handle_proxy : ℕ → Request M → Response M → Result (Request M × Response M × Option Bytes)
handle_proxy lib req resp = ok (req, resp, some (codes "b"))

abbrev library : Go.Config ℕ
library = record { go_library_path = some (codes "go.so"); lib = some 5 }

load_plugins-order_example :
    load_plugins (load_plugin sections open_library handle handle_proxy) planned 0
    ≡ ok (
        server Plugin.default
        ∷ (go library
            ∷ (serve_static files
                ∷ (proxy (record upstreams {
                  proxy_handlers =
                      some (Go.proxy_handler open_library handle handle_proxy library ∷ []);
                })
                    ∷ []))))
unfolding Go.load StaticConfig.load ProxyConfig.load ProxyConfig.add_proxy_handler
load_plugins-order_example =
    load_plugins-order sections open_library handle handle_proxy 0 Plugin.default files upstreams
      (some (codes "go.so")) (some library) refl refl refl refl refl

abbrev no_file : PathBuf → Result Bytes
no_file p = err not_found

abbrev first : List Bytes → Option Bytes
first [] = none
first (a ∷ as_list) = some a

abbrev build_request : Bytes → Bytes → Bytes → Bytes → Option Bytes
build_request method scheme authority path = some path

abbrev echo : Bytes → M → Option Bytes → Result (ℕ × M × Bytes)
echo head headers body = ok (201, [], head)

load_plugins-handlers_example :
    (ls : List (Loaded M ℕ)) × (load_plugins
        (load_plugin sections open_library handle handle_proxy)
        planned
        0
      ≡ ok ls)
    × (get_jequi
          (map (to_plugin ℕ no_file first build_request echo open_library handle handle_proxy) ls)
        ≡ some Plugin.default)
    × (handlers
          (map (to_plugin ℕ no_file first build_request echo open_library handle handle_proxy) ls)
        ≡ Go.handle_request open_library handle handle_proxy ℕ library
          ∷ (StaticPlugin.request_handler no_file files
              ∷ (ProxyHandle.handle_request ℕ first build_request echo (record upstreams {
                proxy_handlers =
                    some (Go.proxy_handler open_library handle handle_proxy library ∷ []);
              })
                  ∷ [])))
unfolding Go.load StaticConfig.load ProxyConfig.load ProxyConfig.add_proxy_handler
load_plugins-handlers_example =
    load_plugins-handlers ℕ no_file first build_request echo open_library handle handle_proxy
      sections 0 Plugin.default files upstreams (some (codes "go.so")) (some library) refl refl refl
      refl refl

abbrev without_go : Sections ℕ M
without_go = record sections { read_go = λ v. ok none }

find_without_go_example :
    (ls : List (Loaded M ℕ)) × (load_plugins
        (load_plugin without_go open_library handle handle_proxy)
        planned
        0
      ≡ ok ls)
    × (find (codes "jequi") as_server ls ≡ some Plugin.default)
    × (find (codes "jequi_serve_static") as_static ls ≡ none)
    × (get as_static 1 ls ≡ some files)
unfolding Go.load StaticConfig.load
find_without_go_example =
    find_without_go without_go open_library handle handle_proxy 0 Plugin.default files files
      upstreams none refl refl refl refl refl refl

abbrev wants_proxy : MacroInput
wants_proxy = record {
  list = codes "configs";
  plugin = codes "jequi_proxy";
  comma2 = true;
  mutability = true;
  plugin_type = some (codes "Option");
}

parse-tokens_example :
    (parse (tokens wants_proxy) ≡ some wants_proxy) ↔ (tokens wants_proxy ≡ tokens wants_proxy)
parse-tokens_example = parse-tokens (tokens wants_proxy) wants_proxy
