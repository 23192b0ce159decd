-- ===== src/Config/Load.antt =====
-- `ConfigMap::load` of jequi/src/config.rs. `V` is a YAML value of `serde_yaml` and `add_key` the
-- insertion of a text into it, which does nothing to a value that is no mapping; `load_plugins` is
-- the function that `load` is given (see Plugins).
pub mod Paths
pub mod Scopes
pub mod Sections
pub mod Requests
use jequi.Prelude.{
  ◌+◌, Option, none, some, List, [], ◌∷◌, ◌++◌, Bytes, codes, Result, ok, ◌>>=◌, unwrap,
}
use jequi.Maps
use jequi.Maps.{bytes_Eq}
use jequi.Config.Select.{insert_path, HostConfig, ConfigMap}

pub record HostConfigParser (V : Type 0) : Type 0 where
  pub path : Option (List (Bytes × V))
  pub config : V

pub record ConfigMapParser (V : Type 0) : Type 0 where
  pub host : Option (List (Bytes × HostConfigParser V))
  pub path : Option (List (Bytes × V))
  pub config : V

-- `Option::into_iter().flatten()` over an optional map, and `get_or_insert_default`
abbrev pub entries {ℓ} : {A : Type ℓ} → Option (List A) → List A
entries none = []
entries (some m) = m

module _ {V C : Type 0} (add_key : V → Bytes → Bytes → V) (load_plugins : V → Result C) where
  -- The general configuration is taken and left alone.
  unfoldable pub merge_config_and_load_plugins : V → V → Bytes → Bytes → Result C
  merge_config_and_load_plugins config_parser config_to_merge key_to_add value_to_add =
      load_plugins (add_key config_to_merge (codes "config_" ++ key_to_add) value_to_add)

  unfoldable pub load_paths :
      V → List (Bytes × V) → Option (List (Bytes × C)) → Result (Option (List (Bytes × C)))
  load_paths general [] loaded = ok loaded
  load_paths general ((path, parser) ∷ rest) loaded = do
    plugin_list ← merge_config_and_load_plugins general parser (codes "path") path
    load_paths general rest (some (insert_path path plugin_list (entries loaded)))

  unfoldable pub load_hosts :
      V
      → List (Bytes × HostConfigParser V)
      → Option (List (Bytes × HostConfig C))
      → Result (Option (List (Bytes × HostConfig C)))
  load_hosts general [] loaded = ok loaded
  load_hosts general ((host, parser) ∷ rest) loaded = do
    plugin_list ← merge_config_and_load_plugins general parser.config (codes "host") host
    path_config ← load_paths general (entries parser.path) none
    load_hosts general rest (
        some
          (Maps.insert host (record { path = path_config; config = plugin_list }) (entries loaded)))

  -- `ConfigMap::load` behind the reading of the file.
  unfoldable pub load : ConfigMapParser V → Result (ConfigMap C)
  load parser = do
    host ← load_hosts parser.config (entries parser.host) none
    path ← load_paths parser.config (entries parser.path) none
    config ← load_plugins parser.config
    ok (record { host = host; path = path; config = config })

  -- `ConfigMapParser::load_config`: `fs_open` is the file system and `from_reader` is `serde_yaml`'s.
  unfoldable pub load_config :
      {File : Type 0}
      → (Bytes → Result File)
      → (File → Result (ConfigMapParser V))
      → Bytes
      → Result (ConfigMapParser V)
  load_config fs_open from_reader filename = do
    file ← unwrap (fs_open filename)
    unwrap (from_reader file)

  -- `ConfigMap::load`
  unfoldable pub load_file :
      {File : Type 0}
      → (Bytes → Result File)
      → (File → Result (ConfigMapParser V))
      → Bytes
      → Result (ConfigMap C)
  unfolding load_config load
  load_file fs_open from_reader path = do parser ← load_config fs_open from_reader path; load parser
