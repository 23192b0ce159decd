-- ===== src/Config/Select.antt =====
-- `ConfigMap::get_config_for_request`. `C` is a list of plugins, here any type. A path map has the
-- texts of its paths for keys, and compares them by their components, as `PathBuf` does.
use jequi.Prelude.{ℕ, zero, suc, Option, none, some, List, [], ◌∷◌, if◌then◌else◌, Bytes, length}
use jequi.Text.Split.{before}
use jequi.Maps
use jequi.Maps.{bytes_Eq}
use jequi.FilePath.{PathBuf, components, path_eq, pop}

module _ {C : Type 0} where
  unfoldable pub lookup_path : PathBuf → List (Bytes × C) → Option C
  lookup_path p [] = none
  lookup_path p ((text, c) ∷ m) = if path_eq (components text) p then some c else lookup_path p m

  unfoldable pub insert_path : Bytes → C → List (Bytes × C) → List (Bytes × C)
  insert_path text c [] = (text, c) ∷ []
  insert_path text c ((t, d) ∷ m) =
      if path_eq (components t) (components text) then (t, c) ∷ m else (t, d) ∷ insert_path text c m

pub record HostConfig (C : Type 0) : Type 0 where
  pub path : Option (List (Bytes × C))
  pub config : C

pub record ConfigMap (C : Type 0) : Type 0 where
  pub host : Option (List (Bytes × HostConfig C))
  pub path : Option (List (Bytes × C))
  pub config : C

module _ {C : Type 0} where
  -- The loop over the path and its parents. A path has fewer proper parents than it has components
  -- and one more, so that many rounds are enough; `none` stands for running out of them.
  unfoldable pub climb : ℕ → List (Bytes × C) → C → PathBuf → Option C
  climb zero m config p = none
  climb (suc fuel) m config p = elim (lookup_path p m) [
    | some c ↦ some c
    | none ↦ elim (pop p) [ none ↦ some config | some parent ↦ climb fuel m config parent ]
  ]

  -- The configuration and the path map of the host, if the request names a configured one; what
  -- follows a `:` in the host is its port.
  unfoldable pub host_scope : ConfigMap C → Option Bytes → C × Option (List (Bytes × C))
  host_scope cm host = elim cm.host [
    | none ↦ (cm.config, cm.path)
    | some hosts ↦ elim host [
      | none ↦ (cm.config, cm.path)
      | some name ↦ elim (Maps.get (before b':' name) hosts) [
        | none ↦ (cm.config, cm.path)
        | some hc ↦ (hc.config, hc.path)
      ]
    ]
  ]

  unfoldable pub select_path : C → Option (List (Bytes × C)) → Option Bytes → Option C
  unfolding climb
  select_path config paths none = some config
  select_path config none (some text) = some config
  select_path config (some []) (some text) = some config
  select_path config (some (e ∷ m)) (some text) = elim (lookup_path (components text) (e ∷ m)) [
    | some c ↦ some c
    | none ↦ climb (suc (length (components text))) (e ∷ m) config (components text)
  ]

  unfoldable pub get_config_for_request : ConfigMap C → Option Bytes → Option Bytes → Option C
  unfolding host_scope select_path
  get_config_for_request cm host path =
      let (config, paths) = host_scope cm host in select_path config paths path
