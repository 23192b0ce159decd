-- ===== src/Config/Load/Requests.antt =====
-- Which section of the configuration file a request is served by: `ConfigMap::load` and
-- `ConfigMap::get_config_for_request` together.
use jequi.Prelude.{
  ℕ, ◌≤◌, ◌<◌, ◌≡◌, sym, ap, subst, ◌∙◌, inl, inr, true, false, Option, none, some, List, [], ◌∷◌,
  Bool-cases, Option-cases, Bytes, codes, length, take, Result, ok,
}
use jequi.Maps
use jequi.Maps.{bytes_Eq}
use jequi.Text.{bytes_eq, bytes_eq_iff, starts_with_byte}
use jequi.Text.Split.{before}
use jequi.FilePath.{PathBuf, components, path_eq}
use jequi.FilePath.Laws.{path_eq_iff}
use jequi.Config.Select.{lookup_path, HostConfig, ConfigMap, host_scope, get_config_for_request}
use jequi.Config.Longest.{Longest, found, fallback, path_list, get_config_for_request-Longest}
use jequi.Config.Load.{ConfigMapParser, HostConfigParser, entries, load}
use jequi.Config.Load.Paths.{is_some, DistinctPaths, LoadsTo, EachPath, PathsLoaded}
use jequi.Config.Load.Scopes.{EachHost, DistinctHosts, IsLoaded, load-IsLoaded}
use jequi.Config.Load.Sections.{
  none_of_is_some, entry_eq, some_inj, host_scope-scope_of, host_scope_default, section_at-is_some,
  section_at, with_name, host_section, path_sections, scope_of,
}

module _ {V C : Type 0} (add_key : V → Bytes → Bytes → V) (load_plugins : V → Result C) where
  -- What the section itself, without its paths, loads to.
  abbrev pub OwnLoad : ConfigMapParser V → Option (Bytes × HostConfigParser V) → C → Type 0
  OwnLoad parser none c = load_plugins parser.config ≡ ok c
  OwnLoad parser (some (name, s)) c = LoadsTo add_key load_plugins (codes "host") s.config name c

  -- `r` is what the section of the longest prefix of `p` loads to, among those of `m`, or else what
  -- is `Own`.
  pub data Chosen (m : List (Bytes × V)) (Own : C → Type 0) (p : PathBuf) (r : C) : Type 0 where
    section :
        (k : ℕ) (key : Bytes) (v : V)
        → 0 < k
        → k ≤ length p
        → section_at (take k p) m ≡ some (key, v)
        → LoadsTo add_key load_plugins (codes "path") v key r
        → ((j : ℕ) → k < j → j ≤ length p → section_at (take j p) m ≡ none)
        → Chosen m Own p r
    own :
        Own r → ((j : ℕ) → 0 < j → j ≤ length p → section_at (take j p) m ≡ none) → Chosen m Own p r

  EachPath-section_at :
      (m : List (Bytes × V)) (loaded : List (Bytes × C)) (p : PathBuf) (key : Bytes) (v : V)
      → EachPath add_key load_plugins m loaded
      → section_at p m ≡ some (key, v)
      → (c : C) × LoadsTo add_key load_plugins (codes "path") v key c
        × (lookup_path p loaded ≡ some c)
  EachPath-section_at [] loaded p key v h e = cc
  EachPath-section_at ((t, w) ∷ m) loaded p key v ((c, loads, at), h) e =
      elim (Bool-cases (path_eq (components t) p)) [
        | inl same ↦
            subst
              (λ (a : Bytes × V).
                (x : C) × LoadsTo add_key load_plugins (codes "path") a.1 a.0 x
                × (lookup_path p loaded ≡ some x))
              (some_inj (rw same at e))
              (
                c,
                loads,
                ap (λ q. lookup_path q loaded) (sym ((path_eq_iff (components t) p).0 same)) ∙ at,
              )
        | inr ne ↦ EachPath-section_at m loaded p key v h (rw (ne) at e)
      ]

  EachHost-host_section :
      (m : List (Bytes × HostConfigParser V)) (loaded : List (Bytes × HostConfig C)) (name : Bytes)
      (s : HostConfigParser V)
      → EachHost add_key load_plugins m loaded
      → Maps.get name m ≡ some s
      → (hc : HostConfig C) × LoadsTo add_key load_plugins (codes "host") s.config name hc.config
        × PathsLoaded add_key load_plugins (entries s.path) (entries hc.path)
        × (Maps.get name loaded ≡ some hc)
  unfolding Maps.get
  EachHost-host_section [] loaded name s h e = cc
  EachHost-host_section ((t, w) ∷ m) loaded name s ((hc, loads, paths, at), h) e =
      elim (Bool-cases (bytes_eq t name)) [
        | inl same ↦
            subst
              (λ (a : Bytes × HostConfigParser V).
                (x : HostConfig C) × LoadsTo add_key load_plugins (codes "host") a.1.config a.0
                  x.config
                × PathsLoaded add_key load_plugins (entries a.1.path) (entries x.path)
                × (Maps.get a.0 loaded ≡ some x))
              (entry_eq (some_inj (rw (same, Maps.get) at e)) ((bytes_eq_iff t name).0 same))
              (hc, loads, paths, at)
        | inr ne ↦ EachHost-host_section m loaded name s h (rw (ne, Maps.get) at e)
      ]

  section_at-none :
      (m : List (Bytes × V)) (loaded : List (Bytes × C)) (p : PathBuf)
      → PathsLoaded add_key load_plugins m loaded
      → lookup_path p loaded ≡ none
      → section_at p m ≡ none
  section_at-none m loaded p (_, same) h =
      none_of_is_some (section_at p m) (section_at-is_some p m ∙ sym (same p) ∙ ap is_some h)

  section_at-some :
      (m : List (Bytes × V)) (loaded : List (Bytes × C)) (p : PathBuf) (r : C)
      → PathsLoaded add_key load_plugins m loaded
      → lookup_path p loaded ≡ some r
      → (key : Bytes) × (v : V) × (section_at p m ≡ some (key, v))
        × LoadsTo add_key load_plugins (codes "path") v key r
  section_at-some m loaded p r (each, same) h = elim (Option-cases (section_at p m)) [
    | inl e ↦
        let clash : true ≡ false =
          ap is_some (sym h) ∙ same p ∙ sym (section_at-is_some p m) ∙ ap is_some e in
        absurd cc
    | inr ((key, v), e) ↦
        let (c, loads, at) = EachPath-section_at m loaded p key v each e in
        (
          key,
          v,
          e,
          subst (LoadsTo add_key load_plugins (codes "path") v key) (some_inj (sym at ∙ h)) loads,
        )
  ]

  Longest-Chosen :
      (m : List (Bytes × V)) (loaded : List (Bytes × C)) (Own : C → Type 0) (d : C) (p : PathBuf)
      (r : C)
      → PathsLoaded add_key load_plugins m loaded
      → Own d
      → Longest loaded d p (length p) r
      → Chosen m Own p r
  Longest-Chosen m loaded Own d p r paths h (found k lo hi e above) =
      let (key, v, at, loads) = section_at-some m loaded (take k p) r paths e in
      section k key v lo hi at loads
        (λ j a b. section_at-none m loaded (take j p) paths (above j a b))
  Longest-Chosen m loaded Own d p r paths h (fallback e no_prefix) =
      own (subst Own (sym e) h)
        (λ j a b. section_at-none m loaded (take j p) paths (no_prefix j a b))

  -- A scope of the loaded configuration, and what it is in the file.
  abbrev ScopeLoaded :
      ConfigMapParser V → Option (Bytes × HostConfigParser V) → C × List (Bytes × C) → Type 0
  ScopeLoaded parser s scope =
      OwnLoad parser s scope.0 × PathsLoaded add_key load_plugins (path_sections parser s) scope.1

  get-ScopeLoaded :
      (parser : ConfigMapParser V) (cm : ConfigMap C) (name : Bytes)
      → IsLoaded add_key load_plugins parser cm
      → ScopeLoaded parser
          (with_name name (Maps.get name (entries parser.host)))
          (scope_of cm (Maps.get name (entries cm.host)))
  get-ScopeLoaded parser cm name h = elim (Option-cases (Maps.get name (entries parser.host))) [
    | inl e ↦
        let e' : Maps.get name (entries cm.host) ≡ none =
          none_of_is_some (Maps.get name (entries cm.host)) (h.no_other_host name ∙ ap is_some e) in
        rw (e, e') (h.default_config, h.paths)
    | inr (s, e) ↦
        let (hc, loads, paths, at) =
          EachHost-host_section (entries parser.host) (entries cm.host) name s h.hosts e in
        rw (e, at) (loads, paths)
  ]

  host_section-ScopeLoaded :
      (parser : ConfigMapParser V) (cm : ConfigMap C) (host : Option Bytes)
      → IsLoaded add_key load_plugins parser cm
      → ScopeLoaded parser
          (host_section parser host)
          ((host_scope cm host).0, path_list (host_scope cm host).1)
  unfolding host_scope
  host_section-ScopeLoaded parser cm none h =
      subst (ScopeLoaded parser none) (sym (host_scope_default cm)) (h.default_config, h.paths)
  host_section-ScopeLoaded parser cm (some host) h =
      subst (ScopeLoaded parser (host_section parser (some host)))
        (sym (host_scope-scope_of cm host)) (get-ScopeLoaded parser cm (before b':' host) h)

  -- After `load` of a file whose maps have distinct keys, a request whose path starts with `/` gets
  -- what `load_plugins` makes of one section of the file, alone: of the section of the longest
  -- prefix of the path (in components) that its host's sections have, with the key `config_path`
  -- added; if they have no prefix of it, of the host's own section with `config_host` added. A
  -- request without a host, or with a host that, up to its port, is no key of the file, is served
  -- by the default sections in the same way, with nothing added to the default section itself.
  pub get_config_for_request-load :
      (parser : ConfigMapParser V) (cm : ConfigMap C) (host : Option Bytes) (path : Bytes)
      → load add_key load_plugins parser ≡ ok cm
      → DistinctHosts add_key load_plugins (entries parser.host)
      → DistinctPaths (entries parser.path)
      → starts_with_byte b'/' path ≡ true
      → (r : C) × (get_config_for_request cm host (some path) ≡ some r)
        × Chosen
            (path_sections parser (host_section parser host))
            (OwnLoad parser (host_section parser host))
            (components path)
            r
  get_config_for_request-load parser cm host path h hosts paths absolute =
      let (r, run, best) = get_config_for_request-Longest cm host path absolute in
      let (own_load, sections) =
        host_section-ScopeLoaded parser cm host
          (load-IsLoaded add_key load_plugins parser cm h hosts paths) in
      (
        r,
        run,
        Longest-Chosen (path_sections parser (host_section parser host))
            (path_list (host_scope cm host).1) (OwnLoad parser (host_section parser host))
            (host_scope cm host).0 (components path) r sections own_load best,
      )
