-- ===== src/Config/Load/Scopes.antt =====
-- Every scope of the loaded configuration is its own section of the file, loaded on its own.
use jequi.Prelude.{
  ok_injective, inl, inr, Bool-cases, Option-cases, true, subst, ◌≡◌, refl, sym, ap, ◌∙◌, false,
  Option, none, some, List, [], ◌∷◌, arith, Bytes, codes, All, Result, ok, >>=-eq-ok,
}
use jequi.Maps
use jequi.Maps.{bytes_Eq, get-insert}
use jequi.Text.{bytes_eq, bytes_eq_iff}
use jequi.Config.Select.{HostConfig, ConfigMap}
use jequi.Config.Load.{
  ConfigMapParser, load, HostConfigParser, entries, merge_config_and_load_plugins, load_paths,
  load_hosts,
}
use jequi.Config.Load.Paths.{is_some, DistinctPaths, LoadsTo, PathsLoaded, load_paths-PathsLoaded}

module _ {V C : Type 0} (add_key : V → Bytes → Bytes → V) (load_plugins : V → Result C) where
  -- `loaded` has, for each host of `m`, what its section loads to, and the paths of that section.
  abbrev pub EachHost : List (Bytes × HostConfigParser V) → List (Bytes × HostConfig C) → Type 0
  EachHost m loaded =
      All
        (λ e.
          (hc : HostConfig C) × LoadsTo add_key load_plugins (codes "host") e.1.config e.0 hc.config
          × PathsLoaded add_key load_plugins (entries e.1.path) (entries hc.path)
          × (Maps.get e.0 loaded ≡ some hc))
        m

  abbrev pub DistinctHosts : List (Bytes × HostConfigParser V) → Type 0
  DistinctHosts [] = Unit
  DistinctHosts ((t, v) ∷ m) =
      (Maps.get t m ≡ none) × DistinctPaths (entries v.path) × DistinctHosts m

  get-ne :
      (t : Bytes) (v : HostConfigParser V) (m : List (Bytes × HostConfigParser V)) (name : Bytes)
      → Maps.get name ((t, v) ∷ m) ≡ none
      → (bytes_eq t name ≡ false) × (Maps.get name m ≡ none)
  unfolding Maps.get
  get-ne t v m name h = ground arith

  load_hosts_frame :
      (general : V) (m : List (Bytes × HostConfigParser V))
      (o o' : Option (List (Bytes × HostConfig C))) (name : Bytes)
      → load_hosts add_key load_plugins general m o ≡ ok o'
      → Maps.get name m ≡ none
      → Maps.get name (entries o') ≡ Maps.get name (entries o)
  unfolding load_hosts
  load_hosts_frame general [] o o' name h k =
      ap (λ x. Maps.get name (entries x)) (sym (ok_injective h))
  load_hosts_frame general ((t, v) ∷ m) o o' name h k =
      let (c, loads, h1) =
        >>=-eq-ok
          (merge_config_and_load_plugins add_key load_plugins general v.config (codes "host") t) _
          h in
      let (ps, loads_paths, rest) =
        >>=-eq-ok (load_paths add_key load_plugins general (entries v.path) none) _ h1 in
      load_hosts_frame general m
        (some (Maps.insert t (record { path = ps; config = c }) (entries o))) o' name rest
        (get-ne t v m name k).1
      ∙ get-insert t name (record { path = ps; config = c }) (entries o)
      ∙ rw (get-ne t v m name k).0 refl

  load_hosts_each :
      (general : V) (m : List (Bytes × HostConfigParser V))
      (o o' : Option (List (Bytes × HostConfig C)))
      → load_hosts add_key load_plugins general m o ≡ ok o'
      → DistinctHosts m
      → EachHost m (entries o')
  unfolding load_hosts merge_config_and_load_plugins
  load_hosts_each general [] o o' h k = tt
  load_hosts_each general ((t, v) ∷ m) o o' h (fresh, paths, k) =
      let (c, loads, h1) =
        >>=-eq-ok
          (merge_config_and_load_plugins add_key load_plugins general v.config (codes "host") t) _
          h in
      let (ps, loads_paths, rest) =
        >>=-eq-ok (load_paths add_key load_plugins general (entries v.path) none) _ h1 in
      let hc : HostConfig C = record { path = ps; config = c } in
      (
        (
          hc,
          loads,
          load_paths-PathsLoaded add_key load_plugins general (entries v.path) ps loads_paths paths,
          load_hosts_frame general m (some (Maps.insert t hc (entries o))) o' t rest fresh
              ∙ get-insert t t hc (entries o)
              ∙ rw ((bytes_eq_iff t t).1 refl) refl,
        ),
        load_hosts_each general m (some (Maps.insert t hc (entries o))) o' rest k,
      )

  EachHost-get :
      (m : List (Bytes × HostConfigParser V)) (loaded : List (Bytes × HostConfig C)) (name : Bytes)
      (v : HostConfigParser V)
      → EachHost m loaded
      → Maps.get name m ≡ some v
      → is_some (Maps.get name loaded) ≡ true
  unfolding Maps.get
  EachHost-get [] loaded name v h e = cc
  EachHost-get ((t, w) ∷ m) loaded name v ((hc, _, _, found), h) e =
      elim (Bool-cases (bytes_eq t name)) [
        | inl same ↦
            ap is_some (ap (λ q. Maps.get q loaded) (sym ((bytes_eq_iff t name).0 same)) ∙ found)
        | inr ne ↦ EachHost-get m loaded name v h (rw (ne, Maps.get) at e)
      ]

  -- What the sections of a file load to, one by one.
  pub record IsLoaded (parser : ConfigMapParser V) (cm : ConfigMap C) : Type 0 where
    pub default_config : load_plugins parser.config ≡ ok cm.config
    pub hosts : EachHost (entries parser.host) (entries cm.host)
    pub no_other_host :
        (name : Bytes)
        → is_some (Maps.get name (entries cm.host)) ≡ is_some (Maps.get name (entries parser.host))
    pub paths : PathsLoaded add_key load_plugins (entries parser.path) (entries cm.path)

  -- When `load` succeeds on a file whose maps have distinct keys, the default configuration is what
  -- the default section loads to; each host, each of its paths and each default path has what its
  -- own section loads to, with `config_host` or `config_path` added; and no other host or path is
  -- configured. Sections are not merged.
  pub load-IsLoaded :
      (parser : ConfigMapParser V) (cm : ConfigMap C)
      → load add_key load_plugins parser ≡ ok cm
      → DistinctHosts (entries parser.host)
      → DistinctPaths (entries parser.path)
      → IsLoaded parser cm
  unfolding load Maps.get
  load-IsLoaded parser cm h hosts paths =
      let (hs, lh, h1) =
        >>=-eq-ok (load_hosts add_key load_plugins parser.config (entries parser.host) none) _ h in
      let (ps, lp, h2) =
        >>=-eq-ok (load_paths add_key load_plugins parser.config (entries parser.path) none) _ h1 in
      let (c, lc, h3) = >>=-eq-ok (load_plugins parser.config) _ h2 in
      let each : EachHost (entries parser.host) (entries hs) =
        load_hosts_each parser.config (entries parser.host) none hs lh hosts in
      subst (IsLoaded parser) (ok_injective h3) (record {
        default_config = lc;
        hosts = each;
        no_other_host = λ name. elim (Option-cases (Maps.get name (entries parser.host))) [
          | inl e ↦
              ap is_some (load_hosts_frame parser.config (entries parser.host) none hs name lh e)
              ∙ ap is_some (sym e)
          | inr (v, e) ↦
              EachHost-get (entries parser.host) (entries hs) name v each e ∙ ap is_some (sym e)
        ];
        paths =
            load_paths-PathsLoaded add_key load_plugins parser.config (entries parser.path) ps lp
              paths;
      })
