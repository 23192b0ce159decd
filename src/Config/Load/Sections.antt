-- ===== src/Config/Load/Sections.antt =====
-- The sections of a configuration file, by host and by path, and the scopes of the loaded
-- configuration that they are compared with.
use jequi.Prelude.{
  ◌≡◌, refl, ap, inl, inr, false, Option, none, some, List, [], ◌∷◌, arith, if◌then◌else◌,
  Option-cases, Bytes,
}
use jequi.Maps
use jequi.Maps.{bytes_Eq}
use jequi.Text.Split.{before}
use jequi.FilePath.{PathBuf, components, path_eq}
use jequi.Config.Select.{lookup_path, HostConfig, ConfigMap, host_scope}
use jequi.Config.Longest.{path_list}
use jequi.Config.Load.{ConfigMapParser, HostConfigParser, entries}
use jequi.Config.Load.Paths.{is_some}

pub none_of_is_some : {A : Type 0} (o : Option A) → is_some o ≡ false → o ≡ none
none_of_is_some none h = refl
none_of_is_some (some a) h = cc

pub entry_eq : {A B : Type 0} {a b : A} {x y : B} → x ≡ y → a ≡ b → ◌≡◌ {A = A × B} (a, x) (b, y)
entry_eq h k i = (k i, h i)

pub some_inj : {A : Type 0} {a b : A} → some a ≡ some b → a ≡ b
some_inj h = cc

module _ {V : Type 0} where
  -- The section of a path, with the text it stands under in the file.
  abbrev pub section_at : PathBuf → List (Bytes × V) → Option (Bytes × V)
  section_at p [] = none
  section_at p ((t, v) ∷ m) = if path_eq (components t) p then some (t, v) else section_at p m

  pub section_at-is_some :
      (p : PathBuf) (m : List (Bytes × V)) → is_some (section_at p m) ≡ is_some (lookup_path p m)
  unfolding lookup_path
  section_at-is_some p [] = refl
  section_at-is_some p ((t, v) ∷ m) = ground (arith, section_at-is_some p m)

  abbrev pub with_name : Bytes → Option (HostConfigParser V) → Option (Bytes × HostConfigParser V)
  with_name name none = none
  with_name name (some s) = some (name, s)

  -- The section of a host, with its name; a host that is no key of the file has none, and gets the
  -- default sections.
  abbrev pub host_section : ConfigMapParser V → Option Bytes → Option (Bytes × HostConfigParser V)
  host_section parser none = none
  host_section parser (some host) =
      with_name (before b':' host) (Maps.get (before b':' host) (entries parser.host))

  abbrev pub path_sections :
      ConfigMapParser V → Option (Bytes × HostConfigParser V) → List (Bytes × V)
  path_sections parser none = entries parser.path
  path_sections parser (some (name, s)) = entries s.path

pub path_list-entries : {C : Type 0} (o : Option (List (Bytes × C))) → path_list o ≡ entries o
path_list-entries none = refl
path_list-entries (some m) = refl

abbrev pub scope_of : {C : Type 0} → ConfigMap C → Option (HostConfig C) → C × List (Bytes × C)
scope_of cm none = (cm.config, entries cm.path)
scope_of cm (some hc) = (hc.config, entries hc.path)

pub host_scope-scope_of :
    {C : Type 0} (cm : ConfigMap C) (host : Bytes)
    → ((host_scope cm (some host)).0, path_list (host_scope cm (some host)).1)
      ≡ scope_of cm (Maps.get (before b':' host) (entries cm.host))
unfolding host_scope Maps.get
host_scope-scope_of cm host = elim (Option-cases cm.host) [
  | inl e ↦ rw (e, host_scope, Maps.get) (ap (λ o. (cm.config, o)) (path_list-entries cm.path))
  | inr (hosts, e) ↦ elim (Option-cases (Maps.get (before b':' host) hosts)) [
    | inl f ↦ rw (e, f, host_scope, Maps.get) (ap (λ o. (cm.config, o)) (path_list-entries cm.path))
    | inr (hc, f) ↦
        rw (e, f, host_scope, Maps.get) (ap (λ o. (hc.config, o)) (path_list-entries hc.path))
  ]
]

pub host_scope_default :
    {C : Type 0} (cm : ConfigMap C)
    → ((host_scope cm none).0, path_list (host_scope cm none).1) ≡ scope_of cm none
unfolding host_scope
host_scope_default cm = elim (Option-cases cm.host) [
  | inl e ↦ rw (e, host_scope) (ap (λ o. (cm.config, o)) (path_list-entries cm.path))
  | inr (hosts, e) ↦ rw (e, host_scope) (ap (λ o. (cm.config, o)) (path_list-entries cm.path))
]
