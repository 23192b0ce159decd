-- ===== src/Config/Load/Paths.antt =====
-- What the paths of a section load to.
use jequi.Prelude.{
  ok_injective, ◌≡◌, refl, sym, ap, ◌∙◌, inl, inr, Bool, true, false, Option, none, some, List, [],
  ◌∷◌, ◌++◌, arith, if◌then◌else◌, Bool-cases, Option-cases, Bytes, codes, All, Result, ok,
  >>=-eq-ok,
}
use jequi.Maps.{bytes_Eq}
use jequi.FilePath.{PathBuf, components, path_eq}
use jequi.FilePath.Laws.{path_eq_iff}
use jequi.Config.Select.{lookup_path, insert_path}
use jequi.Config.Load.{entries, merge_config_and_load_plugins, load_paths}

abbrev pub is_some : {A : Type 0} → Option A → Bool
is_some none = false
is_some (some a) = true

module _ {C : Type 0} where
  lookup_path-insert_path :
      (text : Bytes) (c : C) (p : PathBuf) (m : List (Bytes × C))
      → lookup_path p (insert_path text c m)
        ≡ (if path_eq (components text) p then some c else lookup_path p m)
  unfolding lookup_path insert_path
  lookup_path-insert_path text c p [] = refl
  lookup_path-insert_path text c p ((t, d) ∷ m) = ground (
    arith,
    lookup_path-insert_path text c p m,
    path_eq_iff (components t) (components text),
    path_eq_iff (components t) p,
    path_eq_iff (components text) p,
  )

  -- No two keys of a path map are the same path, as in every `HashMap`.
  abbrev pub DistinctPaths : List (Bytes × C) → Type 0
  DistinctPaths [] = Unit
  DistinctPaths ((t, v) ∷ m) = (lookup_path (components t) m ≡ none) × DistinctPaths m

module _ {V C : Type 0} (add_key : V → Bytes → Bytes → V) (load_plugins : V → Result C) where
  -- What `load_plugins` gives for a section to which the key `config_<kind>` was added.
  abbrev pub LoadsTo : Bytes → V → Bytes → C → Type 0
  LoadsTo kind section key c = load_plugins (add_key section (codes "config_" ++ kind) key) ≡ ok c

  -- `loaded` has, for each path of `m`, what its own section loads to.
  abbrev pub EachPath : List (Bytes × V) → List (Bytes × C) → Type 0
  EachPath m loaded =
      All
        (λ e.
          (c : C) × LoadsTo (codes "path") e.1 e.0 c
          × (lookup_path (components e.0) loaded ≡ some c))
        m

  -- ... and nothing else.
  abbrev pub PathsLoaded : List (Bytes × V) → List (Bytes × C) → Type 0
  PathsLoaded m loaded =
      EachPath m loaded
      × ((p : PathBuf) → is_some (lookup_path p loaded) ≡ is_some (lookup_path p m))

  lookup_path-ne :
      (t : Bytes) (v : V) (m : List (Bytes × V)) (p : PathBuf)
      → lookup_path p ((t, v) ∷ m) ≡ none
      → (path_eq (components t) p ≡ false) × (lookup_path p m ≡ none)
  unfolding lookup_path
  lookup_path-ne t v m p h = ground arith

  load_paths_frame :
      (general : V) (m : List (Bytes × V)) (o o' : Option (List (Bytes × C))) (p : PathBuf)
      → load_paths add_key load_plugins general m o ≡ ok o'
      → lookup_path p m ≡ none
      → lookup_path p (entries o') ≡ lookup_path p (entries o)
  unfolding load_paths
  load_paths_frame general [] o o' p h k =
      ap (λ x. lookup_path p (entries x)) (sym (ok_injective h))
  load_paths_frame general ((t, v) ∷ m) o o' p h k =
      let (c, _, rest) =
        >>=-eq-ok (merge_config_and_load_plugins add_key load_plugins general v (codes "path") t)
          (λ c. load_paths add_key load_plugins general m (some (insert_path t c (entries o)))) h in
      load_paths_frame general m (some (insert_path t c (entries o))) o' p rest
        (lookup_path-ne t v m p k).1
      ∙ lookup_path-insert_path t c p (entries o)
      ∙ rw (lookup_path-ne t v m p k).0 refl

  load_paths_each :
      (general : V) (m : List (Bytes × V)) (o o' : Option (List (Bytes × C)))
      → load_paths add_key load_plugins general m o ≡ ok o'
      → DistinctPaths m
      → EachPath m (entries o')
  unfolding load_paths merge_config_and_load_plugins
  load_paths_each general [] o o' h k = tt
  load_paths_each general ((t, v) ∷ m) o o' h (fresh, k) =
      let (c, loads, rest) =
        >>=-eq-ok (merge_config_and_load_plugins add_key load_plugins general v (codes "path") t)
          (λ c. load_paths add_key load_plugins general m (some (insert_path t c (entries o)))) h in
      (
        (
          c,
          loads,
          load_paths_frame general m (some (insert_path t c (entries o))) o' (components t) rest
                fresh
              ∙ lookup_path-insert_path t c (components t) (entries o)
              ∙ rw ((path_eq_iff (components t) (components t)).1 refl) refl,
        ),
        load_paths_each general m (some (insert_path t c (entries o))) o' rest k,
      )

  EachPath-lookup :
      (m : List (Bytes × V)) (loaded : List (Bytes × C)) (p : PathBuf) (v : V)
      → EachPath m loaded
      → lookup_path p m ≡ some v
      → is_some (lookup_path p loaded) ≡ true
  unfolding lookup_path
  EachPath-lookup [] loaded p v h e = cc
  EachPath-lookup ((t, w) ∷ m) loaded p v ((c, _, found), h) e =
      elim (Bool-cases (path_eq (components t) p)) [
        | inl same ↦
            ap is_some
              (ap (λ q. lookup_path q loaded) (sym ((path_eq_iff (components t) p).0 same)) ∙ found)
        | inr ne ↦ EachPath-lookup m loaded p v h (rw (ne, lookup_path) at e)
      ]

  pub load_paths-PathsLoaded :
      (general : V) (m : List (Bytes × V)) (o' : Option (List (Bytes × C)))
      → load_paths add_key load_plugins general m none ≡ ok o'
      → DistinctPaths m
      → PathsLoaded m (entries o')
  unfolding lookup_path
  load_paths-PathsLoaded general m o' h k = (
    load_paths_each general m none o' h k,
    λ p. elim (Option-cases (lookup_path p m)) [
      | inl e ↦ ap is_some (load_paths_frame general m none o' p h e) ∙ ap is_some (sym e)
      | inr (v, e) ↦
          EachPath-lookup m (entries o') p v (load_paths_each general m none o' h k) e
          ∙ ap is_some (sym e)
    ],
  )
