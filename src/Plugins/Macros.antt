-- ===== src/Plugins/Macros.antt =====
-- `get_plugin!` and `load_plugins!` of plugins/src/lib.rs. The macros run when the program is built;
-- `contents` is the text of plugins.txt.
pub mod Numbers
pub mod Places
pub mod Input
use jequi.Prelude.{
  ◌∙◌, inl, inr, Bool-cases, >>=-eq-ok, ◌≡◌, all, Bool, ℕ, suc, ◌+◌, Option, none, some, List, [],
  ◌∷◌, ◌++◌, leb, if◌then◌else◌, Bytes, codes, length, take, drop, replicate, Result, ok, panic,
  ◌>>=◌, unwrap_option,
}
use jequi.Text.{bytes_eq, strip_prefix}
use jequi.Text.Split.{before, after}
use jequi.Text.Trim.{trim}
use jequi.Text.Lines.{lines}
use jequi.Maps
use jequi.Maps.{bytes_Eq}

-- `line.split('-').next().unwrap().trim()`
unfoldable pub plugin_name : Bytes → Bytes
unfolding before trim
plugin_name line = trim (before b'-' line)

-- The loop of `get_plugin!`, which keeps the last match; `i` is the number of the next line.
unfoldable pub find_plugin : Bytes → ℕ → List Bytes → Option ℕ → Option ℕ
unfolding plugin_name bytes_eq
find_plugin name i [] index = index
find_plugin name i (line ∷ ls) index =
    find_plugin name (suc i) ls (if bytes_eq (plugin_name line) name then some i else index)

-- The index that `get_plugin!` puts into the program; `none` is the error "invalid plugin name".
unfoldable pub get_plugin_index : Bytes → Bytes → Option ℕ
unfolding find_plugin lines
get_plugin_index contents name = find_plugin name 0 (lines (codes "jequi\n" ++ contents)) none

-- A plugin and the place in which it is inserted.
abbrev pub Planned : Type 0
Planned = Bytes × ℕ

-- The second part of a line, if it has one.
unfoldable pub line_info : Bytes → Option Bytes
unfolding before after
line_info line = elim (after b'-' line) [ none ↦ none | some rest ↦ some (before b'-' rest) ]

-- The plugin that waits for another, behind it.
abbrev pub followers : Option Planned → List Planned
followers none = []
followers (some p) = p ∷ []

-- The loop of `load_plugins!`: `i` is the number of the next line, and `add_after` has the plugins
-- that wait for another.
unfoldable pub plan_lines : ℕ → List Bytes → List (Bytes × Planned) → Result (List Planned)
unfolding plugin_name line_info trim strip_prefix Maps.insert Maps.get
plan_lines i [] add_after = ok []
plan_lines i (line ∷ ls) add_after = elim (line_info line) [
  | some info ↦ elim (strip_prefix (codes "require ") (trim info)) [
    | none ↦ panic
    | some requires ↦
        plan_lines (suc i) ls (Maps.insert (trim requires) (plugin_name line, i + 1) add_after)
  ]
  | none ↦ do
    rest ← plan_lines (suc i) ls add_after
    ok ((plugin_name line, i + 1) ∷ (followers (Maps.get (plugin_name line) add_after) ++ rest))
]

-- The calls of `load_plugin` that `load_plugins!` writes, in their order. `is_ident` is the test of
-- `format_ident!`, which panics for a name that is no identifier, as that of a blank line: all names
-- that `plan_lines` gives go through it.
unfoldable pub plan : (Bytes → Bool) → Bytes → Result (List Planned)
unfolding plan_lines lines
plan is_ident contents = do
  planned ← plan_lines 0 (lines contents) []
  if all (λ p. is_ident p.0) planned then ok planned else panic

-- A plan has the plugins that the loop gives, and their names are identifiers.
pub plan-plan_lines :
    (is_ident : Bytes → Bool) (contents : Bytes) (ps : List Planned)
    → plan is_ident contents ≡ ok ps
    → plan_lines 0 (lines contents) [] ≡ ok ps
unfolding plan
plan-plan_lines is_ident contents ps e =
    let (planned, run, tested) = >>=-eq-ok (plan_lines 0 (lines contents) []) _ e in
    elim (Bool-cases (all (λ p. is_ident p.0) planned)) [
      | inl f ↦ run ∙ (rw f at tested)
      | inr f ↦ absurd (let no : panic ≡ ok ps = rw f at tested in cc)
    ]

-- `Vec::insert`: a panic if the place is behind the end.
unfoldable pub vec_insert {ℓ} : {A : Type ℓ} → ℕ → A → List A → Result (List A)
vec_insert i a xs = if leb i (length xs) then ok (take i xs ++ (a ∷ drop i xs)) else panic

-- `into_iter().flatten()`
abbrev pub flatten_options {ℓ} : {A : Type ℓ} → List (Option A) → List A
flatten_options [] = []
flatten_options (none ∷ ps) = flatten_options ps
flatten_options (some p ∷ ps) = p ∷ flatten_options ps

module _ {V P : Type 0}
    (load_plugin : Bytes → V → List (Option P) → Result (Option P × List (Option P))) where
  -- The calls that the macro writes. A plugin's own `load_plugin` may change those that are loaded.
  unfoldable pub run_plan : V → List Planned → List (Option P) → Result (List (Option P))
  unfolding vec_insert
  run_plan config [] plugins = ok plugins
  run_plan config ((name, i) ∷ rest) plugins = do
    (plugin, changed) ← load_plugin name config plugins
    inserted ← vec_insert i plugin changed
    run_plan config rest inserted

  -- The function `load_plugins` for planned plugins.
  unfoldable pub load_plugins : List Planned → V → Result (List P)
  unfolding run_plan vec_insert
  load_plugins planned config = do
    (own, changed) ← load_plugin (codes "jequi") config (replicate (length planned + 1) none)
    plugin ← unwrap_option own
    first ← vec_insert 0 (some plugin) changed
    plugins ← run_plan config planned first
    ok (flatten_options plugins)
