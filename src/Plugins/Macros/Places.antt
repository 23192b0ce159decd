-- ===== src/Plugins/Macros/Places.antt =====
-- Which lines of plugins.txt are loaded, and that every insertion of a plugin is in range.
use jequi.Prelude.{
  Bool, length-replicate, ℕ, suc, ◌+◌, ◌≤◌, ◌≡◌, refl, inl, inr, Option, none, some, List, [], ◌∷◌,
  ◌++◌, arith, le→leb, Option-cases, Bytes, codes, length, take, drop, replicate, length-append,
  length-take, length-drop, All, Result, ok,
}
use jequi.Text.{strip_prefix}
use jequi.Text.Trim.{trim}
use jequi.Text.Lines.{lines}
use jequi.Maps
use jequi.Maps.{bytes_Eq}
use jequi.Plugins.Macros.{
  plugin_name, Planned, line_info, plan_lines, plan, plan-plan_lines, vec_insert, run_plan,
  load_plugins, flatten_options,
}
use jequi.Plugins.Macros.Numbers.{EachAt, plan_lines-All}

EachAt-bound : (n i : ℕ) (ls : List Bytes) → i + length ls ≤ suc n → EachAt (λ e. e.1 ≤ n) i ls
EachAt-bound n i [] h = tt
EachAt-bound n i (line ∷ ls) h = (omega arith, EachAt-bound n (suc i) ls (omega arith))

length-vec_insert :
    {A : Type 0} (i : ℕ) (a : A) (xs : List A)
    → i ≤ length xs
    → (ys : List A) × (vec_insert i a xs ≡ ok ys) × (length ys ≡ suc (length xs))
unfolding vec_insert
length-vec_insert i a xs h = (
  take i xs ++ (a ∷ drop i xs),
  rw (le→leb i (length xs) h) refl,
  omega (arith, length-append (take i xs) (a ∷ drop i xs), length-take i xs, length-drop i xs),
)

module _ {V P : Type 0}
    (load_plugin : Bytes → V → List (Option P) → Result (Option P × List (Option P))) where
  -- A call of a plugin's `load_plugin` that returns, and adds or takes away no place.
  abbrev pub Loads : Bytes → V → List (Option P) → Type 0
  Loads name config plugins =
      (p : Option P) × (changed : List (Option P)) × (load_plugin name config plugins
        ≡ ok (p, changed))
      × (length changed ≡ length plugins)

  run_plan_total :
      (config : V) (n : ℕ) (planned : List Planned) (plugins : List (Option P))
      → ((name : Bytes) (ps : List (Option P)) → Loads name config ps)
      → All (λ e. e.1 ≤ n) planned
      → n ≤ length plugins
      → (out : List (Option P)) × (run_plan load_plugin config planned plugins ≡ ok out)
  unfolding run_plan
  run_plan_total config n [] plugins loads h k = (plugins, refl)
  run_plan_total config n ((name, i) ∷ rest) plugins loads (p, h) k =
      let (plugin, changed, e, same) = loads name plugins in
      let (inserted, f, longer) = length-vec_insert i plugin changed (omega arith) in
      let (out, run) = run_plan_total config n rest inserted loads h (omega arith) in
      (out, rw e (rw f run))

  -- If each line of plugins.txt is planned (all names are identifiers, and no requirement is on a plugin that is missing, stands
  -- further up, or is required twice), and each plugin's own loading returns, keeps the number of
  -- places and loads the server's own configuration, then `load_plugins` returns: no plugin is
  -- inserted behind the end.
  pub load_plugins_total :
      (is_ident : Bytes → Bool) (contents : Bytes) (config : V) (ps : List Planned)
      → plan is_ident contents ≡ ok ps
      → length ps ≡ length (lines contents)
      → ((name : Bytes) (plugins : List (Option P)) → Loads name config plugins)
      → ((plugins : List (Option P))
          → (own : P) × (changed : List (Option P)) × (load_plugin (codes "jequi") config plugins
              ≡ ok (some own, changed))
            × (length changed ≡ length plugins))
      → (loaded : List P) × (load_plugins load_plugin ps config ≡ ok loaded)
  unfolding load_plugins
  load_plugins_total is_ident contents config ps e whole loads own =
      let start : List (Option P) = replicate (length ps + 1) none in
      let (plugin, changed, f, same) = own start in
      let (first, g, longer) = length-vec_insert 0 (some plugin) changed (omega arith) in
      let bounds =
        plan_lines-All (λ p. p.1 ≤ length (lines contents)) 0 (lines contents) [] ps
          (plan-plan_lines is_ident contents ps e)
          (EachAt-bound (length (lines contents)) 1 (lines contents) (omega arith)) tt in
      let (out, run) =
        run_plan_total config (length (lines contents)) ps first loads bounds
          (omega (arith, length-replicate {0} {A = Option P} (length ps + 1) none)) in
      (flatten_options out, rw f (rw g (rw run refl)))

-- A line with a requirement that stands last in plugins.txt adds nothing to what is planned: its
-- plugin is dropped without a word, though the required one may stand further up.
pub plan_lines_dropped :
    (i : ℕ) (ls : List Bytes) (line info requires : Bytes) (m : List (Bytes × Planned))
    → line_info line ≡ some info
    → strip_prefix (codes "require ") (trim info) ≡ some requires
    → plan_lines i (ls ++ (line ∷ [])) m ≡ plan_lines i ls m
unfolding plan_lines
plan_lines_dropped i [] line info requires m e f = rw (e, plan_lines) (rw (f, plan_lines) refl)
plan_lines_dropped i (l ∷ ls) line info requires m e f = elim (Option-cases (line_info l)) [
  | inl plain ↦
      rw (plain, plan_lines) (rw (plan_lines_dropped (suc i) ls line info requires m e f) refl)
  | inr (text, waits) ↦ elim (Option-cases (strip_prefix (codes "require ") (trim text))) [
    | inl bad ↦ rw (waits, plan_lines) (rw (bad, plan_lines) refl)
    | inr (name, good) ↦
        rw (waits, plan_lines)
          (rw (good, plan_lines)
            (plan_lines_dropped (suc i) ls line info requires
              (Maps.insert (trim name) (plugin_name l, i + 1) m) e f))
  ]
]
