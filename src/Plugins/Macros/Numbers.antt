-- ===== src/Plugins/Macros/Numbers.antt =====
-- The two macros number the plugins alike, and the places fit.
use jequi.Prelude.{
  Bool, ok_injective, ℕ, suc, ◌+◌, ◌≡◌, refl, subst, inl, inr, false, Option, none, some, List, [],
  ◌∷◌, ◌++◌, arith, Bool-cases, Option-cases, Bytes, codes, All, ok, panic, >>=-eq-ok,
}
use jequi.Text.{bytes_eq, bytes_eq_iff, strip_prefix}
use jequi.Text.Trim.{trim}
use jequi.Text.Lines.{without_return, raw_lines, lines}
use jequi.Maps
use jequi.Maps.{bytes_Eq}
use jequi.Plugins.Macros.{
  plugin_name, find_plugin, get_plugin_index, Planned, line_info, followers, plan_lines, plan,
  plan-plan_lines,
}

-- No line of a list names the plugin.
abbrev pub Absent : Bytes → List Bytes → Type 0
Absent name = All (λ line. bytes_eq (plugin_name line) name ≡ false)

abbrev pub DistinctNames : List Bytes → Type 0
DistinctNames [] = Unit
DistinctNames (line ∷ ls) = Absent (plugin_name line) ls × DistinctNames ls

-- `G` holds of the plugin of each line with the line's number, from `i` on.
abbrev pub EachAt : (Planned → Type 0) → ℕ → List Bytes → Type 0
EachAt G i [] = Unit
EachAt G i (line ∷ ls) = G (plugin_name line, i) × EachAt G (suc i) ls

find_plugin_of_Absent :
    (name : Bytes) (i : ℕ) (ls : List Bytes) (index : Option ℕ)
    → Absent name ls
    → find_plugin name i ls index ≡ index
unfolding find_plugin
find_plugin_of_Absent name i [] index h = refl
find_plugin_of_Absent name i (line ∷ ls) index (p, h) =
    rw (p, find_plugin) (find_plugin_of_Absent name (suc i) ls index h)

bytes_eq_sym : (a b : Bytes) → bytes_eq a b ≡ false → bytes_eq b a ≡ false
bytes_eq_sym a b h = elim (Bool-cases (bytes_eq b a)) [
  | inr e ↦ e
  | inl e ↦ ground (arith, bytes_eq_iff a b, bytes_eq_iff b a)
]

-- The lines behind a line are found behind it.
EachAt-cons :
    (line : Bytes) (j i : ℕ) (rest ls : List Bytes)
    → Absent (plugin_name line) ls
    → EachAt (λ e. find_plugin e.0 (suc j) rest none ≡ some e.1) i ls
    → EachAt (λ e. find_plugin e.0 j (line ∷ rest) none ≡ some e.1) i ls
unfolding find_plugin
EachAt-cons line j i rest [] h k = tt
EachAt-cons line j i rest (l ∷ ls) (p, h) (e, k) = (
  rw (bytes_eq_sym (plugin_name l) (plugin_name line) p) e,
  EachAt-cons line j (suc i) rest ls h k,
)

find_plugin_each :
    (j : ℕ) (ls : List Bytes)
    → DistinctNames ls
    → EachAt (λ e. find_plugin e.0 j ls none ≡ some e.1) j ls
unfolding find_plugin
find_plugin_each j [] h = tt
find_plugin_each j (line ∷ ls) (p, h) = (
  rw ((bytes_eq_iff (plugin_name line) (plugin_name line)).1 refl)
      (find_plugin_of_Absent (plugin_name line) (suc j) ls (some j) p),
  EachAt-cons line j (suc j) ls ls p (find_plugin_each (suc j) ls h),
)

All-followers :
    (G : Planned → Type 0) (name : Bytes) (m : List (Bytes × Planned)) (rest : List Planned)
    → All (λ e. G e.1) m
    → All G rest
    → All G (followers (Maps.get name m) ++ rest)
unfolding Maps.get
All-followers G name [] rest h k = k
All-followers G name ((key, p) ∷ m) rest (g, h) k = elim (Bool-cases (bytes_eq key name)) [
  | inl e ↦ rw e (g, k)
  | inr e ↦ rw e (All-followers G name m rest h k)
]

All-insert :
    (G : Planned → Type 0) (name : Bytes) (p : Planned) (m : List (Bytes × Planned))
    → G p
    → All (λ e. G e.1) m
    → All (λ e. G e.1) (Maps.insert name p m)
unfolding Maps.insert
All-insert G name p [] g h = (g, tt)
All-insert G name p ((key, q) ∷ m) g (k, h) = elim (Bool-cases (bytes_eq key name)) [
  | inl e ↦ rw e (g, h)
  | inr e ↦ rw e (k, All-insert G name p m g h)
]

-- What holds of each plugin with the number of its line, plus one, holds of all that are planned.
pub plan_lines-All :
    (G : Planned → Type 0) (i : ℕ) (ls : List Bytes) (m : List (Bytes × Planned))
    (ps : List Planned)
    → plan_lines i ls m ≡ ok ps
    → EachAt G (suc i) ls
    → All (λ e. G e.1) m
    → All G ps
unfolding plan_lines
plan_lines-All G i [] m ps e h k = subst (All G) (ok_injective e) tt
plan_lines-All G i (line ∷ ls) m ps e (g, h) k =
    let here : G (plugin_name line, i + 1) =
      subst (λ (n : ℕ). G (plugin_name line, n)) (omega arith) g in
    elim (Option-cases (line_info line)) [
      | inl plain ↦
          let (rest, run, last) =
            >>=-eq-ok (plan_lines (suc i) ls m) _ (rw (plain, plan_lines) at e) in
          subst (All G) (ok_injective last) (
            here,
            All-followers G (plugin_name line) m rest k
                (plan_lines-All G (suc i) ls m rest run h k),
          )
      | inr (info, waits) ↦ elim (Option-cases (strip_prefix (codes "require ") (trim info))) [
        | inl bad ↦
            let no : panic ≡ ok ps = rw (bad, plan_lines) at (rw (waits, plan_lines) at e) in cc
        | inr (requires, good) ↦
            plan_lines-All G (suc i) ls (Maps.insert (trim requires) (plugin_name line, i + 1) m) ps
              (rw (good, plan_lines) at (rw (waits, plan_lines) at e)) h
              (All-insert G (trim requires) (plugin_name line, i + 1) m here k)
      ]
    ]

-- Where no two lines of plugins.txt name the same plugin, and none `jequi`, `get_plugin!` gives for
-- each plugin that `load_plugins!` loads the place in which that inserts it.
pub plan-get_plugin_index :
    (is_ident : Bytes → Bool) (contents : Bytes) (ps : List Planned)
    → plan is_ident contents ≡ ok ps
    → DistinctNames (lines (codes "jequi\n" ++ contents))
    → All (λ e. get_plugin_index contents e.0 ≡ some e.1) ps
unfolding get_plugin_index lines raw_lines without_return
plan-get_plugin_index is_ident contents ps e distinct =
    plan_lines-All (λ p. get_plugin_index contents p.0 ≡ some p.1) 0 (lines contents) [] ps
      (plan-plan_lines is_ident contents ps e)
      (find_plugin_each 0 (codes "jequi" ∷ lines contents) distinct).1 tt
