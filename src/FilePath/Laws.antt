-- ===== src/FilePath/Laws.antt =====
-- Lemmas on paths: equality, and what `pop` leaves of an absolute path.
use jequi.Prelude.{
  false, List, Bytes, ◌≡◌, refl, ap, subst, ◌≢◌, ◌↔◌, true, none, some, [], ◌∷◌, arith, codes, init,
  All,
}
use jequi.Text.{bytes_eq_iff}
use jequi.FilePath.{
  segments, starts_with_byte, components_from, Component, root_dir, cur_dir, parent_dir, normal,
  PathBuf, component_eq, path_eq, pop, components, extension,
}

component_eq-eq : (a b : Component) → component_eq a b ≡ true → a ≡ b
unfolding component_eq
component_eq-eq root_dir root_dir h = refl
component_eq-eq cur_dir cur_dir h = refl
component_eq-eq parent_dir parent_dir h = refl
component_eq-eq (normal a) (normal b) h = ap normal ((bytes_eq_iff a b).0 h)
component_eq-eq _ _ h = cc

component_eq_refl : (a : Component) → component_eq a a ≡ true
unfolding component_eq
component_eq_refl (normal a) = (bytes_eq_iff a a).1 refl
component_eq_refl root_dir = refl
component_eq_refl cur_dir = refl
component_eq_refl parent_dir = refl

path_eq-eq : (p q : PathBuf) → path_eq p q ≡ true → p ≡ q
unfolding path_eq
path_eq-eq [] [] h = refl
path_eq-eq [] (b ∷ bs) h = cc
path_eq-eq (a ∷ as') [] h = cc
path_eq-eq (a ∷ as') (b ∷ bs) h = ground (arith, component_eq-eq a b, path_eq-eq as' bs)

path_eq_refl : (p : PathBuf) → path_eq p p ≡ true
unfolding path_eq
path_eq_refl [] = refl
path_eq_refl (a ∷ as') = ground (arith, component_eq_refl a, path_eq_refl as')

pub path_eq_iff : (p q : PathBuf) → (path_eq p q ≡ true) ↔ (p ≡ q)
path_eq_iff p q = (path_eq-eq p q, λ e. subst (λ z. path_eq p z ≡ true) e (path_eq_refl p))

-- Only the first component of a path is the root.
abbrev pub NoRoot : PathBuf → Type 0
NoRoot = All (λ c. c ≢ root_dir)

pop-NoRoot : (c : Component) (cs : PathBuf) → NoRoot (c ∷ cs) → pop (c ∷ cs) ≡ some (init (c ∷ cs))
unfolding pop
pop-NoRoot root_dir [] h = absurd (h.0 refl)
pop-NoRoot cur_dir [] h = refl
pop-NoRoot parent_dir [] h = refl
pop-NoRoot (normal s) [] h = refl
pop-NoRoot c (d ∷ ds) (p, h) = ground (arith, pop-NoRoot d ds h)

-- Popping an absolute path of at least two components drops the last.
pub pop_absolute :
    (c : Component) (cs : PathBuf)
    → NoRoot (c ∷ cs)
    → pop (root_dir ∷ (c ∷ cs)) ≡ some (root_dir ∷ init (c ∷ cs))
unfolding pop
pop_absolute c cs h = ground (arith, pop-NoRoot c cs h)

pub components_from-NoRoot : (ss : List Bytes) → NoRoot (components_from ss)
unfolding components_from
components_from-NoRoot [] = tt
components_from-NoRoot (s ∷ ss) = ground (arith, components_from-NoRoot ss)

-- The components of a text that starts with a slash begin with the root; no others are the root.
pub components_absolute :
    (text : Bytes)
    → starts_with_byte b'/' text ≡ true
    → components text ≡ root_dir ∷ components_from (segments text)
unfolding components
components_absolute text h = rw h refl

-- A text that does not start with a slash has no root among its components.
pub components_relative-NoRoot :
    (text : Bytes) → starts_with_byte b'/' text ≡ false → NoRoot (components text)
unfolding components
components_relative-NoRoot text h = rw h (ground (arith, components_from-NoRoot (segments text)))

components_tests :
    (components (codes "/api//./v1/") ≡ root_dir ∷ normal (codes "api") ∷ normal (codes "v1") ∷ [])
    × (components (codes "./a/../b")
        ≡ cur_dir ∷ normal (codes "a") ∷ parent_dir ∷ normal (codes "b") ∷ [])
    × (components [] ≡ [])
    × (extension (components (codes "a.d/x.tar.gz")) ≡ some (codes "gz"))
    × (extension (components (codes "a/.hidden")) ≡ none)
unfolding components extension
components_tests = (refl, refl, refl, refl, refl)
