-- ===== src/FilePath.antt =====
-- `std::path`: the components of a path, and the operations of `PathBuf` on them. A path is given
-- by its components, which are what `==`, `Hash`, `pop` and the file system see of it.
pub mod Laws
use jequi.Prelude.{
  ℕ, ◌+◌, ◌/◌, Bool, true, false, ◌&&◌, ◌||◌, Option, none, some, List, [], ◌∷◌, ◌++◌, ◌==◌,
  if◌then◌else◌, Bytes, codes,
}
use jequi.Text.{bytes_eq, starts_with_byte}

pub data Component : Type 0 where
  root_dir cur_dir parent_dir : Component
  normal : Bytes → Component

abbrev pub PathBuf : Type 0
PathBuf = List Component

abbrev cons_head : ℕ → List Bytes → List Bytes
cons_head x [] = (x ∷ []) ∷ []
cons_head x (s ∷ ss) = (x ∷ s) ∷ ss

-- The parts between slashes, the empty ones included.
unfoldable pub segments : Bytes → List Bytes
segments [] = [] ∷ []
segments (x ∷ xs) = let rest = segments xs in if x == b'/' then [] ∷ rest else cons_head x rest

-- Empty parts and `.` are skipped.
unfoldable pub components_from : List Bytes → PathBuf
unfolding bytes_eq
components_from [] = []
components_from (s ∷ ss) =
    let rest = components_from ss in
    if bytes_eq s [] || bytes_eq s (codes ".")
    then rest
    else if bytes_eq s (codes "..")
    then parent_dir ∷ rest
    else normal s ∷ rest

abbrev first_is_dot : List Bytes → Bool
first_is_dot [] = false
first_is_dot (s ∷ ss) = bytes_eq s (codes ".")

-- `Path::components`: a `.` counts only at the start of a relative path.
unfoldable pub components : Bytes → PathBuf
unfolding segments components_from bytes_eq
components text =
    if starts_with_byte b'/' text
    then root_dir ∷ components_from (segments text)
    else if first_is_dot (segments text)
    then cur_dir ∷ components_from (segments text)
    else components_from (segments text)

unfoldable pub component_eq : Component → Component → Bool
unfolding bytes_eq
component_eq root_dir root_dir = true
component_eq cur_dir cur_dir = true
component_eq parent_dir parent_dir = true
component_eq (normal a) (normal b) = bytes_eq a b
component_eq _ _ = false

unfoldable pub path_eq : PathBuf → PathBuf → Bool
unfolding component_eq
path_eq [] [] = true
path_eq (a ∷ as') (b ∷ bs) = component_eq a b && path_eq as' bs
path_eq _ _ = false

-- `PathBuf::pop`: `none` where it answers `false` and leaves the path alone.
unfoldable pub pop : PathBuf → Option PathBuf
pop [] = none
pop (root_dir ∷ []) = none
pop (c ∷ []) = some []
pop (c ∷ (d ∷ ds)) = elim (pop (d ∷ ds)) [ none ↦ none | some r ↦ some (c ∷ r) ]

abbrev is_absolute : PathBuf → Bool
is_absolute (root_dir ∷ _) = true
is_absolute _ = false

abbrev without_cur_dir : PathBuf → PathBuf
without_cur_dir (cur_dir ∷ cs) = cs
without_cur_dir cs = cs

-- `PathBuf::push`: an absolute path replaces what is there.
unfoldable pub push : PathBuf → PathBuf → PathBuf
push [] p = p
push (c ∷ cs) p = if is_absolute p then p else (c ∷ cs) ++ without_cur_dir p

-- `Path::file_name`: the last component, if it is a normal one.
unfoldable pub file_name : PathBuf → Option Bytes
file_name [] = none
file_name (normal s ∷ []) = some s
file_name (_ ∷ []) = none
file_name (c ∷ (d ∷ ds)) = file_name (d ∷ ds)

-- What stands behind the last `.`, if there is one that is not the first byte.
abbrev after_dot : Bytes → Option Bytes
after_dot [] = none
after_dot (x ∷ xs) = elim (after_dot xs) [
  | some e ↦ some e
  | none ↦ if x == b'.' then some xs else none
]

-- `Path::extension`
unfoldable pub extension : PathBuf → Option Bytes
unfolding file_name
extension p = elim (file_name p) [ none ↦ none | some [] ↦ none | some (c ∷ cs) ↦ after_dot cs ]
