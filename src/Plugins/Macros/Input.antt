-- ===== src/Plugins/Macros/Input.antt =====
-- What `get_plugin!` of plugins/src/lib.rs takes and what it writes. Tokens and the parsing of one of
-- them are `syn`'s, which also wants that nothing is left behind the input.
pub mod RoundTrip
use jequi.Prelude.{
  ℕ, ◌+◌, Bool, true, false, Option, none, some, List, [], ◌∷◌, ◌++◌, if◌then◌else◌, Bytes, codes,
}
use jequi.Text.{bytes_eq}
use jequi.Plugins.Macros.{get_plugin_index}

-- `mut` is no identifier.
pub data Token : Type 0 where
  ident : Bytes → Token
  comma mut unknown : Token

pub record MacroInput : Type 0 where
  pub list : Bytes
  pub plugin : Bytes
  pub comma2 : Bool
  pub mutability : Bool
  pub plugin_type : Option Bytes

-- `input.parse()?` of an identifier and of a comma
abbrev pub parse_ident : List Token → Option (Bytes × List Token)
parse_ident (ident name ∷ ts) = some (name, ts)
parse_ident _ = none

abbrev pub parse_comma : List Token → Option (List Token)
parse_comma (comma ∷ ts) = some ts
parse_comma _ = none

-- `input.parse().ok()`, which takes nothing where it fails
abbrev pub comma_ok : List Token → Bool × List Token
comma_ok (comma ∷ ts) = (true, ts)
comma_ok ts = (false, ts)

abbrev pub mut_ok : List Token → Bool × List Token
mut_ok (mut ∷ ts) = (true, ts)
mut_ok ts = (false, ts)

abbrev pub ident_ok : List Token → Option Bytes × List Token
ident_ok (ident name ∷ ts) = (some name, ts)
ident_ok ts = (none, ts)

-- The fields behind the name of the plugin, with nothing left.
abbrev pub parse_options : Bytes → Bytes → List Token → Option MacroInput
parse_options list plugin ts =
    let (comma2, ts₁) = comma_ok ts in
    let (mutability, ts₂) = mut_ok ts₁ in
    let (plugin_type, ts₃) = ident_ok ts₂ in
    elim ts₃ [
      | [] ↦ some (record {
        list = list;
        plugin = plugin;
        comma2 = comma2;
        mutability = mutability;
        plugin_type = plugin_type;
      })
      | t ∷ ts ↦ none
    ]

-- `MacroInput::parse`, as `parse_macro_input!` calls it
unfoldable pub parse : List Token → Option MacroInput
parse ts = elim (parse_ident ts) [
  | none ↦ none
  | some (list, ts₁) ↦ elim (parse_comma ts₁) [
    | none ↦ none
    | some ts₂ ↦ elim (parse_ident ts₂) [
      | none ↦ none
      | some (plugin, ts₃) ↦ parse_options list plugin ts₃
    ]
  ]
]

-- What the macro writes: an error of the compiler, or a look at a place of the list, where the
-- plugin's configuration is wanted, of a list of plugins or of plugins that may be missing.
pub data Expansion : Type 0 where
  compile_error : Bytes → Expansion
  get option option_mut : Bytes → ℕ → Bytes → Expansion

unfoldable pub by_type : MacroInput → ℕ → Expansion
unfolding bytes_eq
by_type input index = elim input.plugin_type [
  | none ↦ get input.list index input.plugin
  | some plugin_type ↦
      if bytes_eq plugin_type (codes "Option")
      then if input.mutability
        then option_mut input.list index input.plugin
        else option input.list index input.plugin
      else compile_error (codes "invalid plugin name")
]

-- `get_plugin!`: the file plugins.txt can be missing, with the error `why` of its opening; `wrong` is
-- `syn`'s error.
unfoldable pub get_plugin : Bytes → Option Bytes → Bytes → List Token → Expansion
unfolding parse by_type get_plugin_index
get_plugin wrong contents why ts = elim (parse ts) [
  | none ↦ compile_error wrong
  | some input ↦ elim contents [
    | none ↦ compile_error (codes "error opening plugins file: " ++ why)
    | some text ↦ elim (get_plugin_index text input.plugin) [
      | none ↦ compile_error (codes "invalid plugin name")
      | some index ↦ by_type input index
    ]
  ]
]

abbrev pub type_tokens : Option Bytes → List Token
type_tokens none = []
type_tokens (some name) = ident name ∷ []

-- The tokens of an input.
abbrev pub options : MacroInput → List Token
options m =
    (if m.comma2 then comma ∷ [] else [])
    ++ ((if m.mutability then mut ∷ [] else []) ++ type_tokens m.plugin_type)

abbrev pub tokens : MacroInput → List Token
tokens m = ident m.list ∷ (comma ∷ (ident m.plugin ∷ options m))
