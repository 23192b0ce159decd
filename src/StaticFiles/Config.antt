-- ===== src/StaticFiles/Config.antt =====
-- The configuration of plugins/jequi_serve_static/src/lib.rs, and whether it loads.
use jequi.Prelude.{
  Bool, true, not, Option, none, some, [], if◌then◌else◌, Bytes, other, Result, ok_or,
}
use jequi.Config.Deserialize.{Given, deserialize_string, text_visitor}
use jequi.FilePath.{PathBuf, components}

pub data PathKind : Type 0 where
  dir file : PathBuf → PathKind

-- `PathKindVisitor::visit_str`; `exists` and `is_dir` ask the file system.
unfoldable pub visit_str : (PathBuf → Bool) → (PathBuf → Bool) → Bytes → Option PathKind
unfolding components
visit_str exists is_dir v =
    let path = components v in
    if not (exists path) then none else if is_dir path then some (dir path) else some (file path)

-- `PathKind::deserialize`
unfoldable pub deserialize : (PathBuf → Bool) → (PathBuf → Bool) → Given → Result PathKind
unfolding visit_str deserialize_string
deserialize exists is_dir given =
    deserialize_string given (text_visitor (λ v. ok_or (visit_str exists is_dir v) other))

-- `PathKind::default`
abbrev pub default_path : PathKind
default_path = dir []

pub record Config : Type 0 where
  pub static_files_path : Option PathKind
  pub infer_content_type : Bool
  pub not_found_file_path : Option PathBuf
  pub config_path : Option Bytes

abbrev pub default : Config
default = record {
  static_files_path = none;
  infer_content_type = true;
  not_found_file_path = none;
  config_path = none;
}

-- `load`, after the section was deserialised. A default configuration has no path to serve from, so
-- the first of the two tests of the source, equality with it, follows from the second.
unfoldable pub load : Config → Option Config
load conf = elim conf.static_files_path [ none ↦ none | some _ ↦ some conf ]
