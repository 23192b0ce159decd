-- ===== src/Config/Deserialize.antt =====
-- How the types of a configuration that are written as one text are deserialised: the visitors of
-- jequi/src/ssl.rs and plugins/jequi_serve_static/src/lib.rs. The deserializer is `serde`'s.
use jequi.Prelude.{Bytes, other, Result, err}

-- What a deserializer that is asked for a text has: one to show, one to give away, or something else.
pub data Given : Type 0 where
  str string : Bytes → Given
  anything_else : Given

-- `serde::de::Visitor`, for texts; the methods that are not written give an error.
pub record Visitor (A : Type 0) : Type 0 where
  pub visit_string : Bytes → Result A
  pub visit_str : Bytes → Result A

module _ {A : Type 0} where
  -- `Deserializer::deserialize_string`
  unfoldable pub deserialize_string : Given → Visitor A → Result A
  deserialize_string (str v) visitor = visitor.visit_str v
  deserialize_string (string v) visitor = visitor.visit_string v
  deserialize_string anything_else visitor = err other

  -- A visitor whose `visit_string` shows its text to `visit_str`, as all of them do.
  abbrev pub text_visitor : (Bytes → Result A) → Visitor A
  text_visitor visit_str = record { visit_string = visit_str; visit_str = visit_str }
