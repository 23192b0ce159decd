-- ===== src/Plugins/Macros/Input/RoundTrip.antt =====
-- Which tokens `get_plugin!` takes.
use jequi.Prelude.{
  ◌≡◌, refl, sym, ap, ◌∙◌, ◌↔◌, inl, inr, Bool, true, false, Option, none, some, List, [], ◌∷◌,
  ◌++◌, append-nil, if◌then◌else◌, Option-cases, Bytes,
}
use jequi.Plugins.Macros.Input.{
  Token, ident, comma, mut, unknown, MacroInput, parse_ident, parse_comma, comma_ok, mut_ok,
  ident_ok, parse_options, parse, options, type_tokens, tokens,
}

parse_each :
    (list plugin : Bytes) (c m : Bool) (t : Option Bytes)
    → parse (
        tokens
          (record { list = list; plugin = plugin; comma2 = c; mutability = m; plugin_type = t }))
      ≡ some (record { list = list; plugin = plugin; comma2 = c; mutability = m; plugin_type = t })
unfolding parse
parse_each list plugin true true none = refl
parse_each list plugin true true (some name) = refl
parse_each list plugin true false none = refl
parse_each list plugin true false (some name) = refl
parse_each list plugin false true none = refl
parse_each list plugin false true (some name) = refl
parse_each list plugin false false none = refl
parse_each list plugin false false (some name) = refl

some_inj : {A : Type 0} {a b : A} → some a ≡ some b → a ≡ b
some_inj h = cc

comma_ok_lem :
    (ts : List Token) → ts ≡ (if (comma_ok ts).0 then comma ∷ [] else []) ++ (comma_ok ts).1
comma_ok_lem [] = refl
comma_ok_lem (ident name ∷ ts) = refl
comma_ok_lem (comma ∷ ts) = refl
comma_ok_lem (mut ∷ ts) = refl
comma_ok_lem (unknown ∷ ts) = refl

mut_ok_lem : (ts : List Token) → ts ≡ (if (mut_ok ts).0 then mut ∷ [] else []) ++ (mut_ok ts).1
mut_ok_lem [] = refl
mut_ok_lem (ident name ∷ ts) = refl
mut_ok_lem (comma ∷ ts) = refl
mut_ok_lem (mut ∷ ts) = refl
mut_ok_lem (unknown ∷ ts) = refl

ident_ok_lem : (ts : List Token) → ts ≡ type_tokens (ident_ok ts).0 ++ (ident_ok ts).1
ident_ok_lem [] = refl
ident_ok_lem (ident name ∷ ts) = refl
ident_ok_lem (comma ∷ ts) = refl
ident_ok_lem (mut ∷ ts) = refl
ident_ok_lem (unknown ∷ ts) = refl

-- Nothing is left behind an input that is parsed.
nothing_left :
    (ts : List Token) (m n : MacroInput)
    → ◌≡◌ {A = Option MacroInput} (elim ts [ [] ↦ some m | t ∷ ts ↦ none ]) (some n)
    → (ts ≡ []) × (m ≡ n)
nothing_left [] m n h = (refl, cc)
nothing_left (t ∷ ts) m n h = absurd cc

parse_options_lem :
    (list plugin : Bytes) (ts : List Token) (m : MacroInput)
    → parse_options list plugin ts ≡ some m
    → (m.list ≡ list) × (m.plugin ≡ plugin) × (ts ≡ options m)
parse_options_lem list plugin ts m h =
    let ts₁ : List Token = (comma_ok ts).1 in
    let ts₂ : List Token = (mut_ok ts₁).1 in
    let n : MacroInput = record {
      list = list;
      plugin = plugin;
      comma2 = (comma_ok ts).0;
      mutability = (mut_ok ts₁).0;
      plugin_type = (ident_ok ts₂).0;
    } in
    let (left, same) = nothing_left (ident_ok ts₂).1 n m h in
    (
      ap (λ m. m.list) (sym same),
      ap (λ m. m.plugin) (sym same),
      comma_ok_lem ts
          ∙ ap (λ t. (if n.comma2 then comma ∷ [] else []) ++ t)
              (mut_ok_lem ts₁
                ∙ ap (λ t. (if n.mutability then mut ∷ [] else []) ++ t)
                    (ident_ok_lem ts₂
                      ∙ ap (λ t. type_tokens n.plugin_type ++ t) left
                      ∙ append-nil (type_tokens n.plugin_type)))
          ∙ ap options same,
    )

parse_ident_lem :
    (ts : List Token) (a : Bytes × List Token) → parse_ident ts ≡ some a → ts ≡ ident a.0 ∷ a.1
parse_ident_lem [] a h = cc
parse_ident_lem (ident name ∷ ts) a h =
    ap (λ (b : Bytes × List Token). ident b.0 ∷ b.1) (some_inj h)
parse_ident_lem (comma ∷ ts) a h = cc
parse_ident_lem (mut ∷ ts) a h = cc
parse_ident_lem (unknown ∷ ts) a h = cc

parse_comma_lem : (ts rest : List Token) → parse_comma ts ≡ some rest → ts ≡ comma ∷ rest
parse_comma_lem [] rest h = cc
parse_comma_lem (ident name ∷ ts) rest h = cc
parse_comma_lem (comma ∷ ts) rest h = ap (λ t. comma ∷ t) (some_inj h)
parse_comma_lem (mut ∷ ts) rest h = cc
parse_comma_lem (unknown ∷ ts) rest h = cc

-- The tokens of an input that is parsed.
parsed_tokens : (ts : List Token) (m : MacroInput) → parse ts ≡ some m → ts ≡ tokens m
unfolding parse
parsed_tokens ts m h = elim (Option-cases (parse_ident ts)) [
  | inl e ↦ let no : none ≡ some m = rw (e, parse) at h in cc
  | inr ((list, ts₁), e) ↦
      let h₁ = rw (e, parse) at h in
      elim (Option-cases (parse_comma ts₁)) [
        | inl f ↦ let no : none ≡ some m = rw (f, parse) at h₁ in cc
        | inr (ts₂, f) ↦
            let h₂ = rw (f, parse) at h₁ in
            elim (Option-cases (parse_ident ts₂)) [
              | inl g ↦ let no : none ≡ some m = rw (g, parse) at h₂ in cc
              | inr ((plugin, ts₃), g) ↦
                  let (a, b, c) = parse_options_lem list plugin ts₃ m (rw (g, parse) at h₂) in
                  parse_ident_lem ts (list, ts₁) e
                  ∙ ap (λ t. ident list ∷ t) (parse_comma_lem ts₁ ts₂ f)
                  ∙ ap (λ t. ident list ∷ (comma ∷ t)) (parse_ident_lem ts₂ (plugin, ts₃) g)
                  ∙ (λ i. ident (sym a i) ∷ (comma ∷ (ident (sym b i) ∷ c i)))
            ]
      ]
]

-- `get_plugin!` takes the name of a list, a comma and the name of a plugin, and then, each of them or
-- not, a comma, `mut` and a type, in this order; and nothing else. It reads each of them as what it
-- is.
pub parse-tokens : (ts : List Token) (m : MacroInput) → (parse ts ≡ some m) ↔ (ts ≡ tokens m)
parse-tokens ts m = (
  parsed_tokens ts m,
  λ e. ap parse e ∙ parse_each m.list m.plugin m.comma2 m.mutability m.plugin_type,
)
