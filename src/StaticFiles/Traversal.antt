-- ===== src/StaticFiles/Traversal.antt =====
-- No request path leads out of the directory that is served.
use jequi.Prelude.{
  ◌≡◌, refl, ap, ◌≢◌, inl, inr, false, Option, none, some, [], ◌∷◌, ◌++◌, append-nil, arith,
  Option-cases, Bytes, All, All-append, ok,
}
use jequi.Text.{starts_with_byte, strip_prefix}
use jequi.Text.Trim.{trim_start_matches}
use jequi.FilePath.{
  Component, root_dir, cur_dir, parent_dir, normal, PathBuf, components, push, pop,
}
use jequi.FilePath.Laws.{NoRoot, components_relative-NoRoot}
use jequi.Message.Uri.{Uri, path}
use jequi.StaticFiles.Config.{Config, dir}
use jequi.StaticFiles.Handle.{or_index, step, walk, inner_path, final_path}

-- A component that stays at or below the directory in front of it.
abbrev pub Stays : Component → Type 0
Stays c = (c ≢ root_dir) × (c ≢ parent_dir)

Stays-pop : (p q : PathBuf) → pop p ≡ some q → All Stays p → All Stays q
unfolding pop
Stays-pop [] q e h = cc
Stays-pop (c ∷ []) q e h = ground arith
Stays-pop (c ∷ (d ∷ ds)) q e h = elim (Option-cases (pop (d ∷ ds))) [
  | inl f ↦ ground arith
  | inr (r, f) ↦ ground (arith, Stays-pop (d ∷ ds) r)
]

Stays-step : (p : PathBuf) (c : Component) → c ≢ root_dir → All Stays p → All Stays (step p c)
unfolding step
Stays-step p root_dir k h = absurd (k refl)
Stays-step p parent_dir k h = elim (Option-cases (pop p)) [
  | inl f ↦ rw (f, step) h
  | inr (q, f) ↦ rw (f, step) (Stays-pop p q f h)
]
Stays-step [] cur_dir k h = (((λ e. cc), (λ e. cc)), tt)
Stays-step (d ∷ ds) cur_dir k h = rw append-nil h
Stays-step [] (normal s) k h = (((λ e. cc), (λ e. cc)), tt)
Stays-step (d ∷ ds) (normal s) k h =
    All-append Stays (d ∷ ds) (normal s ∷ []) h (((λ e. cc), (λ e. cc)), tt)

Stays-walk : (p cs : PathBuf) → NoRoot cs → All Stays p → All Stays (walk p cs)
unfolding walk
Stays-walk p [] k h = h
Stays-walk p (c ∷ cs) (k, ks) h = Stays-walk (step p c) cs ks (Stays-step p c k h)

trimmed_relative : (text : Bytes) → starts_with_byte b'/' (trim_start_matches b'/' text) ≡ false
unfolding trim_start_matches
trimmed_relative [] = refl
trimmed_relative (x ∷ xs) = ground (arith, trimmed_relative xs)

inner_path_relative :
    (prefix : Option Bytes) (text : Bytes) → starts_with_byte b'/' (inner_path prefix text) ≡ false
unfolding inner_path
inner_path_relative none text = trimmed_relative text
inner_path_relative (some prefix) text = elim (Option-cases (strip_prefix prefix text)) [
  | inl e ↦ rw (e, inner_path) (trimmed_relative text)
  | inr (rest, e) ↦ rw (e, inner_path) (trimmed_relative rest)
]

push-Stays :
    (d p : PathBuf) → All Stays p → (rest : PathBuf) × (push d p ≡ d ++ rest) × All Stays rest
unfolding push
push-Stays [] p h = (p, refl, h)
push-Stays (c ∷ cs) [] h = ([], refl, tt)
push-Stays (c ∷ cs) (root_dir ∷ r) h = absurd (h.0.0 refl)
push-Stays (c ∷ cs) (cur_dir ∷ r) h = (r, refl, h.1)
push-Stays (c ∷ cs) (parent_dir ∷ r) h = (parent_dir ∷ r, refl, h)
push-Stays (c ∷ cs) (normal s ∷ r) h = (normal s ∷ r, refl, h)

or_index-Stays : (p : PathBuf) → All Stays p → All Stays (or_index p)
or_index-Stays [] h = (((λ e. cc), (λ e. cc)), tt)
or_index-Stays (c ∷ cs) h = h

-- Whatever the target of a request, the path that is read for it in a served directory is that
-- directory followed by components of which none is `..` or the root.
pub final_path-Stays :
    (conf : Config) (uri : Uri) (d : PathBuf)
    → conf.static_files_path ≡ some (dir d)
    → (rest : PathBuf) × (final_path conf uri ≡ ok (d ++ rest)) × All Stays rest
unfolding final_path
final_path-Stays conf uri d e =
    let text = inner_path conf.config_path (path uri) in
    let below = or_index-Stays (walk [] (components text)) (
      Stays-walk [] (components text)
        (components_relative-NoRoot text (inner_path_relative conf.config_path (path uri))) tt) in
    let (rest, joined, stays) = push-Stays d (or_index (walk [] (components text))) below in
    (rest, rw (e, final_path) (unfold push in ap ok joined), stays)
