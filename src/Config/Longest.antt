-- ===== src/Config/Longest.antt =====
-- The configuration of a request is that of the longest configured prefix of its path.
use jequi.Prelude.{
  ℕ, zero, suc, ◌≤◌, ◌<◌, ◌≡◌, refl, sym, ap, subst, ◌∙◌, ◌≢◌, inl, inr, true, Option, none, some,
  List, [], ◌∷◌, arith, Option-cases, Bytes, length, take, All-take, init-take,
}
use native.Mathlib.Decide.{dec_le}
use jequi.FilePath.{root_dir, PathBuf, pop, components, components_from, segments}
use jequi.FilePath.Laws.{components_from-NoRoot, components_absolute, NoRoot, pop_absolute}
use jequi.Maps.{bytes_Eq}
use jequi.Config.Select.{
  lookup_path, ConfigMap, climb, host_scope, select_path, get_config_for_request,
}
use jequi.Text.{starts_with_byte}

unchecked :
    (P : ℕ → Type 0) (n : ℕ) → P (suc n) → ((j : ℕ) → j ≤ n → P j) → (j : ℕ) → j ≤ suc n → P j
unchecked P n top rest j h = elim (dec_le j n) [
  | yes le ↦ rest j le
  | no gt ↦ subst P (omega arith) top
]

pop-take :
    (n : ℕ) (xs : PathBuf)
    → NoRoot xs
    → suc n ≤ length xs
    → pop (root_dir ∷ take (suc n) xs) ≡ some (root_dir ∷ take n xs)
pop-take n [] h k = absurd (omega arith)
pop-take n (x ∷ xs) h k =
    pop_absolute x (take n xs) (All-take (λ c. c ≢ root_dir) (suc n) (x ∷ xs) h)
    ∙ ap (λ t. some (root_dir ∷ t)) (init-take n x xs (omega arith))

shorter_pop : (p q : PathBuf) → pop p ≡ some q → length q < length p
unfolding pop
shorter_pop [] q h = cc
shorter_pop (c ∷ []) q h = ground arith
shorter_pop (c ∷ (d ∷ ds)) q h = elim (Option-cases (pop (d ∷ ds))) [
  | inl e ↦ ground arith
  | inr (r, e) ↦ ground (arith, shorter_pop (d ∷ ds) r)
]

take_all {ℓ} : {A : Type ℓ} (xs : List A) → take (length xs) xs ≡ xs
take_all [] = refl
take_all (x ∷ xs) = ap (λ t. x ∷ t) (take_all xs)

module _ {C : Type 0} where
  -- `r` is what `m` has at the longest prefix of `p` among those of 1 to `n` components, else `d`.
  pub data Longest (m : List (Bytes × C)) (d : C) (p : PathBuf) (n : ℕ) (r : C) : Type 0 where
    found :
        (k : ℕ)
        → 0 < k
        → k ≤ n
        → lookup_path (take k p) m ≡ some r
        → ((j : ℕ) → k < j → j ≤ n → lookup_path (take j p) m ≡ none)
        → Longest m d p n r
    fallback :
        r ≡ d → ((j : ℕ) → 0 < j → j ≤ n → lookup_path (take j p) m ≡ none) → Longest m d p n r

  Longest-suc :
      (m : List (Bytes × C)) (d : C) (p : PathBuf) (n : ℕ) (r : C)
      → lookup_path (take (suc n) p) m ≡ none
      → Longest m d p n r
      → Longest m d p (suc n) r
  Longest-suc m d p n r h (found k a b e none_above) = found k a (omega arith) e (λ j lo hi.
      unchecked (λ i. k < i → lookup_path (take i p) m ≡ none) n (λ _. h)
        (λ i le lt. none_above i lt le) j hi lo)
  Longest-suc m d p n r h (fallback e none_at) = fallback e (λ j lo hi.
      unchecked (λ i. 0 < i → lookup_path (take i p) m ≡ none) n (λ _. h)
        (λ i le lt. none_at i lt le) j hi lo)

  climb-Longest :
      (m : List (Bytes × C)) (d : C) (xs : PathBuf) (n fuel : ℕ)
      → NoRoot xs
      → n ≤ length xs
      → n < fuel
      → (r : C) × (climb fuel m d (root_dir ∷ take n xs) ≡ some r)
        × Longest m d (root_dir ∷ xs) (suc n) r
  unfolding climb pop
  climb-Longest m d xs n zero h k l = absurd (omega arith)
  climb-Longest m d xs zero (suc fuel) h k l = elim (Option-cases (lookup_path (root_dir ∷ []) m)) [
    | inl e ↦ (
      d,
      rw (e, climb) refl,
      fallback refl (λ j a b.
          unchecked (λ i. 0 < i → lookup_path (take i (root_dir ∷ xs)) m ≡ none) 0 (λ _. e)
            (λ i x y. absurd (omega arith)) j b a),
    )
    | inr (c, e) ↦ (
      c,
      rw (e, climb) refl,
      found 1 (omega arith) (omega arith) e (λ j a b. absurd (omega arith)),
    )
  ]
  climb-Longest m d xs (suc n) (suc fuel) h k l =
      elim (Option-cases (lookup_path (root_dir ∷ take (suc n) xs) m)) [
        | inl e ↦
            let (r, run, best) = climb-Longest m d xs n fuel h (omega arith) (omega arith) in
            (
              r,
              rw (e, climb) (rw (pop-take n xs h k, climb) run),
              Longest-suc m d (root_dir ∷ xs) (suc n) r e best,
            )
        | inr (c, e) ↦ (
          c,
          rw (e, climb) refl,
          found (suc (suc n)) (omega arith) (omega arith) e (λ j a b. absurd (omega arith)),
        )
      ]

  climb_total :
      (m : List (Bytes × C)) (d : C) (fuel : ℕ) (p : PathBuf)
      → length p < fuel
      → (r : C) × (climb fuel m d p ≡ some r)
  unfolding climb
  climb_total m d zero p h = absurd (omega arith)
  climb_total m d (suc fuel) p h = elim (Option-cases (lookup_path p m)) [
    | inr (c, e) ↦ (c, rw (e, climb) refl)
    | inl e ↦ elim (Option-cases (pop p)) [
      | inl f ↦ (d, rw (e, climb) (rw (f, climb) refl))
      | inr (q, f) ↦
          let (r, run) = climb_total m d fuel q (omega (arith, shorter_pop p q f)) in
          (r, rw (e, climb) (rw (f, climb) run))
    ]
  ]

  select_path_total :
      (d : C) (paths : Option (List (Bytes × C))) (path : Option Bytes)
      → (r : C) × (select_path d paths path ≡ some r)
  unfolding select_path
  select_path_total d paths none = (d, refl)
  select_path_total d none (some text) = (d, refl)
  select_path_total d (some []) (some text) = (d, refl)
  select_path_total d (some (e ∷ m)) (some text) =
      elim (Option-cases (lookup_path (components text) (e ∷ m))) [
        | inr (c, f) ↦ (c, rw (f, select_path) refl)
        | inl f ↦
            let (r, run) =
              climb_total (e ∷ m) d (suc (length (components text))) (components text)
                (omega arith) in
            (r, rw (f, select_path) run)
      ]

  -- Every request gets a configuration: the loop over the parents of its path ends.
  pub get_config_for_request_total :
      (cm : ConfigMap C) (host path : Option Bytes)
      → (r : C) × (get_config_for_request cm host path ≡ some r)
  unfolding get_config_for_request
  get_config_for_request_total cm host path =
      select_path_total (host_scope cm host).0 (host_scope cm host).1 path

  abbrev pub path_list : Option (List (Bytes × C)) → List (Bytes × C)
  path_list none = []
  path_list (some m) = m

  select_path-climb :
      (d : C) (m : List (Bytes × C)) (e : Bytes × C) (text : Bytes)
      → select_path d (some (e ∷ m)) (some text)
        ≡ climb (suc (length (components text))) (e ∷ m) d (components text)
  unfolding select_path
  select_path-climb d m e text = elim (Option-cases (lookup_path (components text) (e ∷ m))) [
    | inr (c, f) ↦ rw (f, climb) (rw (f, select_path) refl)
    | inl f ↦ rw (f, select_path) refl
  ]

  -- The best prefix of an absolute path, and the run of the loop that finds it.
  abbrev Climbs : List (Bytes × C) → C → PathBuf → Type 0
  Climbs m d p = (r : C) × (climb (suc (length p)) m d p ≡ some r) × Longest m d p (length p) r

  climb_absolute :
      (m : List (Bytes × C)) (d : C) (xs : PathBuf) → NoRoot xs → Climbs m d (root_dir ∷ xs)
  climb_absolute m d xs h =
      subst
        (λ t.
          (r : C) × (climb (suc (suc (length xs))) m d (root_dir ∷ t) ≡ some r)
          × Longest m d (root_dir ∷ xs) (suc (length xs)) r)
        (take_all xs)
        (climb-Longest m d xs (length xs) (suc (suc (length xs))) h (omega arith) (omega arith))

  select_path-Longest :
      (d : C) (paths : Option (List (Bytes × C))) (text : Bytes)
      → starts_with_byte b'/' text ≡ true
      → (r : C) × (select_path d paths (some text) ≡ some r)
        × Longest (path_list paths) d (components text) (length (components text)) r
  unfolding select_path lookup_path
  select_path-Longest d none text h = (d, refl, fallback refl (λ j a b. refl))
  select_path-Longest d (some []) text h = (d, refl, fallback refl (λ j a b. refl))
  select_path-Longest d (some (e ∷ m)) text h =
      let (r, run, best) = subst (Climbs (e ∷ m) d) (sym (components_absolute text h)) (
        climb_absolute (e ∷ m) d (components_from (segments text))
          (components_from-NoRoot (segments text))) in
      (r, select_path-climb d m e text ∙ run, best)

  -- A request whose path starts with `/` gets the configuration that its host's path map (the
  -- default path map, if the host is none or not configured) has at the longest prefix of its path,
  -- counted in components, and the host's own (the default) if no prefix is in the map.
  pub get_config_for_request-Longest :
      (cm : ConfigMap C) (host : Option Bytes) (text : Bytes)
      → starts_with_byte b'/' text ≡ true
      → (r : C) × (get_config_for_request cm host (some text) ≡ some r)
        × Longest
            (path_list (host_scope cm host).1)
            (host_scope cm host).0
            (components text)
            (length (components text))
            r
  unfolding get_config_for_request
  get_config_for_request-Longest cm host text h =
      select_path-Longest (host_scope cm host).0 (host_scope cm host).1 text h
