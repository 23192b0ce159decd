-- ===== src/Server/Process/Reload.antt =====
-- With which configuration a connection is served, whatever is reloaded.
use jequi.Prelude.{
  ℕ, ◌≡◌, refl, sym, ap, subst, ◌∙◌, ◌⊎◌, inl, inr, true, false, some, List, [], ◌∷◌, ◌++◌,
  append-nil, append_assoc, Bool-cases, ErrorKind, Result, ok, err, panic,
}
use jequi.Config.Select.{ConfigMap}
use jequi.Server.Plugin.{Plugin, Config, get_jequi}
use jequi.Server.Process.{
  Server, Event, accepts, hangs_up, main, listen_reload, step, run, last_loaded,
}

module _ {C : Type 0} where
  run-append : (s : Server C) (es fs : List (Event C)) → run (es ++ fs) s ≡ run fs (run es s)
  unfolding run
  run-append s [] fs = refl
  run-append s (e ∷ es) fs = run-append (step e s) es fs

  step_reloads :
      (loaded : Result C) (s : Server C)
      → s.reloading ≡ true
      → step (hangs_up loaded) s ≡ listen_reload loaded s
  unfolding step
  step_reloads loaded s h = rw h refl

  step_stopped :
      (loaded : Result C) (s : Server C) → s.reloading ≡ false → step (hangs_up loaded) s ≡ s
  unfolding step
  step_stopped loaded s h = rw h refl

  -- A step adds connections only, and the address stays.
  Grows : Server C → Server C → Type 0
  Grows s t =
      (more : List (ℕ × C)) × (t.connections ≡ s.connections ++ more) × (t.address ≡ s.address)

  Grows-listen_reload : (loaded : Result C) (s : Server C) → Grows s (listen_reload loaded s)
  unfolding listen_reload Grows
  Grows-listen_reload (ok loaded) s = ([], rw append-nil refl, refl)
  Grows-listen_reload (err e) s = ([], rw append-nil refl, refl)
  Grows-listen_reload panic s = ([], rw append-nil refl, refl)

  Grows-step : (s : Server C) (e : Event C) → Grows s (step e s)
  unfolding step Grows
  Grows-step s (accepts n) = ((n, s.config) ∷ [], refl, refl)
  Grows-step s (hangs_up loaded) = elim (Bool-cases s.reloading) [
    | inl r ↦ subst (Grows s) (sym (step_reloads loaded s r)) (Grows-listen_reload loaded s)
    | inr r ↦ subst (Grows s) (sym (step_stopped loaded s r)) ([], rw append-nil refl, refl)
  ]

  Grows-run : (s : Server C) (es : List (Event C)) → Grows s (run es s)
  unfolding run Grows
  Grows-run s [] = ([], rw append-nil refl, refl)
  Grows-run s (e ∷ es) =
      let (first, p, a) = Grows-step s e in
      let (more, q, b) = Grows-run (step e s) es in
      (first ++ more, q ∙ rw p (append_assoc s.connections first more), b ∙ a)

  run_stopped :
      (s : Server C) (es : List (Event C)) → s.reloading ≡ false → (run es s).config ≡ s.config
  unfolding run step
  run_stopped s [] h = refl
  run_stopped s (accepts n ∷ es) h = run_stopped (step (accepts n) s) es h
  run_stopped s (hangs_up loaded ∷ es) h =
      ap (λ t. (run es t).config) (step_stopped loaded s h) ∙ run_stopped s es h

  run-last_loaded :
      (s : Server C) (es : List (Event C))
      → s.reloading ≡ true
      → (run es s).config ≡ last_loaded s.config es
  unfolding run listen_reload step
  run-last_loaded s [] h = refl
  run-last_loaded s (accepts n ∷ es) h = run-last_loaded (step (accepts n) s) es h
  run-last_loaded s (hangs_up (ok loaded) ∷ es) h =
      ap (λ t. (run es t).config) (step_reloads (ok loaded) s h)
      ∙ run-last_loaded (listen_reload (ok loaded) s) es h
  run-last_loaded s (hangs_up (err e) ∷ es) h =
      ap (λ t. (run es t).config) (step_reloads (err e) s h)
      ∙ run_stopped (listen_reload (err e) s) es refl
  run-last_loaded s (hangs_up panic ∷ es) h =
      ap (λ t. (run es t).config) (step_reloads panic s h)
      ∙ run_stopped (listen_reload panic s) es refl

  run-accepts :
      (s : Server C) (es fs : List (Event C)) (n : ℕ)
      → s.reloading ≡ true
      → (older newer : List (ℕ × C)) × ((run (es ++ (accepts n ∷ fs)) s).connections
          ≡ older ++ ((n, last_loaded s.config es) ∷ newer))
        × ((run (es ++ (accepts n ∷ fs)) s).address ≡ s.address)
  unfolding run step Grows
  run-accepts s es fs n h =
      let mid : Server C = run es s in
      let (older, p, a) = Grows-run s es in
      let (newer, q, b) = Grows-run (step (accepts n) mid) fs in
      (
        mid.connections,
        newer,
        ap (λ t. t.connections) (run-append s es (accepts n ∷ fs))
            ∙ q
            ∙ append_assoc mid.connections ((n, mid.config) ∷ []) newer
            ∙ rw (run-last_loaded s es h) refl,
        ap (λ t. t.address) (run-append s es (accepts n ∷ fs)) ∙ b ∙ a,
      )

  -- Once a configuration could not be loaded, no event changes the configuration again: every signal
  -- that follows is without effect.
  pub run_after_failure :
      (s : Server C) (es : List (Event C)) (failed : Result C)
      → (failed ≡ panic) ⊎ ((e : ErrorKind) × (failed ≡ err e))
      → (run (hangs_up failed ∷ es) s).config ≡ s.config
  unfolding run listen_reload
  run_after_failure s es (ok loaded) (inl e) = cc
  run_after_failure s es (ok loaded) (inr (why, e)) = cc
  run_after_failure s es (err why) h = elim (Bool-cases s.reloading) [
    | inl r ↦
        ap (λ t. (run es t).config) (step_reloads (err why) s r)
        ∙ run_stopped (listen_reload (err why) s) es refl
    | inr r ↦ ap (λ t. (run es t).config) (step_stopped (err why) s r) ∙ run_stopped s es r
  ]
  run_after_failure s es panic h = elim (Bool-cases s.reloading) [
    | inl r ↦
        ap (λ t. (run es t).config) (step_reloads panic s r)
        ∙ run_stopped (listen_reload panic s) es refl
    | inr r ↦ ap (λ t. (run es t).config) (step_stopped panic s r) ∙ run_stopped s es r
  ]

-- Where the first configuration is loaded, the server starts; a connection that it accepts among any
-- events is served from then on, whatever events follow, with the last configuration that could be
-- loaded before it, up to the first that could not; and it listens at the address of the first one
-- for ever.
pub main-run :
    {M H : Type 0} (first : ConfigMap (List (Plugin M H))) (conf : Config)
    (es fs : List (Event (ConfigMap (List (Plugin M H))))) (n : ℕ)
    → get_jequi first.config ≡ some conf
    → (s : Server (ConfigMap (List (Plugin M H)))) × (main (ok first) ≡ ok s)
      × (older newer : List (ℕ × ConfigMap (List (Plugin M H)))) × ((run
            (es ++ (accepts n ∷ fs))
            s).connections
          ≡ older ++ ((n, last_loaded first es) ∷ newer))
      × ((run (es ++ (accepts n ∷ fs)) s).address ≡ (conf.ip, conf.port))
unfolding main
main-run {M = M} {H = H} first conf es fs n h =
    let s : Server (ConfigMap (List (Plugin M H))) = record {
      address = (conf.ip, conf.port);
      config = first;
      reloading = true;
      connections = [];
    } in
    let (older, newer, c, a) = run-accepts s es fs n refl in (s, rw h refl, older, newer, c, a)
