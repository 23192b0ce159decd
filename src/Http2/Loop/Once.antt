-- ===== src/Http2/Loop/Once.antt =====
-- If no stream is opened twice, each is answered at most once, and no response is looked for in vain.
use jequi.Prelude.{
  ==_refl, ℕ, ◌+◌, ◌≤◌, ◌<◌, ◌≡◌, refl, sym, ap, subst, ◌∙◌, inl, inr, Bool, true, false, Option,
  none, some, List, [], ◌∷◌, ◌++◌, arith, ◌==◌, Bool-cases, Bytes, Result,
}
use jequi.Headers.{Header, HeaderOps}
use jequi.Maps
use jequi.Maps.{nat_Eq, get-insert, get-remove}
use jequi.Config.Select.{ConfigMap}
use jequi.Http2.Loop.{
  Stream, started, handled, finished, sent, Task, Conn, open_stream, deliver, run_handlers,
  finish_stream, with_phase, headers, Step, receive, pass, handle, read_whole, send, let_go, write,
  Run, start, opens, steps,
}
use jequi.Http2.Loop.Count.{
  count, count-append, unsent, busy, busy-append, count-busy, ids_of, ids_of-append, busy_phase,
}
use jequi.Server.Plugin.{Plugin}

-- No stream was opened twice.
abbrev pub Unique : List ℕ → Type 0
Unique ids = (i : ℕ) → count i ids ≤ 1

abbrev pub is_open : Option ℕ → Bool
is_open none = false
is_open (some n) = true

module _ {M D E : Type 0} where
  -- How often a stream is on its way, and how often it is answered.
  abbrev pub pending : ℕ → Conn M D E → ℕ
  pending i c = count i (busy c.tasks) + count i c.queue

  abbrev pub answers : ℕ → Conn M D E → ℕ
  answers i c = count i (ids_of c.written)

  -- A stream is on its way or answered at most as often as it was opened, and is in the map as long
  -- as it is on its way.
  pub record Inv (ids : List ℕ) (c : Conn M D E) : Type 0 where
    pub accounted : (i : ℕ) → pending i c + answers i c ≤ count i ids
    pub entered : (i : ℕ) → 0 < pending i c → is_open (Maps.get i c.streams) ≡ true

  Inv-same :
      (ids : List ℕ) (c c' : Conn M D E)
      → Inv ids c
      → c'.streams ≡ c.streams
      → ((i : ℕ) → pending i c' ≡ pending i c)
      → ((i : ℕ) → answers i c' ≡ answers i c)
      → Inv ids c'
  Inv-same ids c c' inv same p a = record {
    accounted = λ i. omega (arith, inv.accounted i, p i, a i);
    entered = λ i h. rw same (inv.entered i (omega (arith, p i)));
  }

  Inv-open :
      (ids : List ℕ) (c : Conn M D E) (id : ℕ) (stream : Stream M) (read_body : Bool) (d : D)
      → Inv ids c
      → Inv (id ∷ ids) (open_stream c id stream read_body d)
  unfolding open_stream
  Inv-open ids c id stream read_body d inv =
      let t : Task = record { place = c.next; id = id; read_body = read_body; phase = started } in
      record {
        accounted = λ i. omega (arith, inv.accounted i, count-busy i c.tasks t []);
        entered = λ i h. elim (Bool-cases (id == i)) [
          | inl e ↦ rw (get-insert id i c.next c.streams) (rw e refl)
          | inr e ↦
              let more = rw e at (count-busy i c.tasks t []) in
              rw (get-insert id i c.next c.streams) (rw e (inv.entered i (omega (arith, more))))
        ];
      }

  Inv-finish :
      (ids : List ℕ) (c : Conn M D E) (id : ℕ) (rest : List ℕ) (bytes : Bytes) (e : E)
      → Unique ids
      → c.queue ≡ id ∷ rest
      → Inv ids c
      → Inv ids (finish_stream c id rest bytes e)
  unfolding finish_stream
  Inv-finish ids c id rest bytes e unique q inv = record {
    accounted = λ i. omega (
      arith,
      inv.accounted i,
      ap (count i) q,
      ap (count i) (ids_of-append c.written ((id, bytes) ∷ [])),
      count-append i (ids_of c.written) (id ∷ []),
    );
    entered = λ i h. elim (Bool-cases (id == i)) [
      | inl same ↦
          let two : count i c.queue ≡ 1 + count i rest = ap (count i) q ∙ rw same refl in
          absurd (omega (arith, inv.accounted i, unique i, two))
      | inr ne ↦
          let as_many : count i c.queue ≡ 0 + count i rest = ap (count i) q ∙ rw ne refl in
          rw (get-remove id i c.streams) (rw ne (inv.entered i (omega (arith, as_many))))
    ];
  }

module _ {M D E H : Type 0} ⦃ops : HeaderOps M⦄ (now : Bytes)
    (config_map : ConfigMap (List (Plugin M H)))
    (hpack_decode : D → Bytes → Result (List Header × D))
    (hpack_encode : E → List Header → Bytes × E) where
  Inv-Step :
      (ids : List ℕ) (c c' : Conn M D E)
      → Unique ids
      → Step now config_map hpack_decode hpack_encode c c'
      → Inv ids c
      → Inv ids c'
  unfolding deliver run_handlers
  Inv-Step ids c c' u (receive f n _ _ e) inv =
      subst (Inv ids) (sym e)
        (Inv-same ids c (deliver c n f.payload) inv refl (λ i. refl) (λ i. refl))
  Inv-Step ids c c' u (pass f _ _ e) inv = subst (Inv ids) (sym e) inv
  Inv-Step ids c c' u (handle before t after request response post ts p _ e) inv =
      subst (Inv ids) (sym e) (
        Inv-same ids c (run_handlers c before t after request response) inv refl
          (λ i. omega (
            arith,
            ap (λ l. count i (busy l)) ts,
            busy_phase i before t after handled (ap unsent p) refl,
          ))
          (λ i. refl))
  Inv-Step ids c c' u (read_whole before t after ts p _ e) inv = subst (Inv ids) (sym e) (
      Inv-same ids c (record c { tasks = before ++ (with_phase t finished ∷ after) }) inv refl
        (λ i. omega (
          arith,
          ap (λ l. count i (busy l)) ts,
          busy_phase i before t after finished (ap unsent p) refl,
        ))
        (λ i. refl))
  Inv-Step ids c c' u (send before t after ts p _ e) inv = subst (Inv ids) (sym e) (
      Inv-same ids c
        (record c { tasks = before ++ (with_phase t sent ∷ after); queue = c.queue ++ (t.id ∷ []) })
        inv refl
        (λ i. omega (
          arith,
          ap (λ l. count i (busy l)) ts,
          rw (ap unsent p) at (count-busy i before t after),
          count-busy i before (with_phase t sent) after,
          count-append i c.queue (t.id ∷ []),
        ))
        (λ i. refl))
  Inv-Step ids c c' u (let_go before t after ts p e) inv = subst (Inv ids) (sym e) (
      Inv-same ids c (record c { tasks = before ++ after }) inv refl
        (λ i. omega (
          arith,
          ap (λ l. count i (busy l)) ts,
          rw (ap unsent p) at (count-busy i before t after),
          ap (count i) (busy-append before after),
          count-append i (busy before) (busy after),
        ))
        (λ i. refl))
  Inv-Step ids c c' u (write id n rest bytes e q _ _ _ w) inv =
      subst (Inv ids) (sym w) (Inv-finish ids c id rest bytes e u q inv)

  pub Inv-Run :
      {c₀ : Conn M D E} {ids : List ℕ} {c : Conn M D E}
      → Inv [] c₀
      → Run now config_map hpack_decode hpack_encode c₀ ids c
      → Unique ids
      → Inv ids c
  Inv-Run first start u = first
  Inv-Run first (opens {ids = ids} {id = id} {c = c} r (headers f m stream read_body d _ _ _ e)) u =
      subst (Inv (id ∷ ids)) (sym e)
        (Inv-open ids c id stream read_body d (Inv-Run first r (λ i. omega (arith, u i))))
  Inv-Run first (steps {ids = ids} {c = c} {c' = c'} r st) u =
      Inv-Step ids c c' u st (Inv-Run first r u)

-- A connection on which nothing has happened yet.
abbrev pub fresh : {M D E : Type 0} → (ℕ → Stream M) → D → E → Conn M D E
fresh store d e = record {
  streams = [];
  store = store;
  next = 0;
  tasks = [];
  queue = [];
  decoder = d;
  encoder = e;
  written = [];
}

module _ {M D E H : Type 0} ⦃ops : HeaderOps M⦄ (now : Bytes)
    (config_map : ConfigMap (List (Plugin M H)))
    (hpack_decode : D → Bytes → Result (List Header × D))
    (hpack_encode : E → List Header → Bytes × E) (store : ℕ → Stream M) (d : D) (e : E) where
  fresh-Inv : Inv [] (fresh store d e)
  fresh-Inv = record { accounted = λ i. omega arith; entered = λ i h. absurd (omega arith) }

  -- However frames arrive and tasks run, a stream is answered at most as often as it was opened, if
  -- none is opened twice: no stream has two responses, and none that was not opened has one.
  pub Run-answers :
      {ids : List ℕ} {c : Conn M D E} (i : ℕ)
      → Run now config_map hpack_decode hpack_encode (fresh store d e) ids c
      → Unique ids
      → answers i c ≤ count i ids
  Run-answers i r u =
      omega (arith, (Inv-Run now config_map hpack_decode hpack_encode fresh-Inv r u).accounted i)

  -- However frames arrive and tasks run, a stream whose number is next in the channel is in the map
  -- of streams, if no stream is opened twice: its response is not looked for in vain.
  pub Run-response_found :
      {ids : List ℕ} {c : Conn M D E} (id : ℕ) (rest : List ℕ)
      → Run now config_map hpack_decode hpack_encode (fresh store d e) ids c
      → Unique ids
      → c.queue ≡ id ∷ rest
      → is_open (Maps.get id c.streams) ≡ true
  Run-response_found id rest r u q =
      (Inv-Run now config_map hpack_decode hpack_encode fresh-Inv r u).entered id
        (omega (arith, ap (count id) q, ==_count id rest))
    where
      ==_count : (i : ℕ) (l : List ℕ) → count i (i ∷ l) ≡ 1 + count i l
      ==_count i l = rw ==_refl refl
