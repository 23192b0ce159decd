-- ===== src/Http2/Loop/Store.antt =====
-- The streams that the map and the tasks share: each place of the store belongs to one stream.
use jequi.Prelude.{
  ℕ, suc, ◌<◌, ◌≡◌, sym, subst, Bool, some, List, [], ◌∷◌, ◌++◌, arith, Bytes, All, All-append,
  Result,
}
use jequi.Headers.{Header, HeaderOps}
use jequi.Maps
use jequi.Maps.{nat_Eq, get-insert, get-remove}
use jequi.Config.Select.{ConfigMap}
use jequi.Server.Plugin.{Plugin}
use jequi.Http2.Loop.{
  Phase, started, handled, finished, sent, Task, Conn, open_stream, deliver, run_handlers,
  finish_stream, with_phase, headers, Step, receive, pass, handle, read_whole, send, let_go, write,
  Run, start, opens, steps,
}

pub All-middle {ℓ κ} :
    {A : Type ℓ} (P : A → Type κ) (xs : List A) (a : A) (ys : List A)
    → All P (xs ++ (a ∷ ys))
    → All P xs × P a × All P ys
All-middle P [] a ys (p, h) = (tt, p, h)
All-middle P (x ∷ xs) a ys (q, h) =
    let (before, p, after) = All-middle P xs a ys h in ((q, before), p, after)

All-map {ℓ κ} :
    {A : Type ℓ} {P Q : A → Type κ} (xs : List A) → ((a : A) → P a → Q a) → All P xs → All Q xs
All-map [] f h = tt
All-map (x ∷ xs) f (p, h) = (f x p, All-map xs f h)

-- The place of a task is no free one, and no other stream's.
abbrev pub Own : List (ℕ × ℕ) → ℕ → Task → Type 0
Own streams next t = (t.place < next) × ((i : ℕ) → Maps.get i streams ≡ some t.place → i ≡ t.id)

-- The map names places that are in use, two streams have different ones, and tasks have their own.
pub record Shared (streams : List (ℕ × ℕ)) (next : ℕ) (tasks : List Task) : Type 0 where
  pub used : (i n : ℕ) → Maps.get i streams ≡ some n → n < next
  pub apart : (i j n : ℕ) → Maps.get i streams ≡ some n → Maps.get j streams ≡ some n → i ≡ j
  pub own : All (Own streams next) tasks

Shared-open :
    (streams : List (ℕ × ℕ)) (next : ℕ) (tasks : List Task) (id : ℕ) (read_body : Bool)
    → Shared streams next tasks
    → Shared
        (Maps.insert id next streams)
        (suc next)
        (tasks ++ (record { place = next; id = id; read_body = read_body; phase = started } ∷ []))
Shared-open streams next tasks id read_body shared = record {
  used = λ i n h. ground (arith, get-insert id i next streams, shared.used i n);
  apart = λ i j n h k. ground (
    arith,
    get-insert id i next streams,
    get-insert id j next streams,
    shared.apart i j n,
    shared.used i n,
    shared.used j n,
  );
  own =
      All-append (Own (Maps.insert id next streams) (suc next)) tasks _
        (All-map tasks
          (λ t p.
            (omega (arith, p.0), λ i h. ground (arith, get-insert id i next streams, p.0, p.1 i)))
          shared.own)
        (
          (omega arith, λ i h. ground (arith, get-insert id i next streams, shared.used i next)),
          tt,
        );
}

Shared-replace :
    (streams : List (ℕ × ℕ)) (next : ℕ) (tasks before : List Task) (t : Task) (after : List Task)
    (p : Phase)
    → tasks ≡ before ++ (t ∷ after)
    → Shared streams next tasks
    → Shared streams next (before ++ (with_phase t p ∷ after))
Shared-replace streams next tasks before t after p e shared =
    let (front, own, back) =
      All-middle (Own streams next) before t after (subst (All (Own streams next)) e shared.own) in
    record {
      used = shared.used;
      apart = shared.apart;
      own = All-append (Own streams next) before (with_phase t p ∷ after) front (own, back);
    }

Shared-drop :
    (streams : List (ℕ × ℕ)) (next : ℕ) (tasks before : List Task) (t : Task) (after : List Task)
    → tasks ≡ before ++ (t ∷ after)
    → Shared streams next tasks
    → Shared streams next (before ++ after)
Shared-drop streams next tasks before t after e shared =
    let (front, own, back) =
      All-middle (Own streams next) before t after (subst (All (Own streams next)) e shared.own) in
    record {
      used = shared.used;
      apart = shared.apart;
      own = All-append (Own streams next) before after front back;
    }

Shared-remove :
    (streams : List (ℕ × ℕ)) (next : ℕ) (tasks : List Task) (id : ℕ)
    → Shared streams next tasks
    → Shared (Maps.remove id streams) next tasks
Shared-remove streams next tasks id shared = record {
  used = λ i n h. ground (arith, get-remove id i streams, shared.used i n);
  apart = λ i j n h k.
      ground (arith, get-remove id i streams, get-remove id j streams, shared.apart i j n);
  own =
      All-map tasks (λ t p. (p.0, λ i h. ground (arith, get-remove id i streams, p.1 i)))
        shared.own;
}

abbrev pub SharedIn : {M D E : Type 0} → Conn M D E → Type 0
SharedIn c = Shared c.streams c.next c.tasks

module _ {M D E H : Type 0} ⦃ops : HeaderOps M⦄ (now : Bytes)
    (config_map : ConfigMap (List (Plugin M H)))
    (hpack_decode : D → Bytes → Result (List Header × D))
    (hpack_encode : E → List Header → Bytes × E) where
  SharedIn-Step :
      (c c' : Conn M D E)
      → Step now config_map hpack_decode hpack_encode c c'
      → SharedIn c
      → SharedIn c'
  unfolding deliver run_handlers finish_stream
  SharedIn-Step c c' (receive f n _ _ e) s = subst SharedIn (sym e) s
  SharedIn-Step c c' (pass f _ _ e) s = subst SharedIn (sym e) s
  SharedIn-Step c c' (handle before t after request response post ts _ _ e) s =
      subst SharedIn (sym e) (Shared-replace c.streams c.next c.tasks before t after handled ts s)
  SharedIn-Step c c' (read_whole before t after ts _ _ e) s =
      subst SharedIn (sym e) (Shared-replace c.streams c.next c.tasks before t after finished ts s)
  SharedIn-Step c c' (send before t after ts _ _ e) s =
      subst SharedIn (sym e) (Shared-replace c.streams c.next c.tasks before t after sent ts s)
  SharedIn-Step c c' (let_go before t after ts _ e) s =
      subst SharedIn (sym e) (Shared-drop c.streams c.next c.tasks before t after ts s)
  SharedIn-Step c c' (write id n rest bytes e _ _ _ _ w) s =
      subst SharedIn (sym w) (Shared-remove c.streams c.next c.tasks id s)

  pub SharedIn-Run :
      {c₀ c : Conn M D E} {ids : List ℕ}
      → SharedIn c₀
      → Run now config_map hpack_decode hpack_encode c₀ ids c
      → SharedIn c
  unfolding open_stream
  SharedIn-Run s start = s
  SharedIn-Run s (opens {c = c} r (headers f m stream read_body d _ _ _ e)) =
      subst SharedIn (sym e) (Shared-open c.streams c.next c.tasks _ read_body (SharedIn-Run s r))
  SharedIn-Run s (steps {c = c} {c' = c'} r st) = SharedIn-Step c c' st (SharedIn-Run s r)
