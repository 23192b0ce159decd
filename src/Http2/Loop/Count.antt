-- ===== src/Http2/Loop/Count.antt =====
-- Counting a stream among the tasks that have still to send it.
use jequi.Prelude.{
  ℕ, ◌+◌, ◌≡◌, refl, sym, ap, ◌∙◌, inl, inr, Bool, true, false, List, [], ◌∷◌, ◌++◌, arith, ◌==◌,
  if◌then◌else◌, Bool-cases,
}
use jequi.Http2.Loop.{Phase, sent, Task, with_phase}

abbrev pub count : ℕ → List ℕ → ℕ
count i [] = 0
count i (x ∷ xs) = (if x == i then 1 else 0) + count i xs

pub count-append : (i : ℕ) (xs ys : List ℕ) → count i (xs ++ ys) ≡ count i xs + count i ys
count-append i [] ys = omega arith
count-append i (x ∷ xs) ys = omega (arith, count-append i xs ys)

-- The streams whose tasks have not sent them yet.
abbrev pub unsent : Phase → Bool
unsent sent = false
unsent _ = true

abbrev pub busy : List Task → List ℕ
busy [] = []
busy (t ∷ ts) = if unsent t.phase then t.id ∷ busy ts else busy ts

pub busy-append : (ts us : List Task) → busy (ts ++ us) ≡ busy ts ++ busy us
busy-append [] us = refl
busy-append (t ∷ ts) us = elim (Bool-cases (unsent t.phase)) [
  | inl e ↦ rw e (ap (λ l. t.id ∷ l) (busy-append ts us))
  | inr e ↦ rw e (busy-append ts us)
]

-- How often a stream is among those that a task with others around it still has to send.
pub count-busy :
    (i : ℕ) (before : List Task) (t : Task) (after : List Task)
    → count i (busy (before ++ (t ∷ after)))
      ≡ count i (busy before)
        + ((if unsent t.phase then (if t.id == i then 1 else 0) else 0) + count i (busy after))
count-busy i before t after =
    ap (count i) (busy-append before (t ∷ after))
    ∙ count-append i (busy before) (busy (t ∷ after))
    ∙ elim (Bool-cases (unsent t.phase)) [ inl e ↦ rw e refl | inr e ↦ rw e (omega arith) ]

abbrev pub ids_of {ℓ} : {A : Type ℓ} → List (ℕ × A) → List ℕ
ids_of [] = []
ids_of ((id, a) ∷ m) = id ∷ ids_of m

pub ids_of-append {ℓ} : {A : Type ℓ} (m n : List (ℕ × A)) → ids_of (m ++ n) ≡ ids_of m ++ ids_of n
ids_of-append [] n = refl
ids_of-append ((id, a) ∷ m) n = ap (λ l. id ∷ l) (ids_of-append m n)

-- A task's step to another phase before it has sent its stream leaves the stream where it is.
pub busy_phase :
    (i : ℕ) (before : List Task) (t : Task) (after : List Task) (p : Phase)
    → unsent t.phase ≡ true
    → unsent p ≡ true
    → count i (busy (before ++ (with_phase t p ∷ after))) ≡ count i (busy (before ++ (t ∷ after)))
busy_phase i before t after p e f =
    count-busy i before (with_phase t p) after ∙ rw f (sym (rw e at (count-busy i before t after)))
