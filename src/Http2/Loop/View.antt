-- ===== src/Http2/Loop/View.antt =====
-- The streams of a connection by their numbers, and what a change in the store does to them.
use jequi.Prelude.{
  ℕ, ◌≡◌, refl, subst, ◌∙◌, ◌≢◌, ◌⊎◌, inl, inr, Option, none, some, List, arith, ◌==◌,
  if◌then◌else◌, ==_iff, ==_refl, Bool-cases, Option-cases,
}
use jequi.Maps
use jequi.Maps.{nat_Eq}
use jequi.Http2.Streams.{Stream}
use jequi.Http2.Loop.{Conn, put}

abbrev pub set_at {ℓ} : {A : Type ℓ} → ℕ → A → (ℕ → A) → ℕ → A
set_at n a f i = if n == i then a else f i

-- The stream at a place.
abbrev pub at_place : {M : Type 0} → (ℕ → Stream M) → Option ℕ → Option (Stream M)
at_place store none = none
at_place store (some n) = some (store n)

pub place_dec : (o : Option ℕ) (n : ℕ) → (o ≡ some n) ⊎ (o ≢ some n)
place_dec none n = inr (λ e. cc)
place_dec (some k) n = elim (Bool-cases (k == n)) [
  | inl e ↦ inl (ground arith)
  | inr e ↦ inr (ground arith)
]

module _ {M : Type 0} (streams : List (ℕ × ℕ)) (store : ℕ → Stream M) where
  -- A change at a place that no stream has changes no stream ...
  pub view_free :
      (n : ℕ) (a : Stream M) (i : ℕ)
      → Maps.get i streams ≢ some n
      → at_place (put n a store) (Maps.get i streams) ≡ at_place store (Maps.get i streams)
  view_free n a i free = elim (Option-cases (Maps.get i streams)) [
    | inl e ↦ rw e refl
    | inr (k, e) ↦ elim (Bool-cases (n == k)) [
      | inl same ↦ absurd (free (e ∙ ground arith))
      | inr ne ↦ rw e (rw ne refl)
    ]
  ]

  -- ... and one at a stream's place that stream alone.
  pub view_put :
      (id n : ℕ) (a : Stream M) (i : ℕ)
      → Maps.get id streams ≡ some n
      → (Maps.get i streams ≡ some n → i ≡ id)
      → at_place (put n a store) (Maps.get i streams)
        ≡ set_at id (some a) (λ j. at_place store (Maps.get j streams)) i
  view_put id n a i at apart = elim (Bool-cases (id == i)) [
    | inl e ↦
        let here : Maps.get i streams ≡ some n =
          subst (λ j. Maps.get j streams ≡ some n) ((==_iff id i).0 e) at in
        rw here (rw e (rw ==_refl refl))
    | inr ne ↦ rw ne (view_free n a i (λ h. ground (arith, apart h)))
  ]

abbrev pub view : {M D E : Type 0} → Conn M D E → ℕ → Option (Stream M)
view c i = at_place c.store (Maps.get i c.streams)
