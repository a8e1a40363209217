-- ===== src/Prelude/Unique.antt =====
-- Maps with one entry for each key, and what the erase loop leaves of them.
use p2p_server.Prelude.Tests.{if◌then◌else◌, Bool-cases}
use p2p_server.Prelude.Maps.{Key, ◌=ₖ◌, Map, find, put, insert, erase, retain, find-put, find-erase}
use mathlib.Core.Path.{◌≡◌, refl}
use mathlib.Core.Logic.{inl, inr}
use mathlib.Core.Bool.{Bool, true, false}
use mathlib.Core.List.{[], ◌∷◌}
use mathlib.Core.Option.{Option, none, some}
use native.Mathlib.Omega.{arith}

flip-beq {ℓ} : {K : Type ℓ} ⦃key : Key K⦄ (j k : K) → (j =ₖ k) ≡ false → (k =ₖ j) ≡ false
flip-beq ⦃key⦄ j k h = ground (arith, key.beq_iff j k, key.beq_iff k j)

module _ {ℓ κ} {K : Type ℓ} {V : Type κ} ⦃key : Key K⦄ where
  abbrev pub Unique : Map K V → Type κ
  Unique [] = Unit
  Unique ((k, v) ∷ m) = (find k m ≡ none) × Unique m

  -- What a test on the entry leaves of a search.
  abbrev pub kept : (K → V → Bool) → K → Option V → Option V
  kept p k none = none
  kept p k (some v) = if p k v then some v else none

  pub put-Unique : (k : K) (v : V) (m : Map K V) → Unique m → Unique (put k v m)
  unfolding put find
  put-Unique k v [] h = (refl, tt)
  put-Unique k v ((j, w) ∷ m) h =
      ground (arith, put-Unique k v m h.1, find-put k j v m, key.beq_iff j k, key.beq_iff k j)

  -- All keys of the map come after `k`.
  abbrev pub Above : K → Map K V → Type 0
  Above k [] = Unit
  Above k ((j, v) ∷ m) = (key.before k j ≡ true) × Above k m

  -- A tree map: the keys strictly increase.
  abbrev pub Ordered : Map K V → Type 0
  Ordered [] = Unit
  Ordered ((k, v) ∷ m) = Above k m × Ordered m

  Above-trans : (i j : K) (m : Map K V) → key.before i j ≡ true → Above j m → Above i m
  Above-trans i j [] p h = tt
  Above-trans i j ((k, v) ∷ m) p h = (key.before_trans i j k p h.0, Above-trans i j m p h.1)

  insert-Above :
      (i k : K) (v : V) (m : Map K V) → key.before i k ≡ true → Above i m → Above i (insert k v m)
  unfolding insert
  insert-Above i k v [] p h = (p, tt)
  insert-Above i k v ((j, w) ∷ m) p h = ground (arith, insert-Above i k v m p h.1)

  pub insert-Ordered : (k : K) (v : V) (m : Map K V) → Ordered m → Ordered (insert k v m)
  unfolding insert
  insert-Ordered k v [] h = (tt, tt)
  insert-Ordered k v ((j, w) ∷ m) h = elim (Bool-cases (j =ₖ k)) [
    | inl same ↦ ground (arith, key.beq_iff j k)
    | inr other ↦ elim (Bool-cases (key.before k j)) [
      | inl p ↦ ground (arith, Above-trans k j m p h.0)
      | inr p ↦ ground (
        arith,
        insert-Ordered k v m h.1,
        insert-Above j k v m (key.before_total k j (flip-beq j k other) p) h.0,
      )
    ]
  ]

  retain-Above : (p : K → V → Bool) (k : K) (m : Map K V) → Above k m → Above k (retain p m)
  unfolding retain
  retain-Above p k [] h = tt
  retain-Above p k ((j, v) ∷ m) h = ground (arith, retain-Above p k m h.1)

  pub retain-Ordered : (p : K → V → Bool) (m : Map K V) → Ordered m → Ordered (retain p m)
  unfolding retain
  retain-Ordered p [] h = tt
  retain-Ordered p ((j, v) ∷ m) h = ground (arith, retain-Ordered p m h.1, retain-Above p j m h.0)

  erase-Above : (i k : K) (m : Map K V) → Above i m → Above i (erase k m)
  unfolding erase
  erase-Above i k [] h = tt
  erase-Above i k ((j, v) ∷ m) h = ground (arith, erase-Above i k m h.1)

  pub erase-Ordered : (k : K) (m : Map K V) → Ordered m → Ordered (erase k m)
  unfolding erase
  erase-Ordered k [] h = tt
  erase-Ordered k ((j, v) ∷ m) h = ground (arith, erase-Ordered k m h.1, erase-Above j k m h.0)

  Above-find : (k : K) (m : Map K V) → Above k m → find k m ≡ none
  unfolding find
  Above-find k [] h = refl
  Above-find k ((j, v) ∷ m) h =
      ground (arith, Above-find k m h.1, key.beq_iff j k, key.before_irrefl k)

  pub Ordered-Unique : (m : Map K V) → Ordered m → Unique m
  Ordered-Unique [] h = tt
  Ordered-Unique ((k, v) ∷ m) h = (Above-find k m h.0, Ordered-Unique m h.1)

  pub erase-Unique : (k : K) (m : Map K V) → Unique m → Unique (erase k m)
  unfolding erase find
  erase-Unique k [] h = tt
  erase-Unique k ((j, w) ∷ m) h = ground (arith, erase-Unique k m h.1, find-erase k j m)

  retain-none :
      (p : K → V → Bool) (k : K) (m : Map K V) → find k m ≡ none → find k (retain p m) ≡ none
  unfolding retain find
  retain-none p k [] h = refl
  retain-none p k ((j, w) ∷ m) h = ground (arith, retain-none p k m)

  pub retain-Unique : (p : K → V → Bool) (m : Map K V) → Unique m → Unique (retain p m)
  unfolding retain
  retain-Unique p [] h = tt
  retain-Unique p ((j, w) ∷ m) h = ground (arith, retain-Unique p m h.1, retain-none p j m h.0)

  pub find-retain :
      (p : K → V → Bool) (k : K) (m : Map K V)
      → Unique m
      → find k (retain p m) ≡ kept p k (find k m)
  unfolding retain find
  find-retain p k [] h = refl
  find-retain p k ((j, w) ∷ m) h =
      ground (arith, find-retain p k m h.1, retain-none p j m h.0, key.beq_iff j k)
