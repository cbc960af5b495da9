-- ===== src/Base/Assoc.antt =====
-- Go maps as association lists: the order of the list is the order in which a `range` loop meets the
-- keys, which Go leaves open. Keys are compared by an instance of `Eq`.
use Prim.Native.Nat.{ℕ}
use mathlib.Core.Path.{◌≡◌, refl, subst₂}
use mathlib.Core.Logic.{◌≢◌, ◌↔◌, inl, inr}
use mathlib.Core.Bool.{Bool, true, false}
use mathlib.Core.Option.{Option, none, some}
use mathlib.Core.List.{List, [], ◌∷◌}
use native.Mathlib.Omega.{arith}
use go_rcp.Base.Tests.{
  if◌then◌else◌, Bool-cases, bytes_eq, bytes_eq_refl, bytes_eq→eq, ==_iff, ◌==◌ as nat_beq,
}

pub record Eq {ℓ} (A : Type ℓ) : Type ℓ where
  pub beq : A → A → Bool
  pub beq_iff : (a b : A) → (beq a b ≡ true) ↔ (a ≡ b)

instance abbrev pub nat_eq : Eq ℕ
nat_eq = record { beq = nat_beq; beq_iff = ==_iff }

pub bytes_eq_iff : (xs ys : List ℕ) → (bytes_eq xs ys ≡ true) ↔ (xs ≡ ys)
bytes_eq_iff xs ys = (bytes_eq→eq xs ys, λ e. ground (arith, bytes_eq_refl xs, e))

instance abbrev pub bytes_instance : Eq (List ℕ)
bytes_instance = record { beq = bytes_eq; beq_iff = bytes_eq_iff }

module _ {ℓ κ} {K : Type ℓ} {V : Type κ} ⦃e : Eq K⦄ where
  unfoldable pub lookup : K → List (K × V) → Option V
  lookup k [] = none
  lookup k ((j, v) ∷ l) = if e.beq j k then some v else lookup k l

  -- `m[k] = v`
  unfoldable pub insert : K → V → List (K × V) → List (K × V)
  insert k v [] = (k, v) ∷ []
  insert k v ((j, w) ∷ l) = if e.beq j k then (k, v) ∷ l else (j, w) ∷ insert k v l

  -- `delete(m, k)`
  unfoldable pub delete : K → List (K × V) → List (K × V)
  delete k [] = []
  delete k ((j, w) ∷ l) = let rest = delete k l in if e.beq j k then rest else (j, w) ∷ rest

  pub lookup-insert :
      (k j : K) (v : V) (l : List (K × V))
      → lookup j (insert k v l) ≡ (if e.beq k j then some v else lookup j l)
  unfolding lookup insert
  lookup-insert k j v [] = refl
  lookup-insert k j v ((i, w) ∷ l) =
      ground (arith, e.beq_iff k j, e.beq_iff i k, e.beq_iff i j, lookup-insert k j v l)

  pub lookup-delete :
      (k j : K) (l : List (K × V))
      → lookup j (delete k l) ≡ (if e.beq k j then none else lookup j l)
  unfolding lookup delete
  lookup-delete k j [] = ground arith
  lookup-delete k j ((i, w) ∷ l) =
      ground (arith, e.beq_iff k j, e.beq_iff i k, e.beq_iff i j, lookup-delete k j l)

  pub lookup-insert_self : (k : K) (v : V) (l : List (K × V)) → lookup k (insert k v l) ≡ some v
  lookup-insert_self k v l = rw (lookup-insert, (e.beq_iff k k).1 refl)

  pub lookup-delete_self : (k : K) (l : List (K × V)) → lookup k (delete k l) ≡ none
  lookup-delete_self k l = rw (lookup-delete, (e.beq_iff k k).1 refl)

module _ {ℓ} {K : Type ℓ} ⦃e : Eq K⦄ where
  pub beq_refl : (k : K) → e.beq k k ≡ true
  beq_refl k = (e.beq_iff k k).1 refl

  pub ne→beq_false : (k j : K) → k ≢ j → e.beq k j ≡ false
  ne→beq_false k j h = ground (arith, e.beq_iff k j)

-- A property of every entry.
abbrev pub Every {ℓ κ μ} : {K : Type ℓ} {V : Type κ} → (K → V → Type μ) → List (K × V) → Type μ
Every P [] = Unit
Every P ((k, v) ∷ l) = P k v × Every P l

module _ {ℓ κ μ} {K : Type ℓ} {V : Type κ} ⦃e : Eq K⦄ (P : K → V → Type μ) where
  pub Every-insert : (k : K) (v : V) (l : List (K × V)) → P k v → Every P l → Every P (insert k v l)
  unfolding insert
  Every-insert k v [] p h = (p, tt)
  Every-insert k v ((j, w) ∷ l) p h = elim (Bool-cases (e.beq j k)) [
    | inl same ↦ rw same (p, h.1)
    | inr other ↦ rw other (h.0, Every-insert k v l p h.1)
  ]

  pub Every-delete : (k : K) (l : List (K × V)) → Every P l → Every P (delete k l)
  unfolding delete
  Every-delete k [] h = tt
  Every-delete k ((j, w) ∷ l) h = elim (Bool-cases (e.beq j k)) [
    | inl same ↦ rw same (Every-delete k l h.1)
    | inr other ↦ rw other (h.0, Every-delete k l h.1)
  ]

  -- At the entry that is found; keys that compare equal are equal.
  pub Every-lookup : (k : K) (v : V) (l : List (K × V)) → lookup k l ≡ some v → Every P l → P k v
  unfolding lookup
  Every-lookup k v [] h w = cc
  Every-lookup k v ((j, x) ∷ l) h w = elim (Bool-cases (e.beq j k)) [
    | inl same ↦
        let found : some x ≡ some v = rw same at h in
        let value : x ≡ v = cc in subst₂ P ((e.beq_iff j k).0 same) value w.0
    | inr other ↦ Every-lookup k v l (rw other at h) w.1
  ]

-- No key stands twice.
abbrev pub Unique {ℓ κ} : {K : Type ℓ} {V : Type κ} ⦃e : Eq K⦄ → List (K × V) → Type κ
Unique [] = Unit
Unique ((k, v) ∷ l) = (lookup k l ≡ none) × Unique l

module _ {ℓ κ} {K : Type ℓ} {V : Type κ} ⦃e : Eq K⦄ where
  pub Unique-insert : (k : K) (v : V) (l : List (K × V)) → Unique l → Unique (insert k v l)
  unfolding insert lookup
  Unique-insert k v [] u = (refl, tt)
  Unique-insert k v ((j, w) ∷ l) u = elim (Bool-cases (e.beq j k)) [
    | inl same ↦ let eq : j ≡ k = (e.beq_iff j k).0 same in rw same (rw eq at u.0, u.1)
    | inr other ↦ rw other (rw (lookup-insert, e-sym j k other) u.0, Unique-insert k v l u.1)
  ]
    where
      e-sym : (a b : K) → e.beq a b ≡ false → e.beq b a ≡ false
      e-sym a b h = ground (arith, e.beq_iff a b, e.beq_iff b a)

  pub Unique-delete : (k : K) (l : List (K × V)) → Unique l → Unique (delete k l)
  unfolding delete
  Unique-delete k [] u = tt
  Unique-delete k ((j, w) ∷ l) u = elim (Bool-cases (e.beq j k)) [
    | inl same ↦ rw same (Unique-delete k l u.1)
    | inr other ↦ rw other (gone j k l u.0, Unique-delete k l u.1)
  ]
    where
      gone : (a b : K) (l : List (K × V)) → lookup a l ≡ none → lookup a (delete b l) ≡ none
      gone a b l h = ground (arith, lookup-delete b a l)
