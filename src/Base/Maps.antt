-- ===== src/Base/Maps.antt =====
-- Go maps with strings as keys: association lists, each key at most once. A string is its octets.
use go_iec.Base.Tests.{equal_bytes, equal_bytes→eq, if◌then◌else◌, Bool-cases}
use Prim.Native.Nat.{ℕ}
use go_iec.Base.Lists.{All}
use mathlib.Core.Path.{◌≡◌, refl, sym}
use mathlib.Core.Logic.{inl, inr}
use mathlib.Core.Bool.{true}
use mathlib.Core.List.{List, [], ◌∷◌}
use mathlib.Core.Option.{Option, none, some}
use native.Mathlib.Omega.{arith}

module _ {V : Type 0} where
  unfoldable pub lookup : List ℕ → List (List ℕ × V) → Option V
  lookup k [] = none
  lookup k ((j, v) ∷ m) = if equal_bytes j k then some v else lookup k m

  unfoldable pub insert : List ℕ → V → List (List ℕ × V) → List (List ℕ × V)
  insert k v [] = (k, v) ∷ []
  insert k v ((j, w) ∷ m) = if equal_bytes j k then (k, v) ∷ m else (j, w) ∷ insert k v m

  unfoldable pub delete : List ℕ → List (List ℕ × V) → List (List ℕ × V)
  delete k [] = []
  delete k ((j, w) ∷ m) = let rest = delete k m in if equal_bytes j k then rest else (j, w) ∷ rest

equal_bytes_comm : (xs ys : List ℕ) → equal_bytes xs ys ≡ equal_bytes ys xs
unfolding equal_bytes
equal_bytes_comm [] [] = refl
equal_bytes_comm [] (y ∷ ys) = refl
equal_bytes_comm (x ∷ xs) [] = refl
equal_bytes_comm (x ∷ xs) (y ∷ ys) = ground (arith, equal_bytes_comm xs ys)

-- Two keys that are both another one are equal.
both : (i k j : List ℕ) → equal_bytes i k ≡ true → equal_bytes i j ≡ equal_bytes k j
both i k j h = rw (equal_bytes→eq i k h)

module _ {V : Type 0} where
  pub lookup-insert :
      (k j : List ℕ) (v : V) (m : List (List ℕ × V))
      → lookup j (insert k v m) ≡ (if equal_bytes k j then some v else lookup j m)
  unfolding lookup insert
  lookup-insert k j v [] = refl
  lookup-insert k j v ((i, w) ∷ m) = elim (Bool-cases (equal_bytes i k)) [
    | inl e ↦ ground (arith, both i k j e)
    | inr e ↦ elim (Bool-cases (equal_bytes i j)) [
      | inl f ↦ rw (e, f, sym (equal_bytes_comm j k), sym (both i j k f), e)
      | inr f ↦ rw (e, f, lookup-insert k j v m)
    ]
  ]

  pub lookup-delete :
      (k j : List ℕ) (m : List (List ℕ × V))
      → lookup j (delete k m) ≡ (if equal_bytes k j then none else lookup j m)
  unfolding lookup delete
  lookup-delete k j [] = ground arith
  lookup-delete k j ((i, w) ∷ m) = elim (Bool-cases (equal_bytes i k)) [
    | inl e ↦ ground (arith, both i k j e, lookup-delete k j m)
    | inr e ↦ elim (Bool-cases (equal_bytes i j)) [
      | inl f ↦ rw (e, f, sym (equal_bytes_comm j k), sym (both i j k f), e)
      | inr f ↦ rw (e, f, lookup-delete k j m)
    ]
  ]

-- What holds for every entry.
module _ {V : Type 0} (P : List ℕ × V → Type 0) where
  pub All-insert :
      (k : List ℕ) (v : V) (m : List (List ℕ × V)) → P (k, v) → All P m → All P (insert k v m)
  unfolding insert
  All-insert k v [] h all = (h, tt)
  All-insert k v ((i, w) ∷ m) h all = elim (Bool-cases (equal_bytes i k)) [
    | inl e ↦ rw e (h, all.1)
    | inr e ↦ rw e (all.0, All-insert k v m h all.1)
  ]

  pub All-delete : (k : List ℕ) (m : List (List ℕ × V)) → All P m → All P (delete k m)
  unfolding delete
  All-delete k [] all = tt
  All-delete k ((i, w) ∷ m) all = elim (Bool-cases (equal_bytes i k)) [
    | inl e ↦ rw e (All-delete k m all.1)
    | inr e ↦ rw e (all.0, All-delete k m all.1)
  ]

  pub All-lookup :
      (k : List ℕ) (v : V) (m : List (List ℕ × V)) → All P m → lookup k m ≡ some v → P (k, v)
  unfolding lookup
  All-lookup k v [] all h = cc
  All-lookup k v ((i, w) ∷ m) all h = elim (Bool-cases (equal_bytes i k)) [
    | inl e ↦
        let key : i ≡ k = equal_bytes→eq i k e in
        let found : some w ≡ some v = rw e at h in
        let value : w ≡ v = cc in rw (← key, ← value) all.0
    | inr e ↦ All-lookup k v m all.1 (rw e at h)
  ]
