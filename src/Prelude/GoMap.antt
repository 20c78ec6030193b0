-- ===== src/Prelude/GoMap.antt =====
-- A Go map with numbers as keys: an association list, in the order in which `range` visits it.
use Prim.Native.Nat.{ℕ, suc}
use mathlib.Core.Path.{◌≡◌, refl}
use mathlib.Core.List.{List, [], ◌∷◌}
use mathlib.Core.Option.{Option, none, some}
use mathlib.Core.Logic.{◌≢◌}
use native.Mathlib.Omega.{arith}
use chain_master.Prelude.Tests.{◌==◌, if◌then◌else◌}
use chain_master.Prelude.Lists.{length}

abbrev pub GoMap : Type 0 → Type 0
GoMap V = List (ℕ × V)

module _ {V : Type 0} where
  abbrev pub lookup : ℕ → GoMap V → Option V
  lookup k [] = none
  lookup k ((j, v) ∷ m) = if j == k then some v else lookup k m

  -- `m[k] = v`
  abbrev pub insert : ℕ → V → GoMap V → GoMap V
  insert key new [] = (key, new) ∷ []
  insert key new ((at, old) ∷ rest) =
      let others = insert key new rest in if at == key then (at, new) ∷ rest else (at, old) ∷ others

  -- `delete(m, k)`
  abbrev pub delete : ℕ → GoMap V → GoMap V
  delete k [] = []
  delete k ((j, w) ∷ m) = if j == k then m else (j, w) ∷ delete k m

  abbrev pub values : GoMap V → List V
  values [] = []
  values ((k, v) ∷ m) = v ∷ values m

  abbrev pub keys : GoMap V → List ℕ
  keys [] = []
  keys ((k, v) ∷ m) = k ∷ keys m

  -- No key is there twice.
  abbrev pub Distinct : GoMap V → Type 0
  Distinct [] = Unit
  Distinct ((k, v) ∷ m) = (lookup k m ≡ none) × Distinct m

  pub lookup-insert :
      (k j : ℕ) (v : V) (m : GoMap V)
      → lookup j (insert k v m) ≡ (if k == j then some v else lookup j m)
  lookup-insert k j v [] = refl
  lookup-insert k j v ((i, w) ∷ m) = ground (arith, lookup-insert k j v m)

  pub lookup-delete :
      (k j : ℕ) (m : GoMap V)
      → Distinct m
      → lookup j (delete k m) ≡ (if k == j then none else lookup j m)
  lookup-delete k j [] h = ground arith
  lookup-delete k j ((i, w) ∷ m) h = ground (arith, lookup-delete k j m h.1)

  pub insert-Distinct : (k : ℕ) (v : V) (m : GoMap V) → Distinct m → Distinct (insert k v m)
  insert-Distinct k v [] h = (refl, tt)
  insert-Distinct k v ((i, w) ∷ m) h =
      ground (arith, insert-Distinct k v m h.1, lookup-insert k i v m)

  pub delete-Distinct : (k : ℕ) (m : GoMap V) → Distinct m → Distinct (delete k m)
  delete-Distinct k [] h = tt
  delete-Distinct k ((i, w) ∷ m) h =
      ground (arith, delete-Distinct k m h.1, lookup-delete k i m h.1)

  pub length-delete :
      (k : ℕ) (m : GoMap V) → lookup k m ≢ none → length m ≡ suc (length (delete k m))
  length-delete k [] h = absurd (h refl)
  length-delete k ((i, w) ∷ m) h = ground (arith, length-delete k m)
