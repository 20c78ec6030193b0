-- ===== src/Heap.antt =====
-- container/heap of the Go library, as the transaction pool uses it, over slices that grow by
-- `append` and whose `Less` is a strict weak order.
pub mod Order
pub mod Down
pub mod Up
pub mod Ops
pub mod Remove
use chain_master.Prelude.{
  ℕ, zero, suc, ◌+◌, ◌-◌, ◌*◌, ◌/◌, Bool, true, false, not, ◌&&◌, ◌||◌, Option, none, some, List,
  [], ◌∷◌, ◌++◌, ltb, leb, ◌==◌, if◌then◌else◌, length, get_elem?, take,
}
use chain_master.Prelude.Slices.{swap}

module _ {A : Type 0} (less : A → A → Bool) where
  -- `Less` on optional entries, with a missing one above all others.
  abbrev pub less? : Option A → Option A → Bool
  less? none y = false
  less? (some x) none = true
  less? (some x) (some y) = less x y

  -- `h.Less(i, j)`
  abbrev pub less_at : List A → ℕ → ℕ → Bool
  less_at a i j = less? (get_elem? a i) (get_elem? a j)

  -- `up`, on the rounds left: each round halves the index.
  pub up_loop : ℕ → List A → ℕ → List A
  up_loop zero a j = a
  up_loop (suc k) a j =
      let i = (j - 1) / 2 in
      elim (i == j || not (less_at a j i)) [ true ↦ a | false ↦ up_loop k (swap a i j) i ]

  unfoldable pub up : List A → ℕ → List A
  unfolding up_loop
  up a j = up_loop (suc j) a j

  -- The child that `down` compares with: the smaller one.
  pub child : List A → ℕ → ℕ → ℕ
  child a i n = let j1 = 2 * i + 1 in if ltb (j1 + 1) n && less_at a (j1 + 1) j1 then j1 + 1 else j1

  -- The loop of `down` on the rounds left; the result is the slice and the last index.
  pub down_loop : ℕ → List A → ℕ → ℕ → List A × ℕ
  unfolding child
  down_loop zero a i n = (a, i)
  down_loop (suc k) a i n =
      let j = child a i n in
      elim (leb n (2 * i + 1) || not (less_at a j i)) [
        | true ↦ (a, i)
        | false ↦ down_loop k (swap a i j) j n
      ]

  -- `down`, with whether the entry has moved.
  unfoldable pub down : List A → ℕ → ℕ → List A × Bool
  unfolding down_loop
  down a i0 n = let (b, i) = down_loop (suc n) a i0 n in (b, ltb i0 i)

  pub init_loop : ℕ → List A → List A
  unfolding down
  init_loop zero a = a
  init_loop (suc i) a = init_loop i (down a i (length a)).0

  unfoldable pub init : List A → List A
  unfolding init_loop
  init a = init_loop (length a / 2) a

  unfoldable pub push : List A → A → List A
  unfolding up
  push a x = up (a ++ x ∷ []) (length a)

  -- `none` is the panic on an empty heap.
  unfoldable pub pop : List A → Option A × List A
  unfolding down
  pop a =
      let n = length a - 1 in let (b, moved) = down (swap a 0 n) 0 n in (get_elem? b n, take n b)

  -- `heap.Remove`, whose result the pool drops.
  unfoldable pub remove : List A → ℕ → List A
  unfolding down up
  remove a i =
      let n = length a - 1 in
      let (b, moved) = down (swap a i n) i n in
      take n (if n == i then a else if moved then b else up b i)
