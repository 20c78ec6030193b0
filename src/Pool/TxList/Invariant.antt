-- ===== src/Pool/TxList/Invariant.antt =====
-- What a `txList` stands for, and the cut of a strict list.
use mathlib.Core.List.{Perm}
use chain_master.Prelude.{
  ℕ, ◌≤◌, ◌≡◌, refl, arith, Bool, true, false, some, List, [], ◌∷◌, if◌then◌else◌, length, subst,
}
use chain_master.Pool.Tx.{Tx}
use chain_master.Pool.SortedMap.{select}
use chain_master.Pool.SortedMap.Spec.{Ascends, upsert}
use chain_master.Pool.SortedMap.Invariant.{Represents, new_sorted_map-Represents}
use chain_master.Pool.SortedMap.Lowest.{reject}
use chain_master.Pool.SortedMap.Chosen.{filter-Represents}
use chain_master.Pool.TxList.{TxList, new_tx_list, is_above, drop_above}
use chain_master.Pool.TxList.Cut.{
  until, orphans, first_hit, until-reject, orphans-select, until-all, orphans-none,
}

-- No transaction costs more or takes more gas than the caps.
abbrev pub Within : ℕ → ℕ → List Tx → Type 0
Within costcap gascap [] = Unit
Within costcap gascap (t ∷ ts) = (t.cost ≤ costcap) × (t.gas ≤ gascap) × Within costcap gascap ts

-- The list `l` stands for the transactions `ts`, which are within its caps.
pub record IsList (l : TxList) (ts : List Tx) : Type 0 where
  pub txs : Represents l.txs ts
  pub within : Within l.costcap l.gascap ts

-- A new list stands for no transactions.
pub new_tx_list-IsList : (strict : Bool) → IsList (new_tx_list strict) []
unfolding new_tx_list
new_tx_list-IsList strict = record { txs = new_sorted_map-Represents; within = tt }

pub Within-le : (c c' g g' : ℕ) (ts : List Tx) → c ≤ c' → g ≤ g' → Within c g ts → Within c' g' ts
Within-le c c' g g' [] h k w = tt
Within-le c c' g g' (t ∷ ts) h k w =
    (omega (arith, w.0), omega (arith, w.1), Within-le c c' g g' ts h k w.2)

pub Within-upsert :
    (c g : ℕ) (t : Tx) (ts : List Tx)
    → t.cost ≤ c
    → t.gas ≤ g
    → Within c g ts
    → Within c g (upsert t ts)
Within-upsert c g t [] h k w = (h, k, tt)
Within-upsert c g t (x ∷ ts) h k w = ground (arith, Within-upsert c g t ts h k w.2)

pub Within-reject :
    (f : Tx → Bool) (c g : ℕ) (ts : List Tx) → Within c g ts → Within c g (reject f ts)
Within-reject f c g [] w = tt
Within-reject f c g (t ∷ ts) w = ground (arith, Within-reject f c g ts w.2)

pub Within-until :
    (f : Tx → Bool) (c g : ℕ) (ts : List Tx) → Within c g ts → Within c g (until f ts)
Within-until f c g [] w = tt
Within-until f c g (t ∷ ts) w = ground (arith, Within-until f c g ts w.2)

-- What `drop_above` leaves of a list from which the transactions that pass a test were taken.
pub drop_above-IsList :
    (f : Tx → Bool) (l : TxList) (n : ℕ) (ts : List Tx)
    → Ascends ts
    → first_hit f ts ≡ some n
    → IsList l (reject f ts)
    → let (invalids, l') = drop_above l n in Perm invalids (orphans f ts) × IsList l' (until f ts)
unfolding drop_above
drop_above-IsList f l n ts a e s =
    let (dropped, kept) = filter-Represents (is_above n) l.txs (reject f ts) s.txs in
    let whole = until-reject f n ts a e in
    (
      subst (Perm _) (orphans-select f n ts a e) dropped,
      record {
        txs = subst (Represents _) whole kept;
        within =
            subst (Within l.costcap l.gascap) whole
              (Within-reject (is_above n) _ _ (reject f ts) s.within);
      },
    )

-- What a strict list loses beside the transactions that pass the test.
abbrev pub lost : Bool → (Tx → Bool) → List Tx → List Tx
lost strict f ts = if strict then orphans f ts else []

-- What is left of a list: a strict list ends where the first one that passes the test was.
abbrev pub left : Bool → (Tx → Bool) → List Tx → List Tx
left strict f ts = if strict then until f ts else reject f ts

pub lost-none :
    (strict : Bool) (f : Tx → Bool) (ts : List Tx)
    → length (select f ts) ≡ 0
    → lost strict f ts ≡ []
lost-none false f ts e = refl
lost-none true f ts e = orphans-none f ts e

pub left-none :
    (strict : Bool) (f : Tx → Bool) (ts : List Tx)
    → length (select f ts) ≡ 0
    → left strict f ts ≡ reject f ts
left-none false f ts e = refl
left-none true f ts e = until-all f ts e
