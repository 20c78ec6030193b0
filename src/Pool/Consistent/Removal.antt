-- ===== src/Pool/Consistent/Removal.antt =====
-- removeTx and the loops that call it.
use chain_master.Prelude.{
  ℕ, ◌≤◌, ◌≡◌, refl, sym, ap, subst, ◌∙◌, inl, inr, arith, Bool, true, false, Option, none, some,
  List, [], ◌∷◌, ◌==◌, if◌then◌else◌, Option-cases,
}
use mathlib.Core.Option.{some-injective}
use chain_master.Prelude.GoMap.{GoMap, lookup, values}
use chain_master.Pool.Tx.{Tx}
use chain_master.Pool.Lookup
use chain_master.Pool.Lookup.{TxLookup, remove-IsCounted}
use chain_master.Pool.State.{TxPool, sender_of}
use chain_master.Pool.Moves.{removed_priced, remove_listed, remove_tx, remove_txs}
use chain_master.Pool.Consistent.Tally.{tally}
use chain_master.Pool.Consistent.Indexed.{IsHashed, IsIndex, remove-IsIndex}
use chain_master.Pool.Consistent.Lists.{slot, IsConsistent}
use chain_master.Pool.Consistent.Remove.{Missing, Removed, remove_listed-Removed}

-- How a removal ends: in a consistent pool without the transaction, where no other appeared.
pub record Shrunk (p : TxPool) (result : Option TxPool) : Type 0 where
  pub pool : TxPool
  pub done : result ≡ some pool
  pub rest : IsConsistent pool
  pub fewer : (f : Tx → Bool) → tally f (values pool.all.all) ≤ tally f (values p.all.all)

remove_tx-absent :
    (p : TxPool) (hash : ℕ) (ob : Bool)
    → Lookup.get p.all hash ≡ none
    → remove_tx p hash ob ≡ some p
unfolding remove_tx
remove_tx-absent p hash ob e = rw (e, remove_tx) refl

remove_tx-present :
    (p : TxPool) (hash : ℕ) (ob : Bool) (tx : Tx) (all : TxLookup)
    → Lookup.get p.all hash ≡ some tx
    → Lookup.remove p.all hash ≡ some all
    → remove_tx p hash ob
      ≡ remove_listed
          (if ob then removed_priced 1 (record p { all = all }) else record p { all = all })
          (sender_of tx)
          tx
unfolding remove_tx
remove_tx-present p hash ob tx all e r = rw (e, r, remove_tx) refl

has_hash : ℕ → Tx → Bool
has_hash h t = t.hash == h

none-tally :
    (h : ℕ) (m : GoMap Tx) → IsHashed m → lookup h m ≡ none → tally (has_hash h) (values m) ≡ 0
unfolding has_hash
none-tally h [] k e = refl
none-tally h ((i, u) ∷ m) k e = ground (arith, k.0, none-tally h m k.1)

tally-none :
    (h : ℕ) (m : GoMap Tx) → IsHashed m → tally (has_hash h) (values m) ≡ 0 → lookup h m ≡ none
unfolding has_hash
tally-none h [] k e = refl
tally-none h ((i, u) ∷ m) k e = ground (arith, k.0, tally-none h m k.1)

-- A pool that only lost transactions has no new hash.
pub get-fewer :
    (h : ℕ) (all all' : TxLookup)
    → IsIndex all
    → IsIndex all'
    → ((f : Tx → Bool) → tally f (values all'.all) ≤ tally f (values all.all))
    → Lookup.get all h ≡ none
    → Lookup.get all' h ≡ none
unfolding Lookup.get
get-fewer h all all' x y le e =
    tally-none h all'.all y.hashed (omega (arith, le (has_hash h), none-tally h all.all x.hashed e))

removed-gone :
    (h : ℕ) (t : Tx) (all all' : TxLookup)
    → IsIndex all
    → Lookup.get all h ≡ some t
    → Lookup.remove all h ≡ some all'
    → Lookup.get all' h ≡ none
removed-gone h t all all' x e r =
    let (left, done, counts, slots, rest) = remove-IsCounted all t h x.counts e in
    let same : left ≡ all' = some-injective _ _ (sym done ∙ r) in
    subst (λ l. Lookup.get l h ≡ none) same (rw (rest h) (ground arith))

Missing-Removed :
    (p : TxPool) (tx : Tx) (all : TxLookup) (ob : Bool)
    → Missing tx all p.pending p.queue
    → Removed
        (record p { all = all })
        (remove_listed
          (if ob then removed_priced 1 (record p { all = all }) else record p { all = all })
          (sender_of tx)
          tx)
unfolding removed_priced
Missing-Removed p tx all false c = remove_listed-Removed (record p { all = all }) tx c
Missing-Removed p tx all true c =
    let q : TxPool = removed_priced 1 (record p { all = all }) in
    let r = remove_listed-Removed q tx c in
    record { pool = r.pool; done = r.done; rest = r.rest; same = r.same }

pub remove_tx-Shrunk :
    (p : TxPool) (hash : ℕ) (ob : Bool)
    → IsConsistent p
    → (r : Shrunk p (remove_tx p hash ob)) × (Lookup.get r.pool.all hash ≡ none)
remove_tx-Shrunk p hash ob c = elim (Option-cases (Lookup.get p.all hash)) [
  | inl gone ↦ (
    record { pool = p; done = remove_tx-absent p hash ob gone; rest = c; fewer = λ f. omega arith },
    gone,
  )
  | inr (tx, here) ↦
      let (all, removed, index, fewer) = remove-IsIndex p.all hash tx c.index here in
      let missing : Missing tx all p.pending p.queue = record {
        index = index;
        pending_lists = c.pending_lists;
        pending_distinct = c.pending_distinct;
        queue_lists = c.queue_lists;
        queue_distinct = c.queue_distinct;
        placed = λ f. omega (arith, c.placed f, fewer f);
        apart = λ a n. omega (arith, c.apart a n, fewer (slot a n));
      } in
      let r = Missing-Removed p tx all ob missing in
      (
        record {
          pool = r.pool;
          done = remove_tx-present p hash ob tx all here removed ∙ r.done;
          rest = r.rest;
          fewer = λ f. omega (arith, fewer f, ap (λ l. tally f (values l.all)) r.same);
        },
        ap (λ l. Lookup.get l hash) r.same ∙ removed-gone hash tx p.all all c.index here removed,
      )
]

pub remove_txs-Shrunk :
    (p : TxPool) (txs : List Tx) (ob : Bool) → IsConsistent p → Shrunk p (remove_txs p txs ob)
unfolding remove_txs
remove_txs-Shrunk p [] ob c = record { pool = p; done = refl; rest = c; fewer = λ f. omega arith }
remove_txs-Shrunk p (tx ∷ txs) ob c =
    let (r, gone) = remove_tx-Shrunk p tx.hash ob c in
    let s = remove_txs-Shrunk r.pool txs ob r.rest in
    record {
      pool = s.pool;
      done = rw r.done s.done;
      rest = s.rest;
      fewer = λ f. omega (arith, r.fewer f, s.fewer f);
    }
