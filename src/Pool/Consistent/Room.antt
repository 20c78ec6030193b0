-- ===== src/Pool/Consistent/Room.antt =====
-- The part of add that makes room in a full pool.
use chain_master.Prelude.{
  ◌+◌, ◌≤◌, ◌≡◌, refl, ap, inl, inr, arith, Bool, true, false, Option, some, if◌then◌else◌,
  Bool-cases, u64_mod, leb, ◌%◌,
}
use chain_master.Prelude.GoMap.{values}
use chain_master.Pool.Tx.{Tx}
use chain_master.Pool.Lookup
use chain_master.Pool.Lookup.{TxLookup}
use chain_master.Pool.Priced
use chain_master.Pool.Priced.{PricedList}
use chain_master.Pool.State.{TxPool}
use chain_master.Pool.Moves.{remove_txs}
use chain_master.Pool.Admit.{missing_slots, make_room}
use chain_master.Pool.Consistent.Tally.{tally}
use chain_master.Pool.Consistent.Lists.{IsConsistent}
use chain_master.Pool.Consistent.Removal.{remove_txs-Shrunk}

-- The test for a full pool in `make_room`, and the comparison with the cheapest transaction.
unfoldable is_full : TxPool → Bool
is_full p = leb ((p.config.global_slots + p.config.global_queue) % u64_mod) (Lookup.count p.all)

unfoldable compared : TxPool → Tx → Bool → Bool × PricedList
compared p tx local =
    if local then (false, p.priced) else Priced.underpriced p.priced p.all tx p.locals

-- The pool after room was made, with whether the transaction is too cheap.
pub record Room (p : TxPool) (result : Option (TxPool × Bool)) : Type 0 where
  pub pool : TxPool
  pub cheap : Bool
  pub done : result ≡ some (pool, cheap)
  pub rest : IsConsistent pool
  pub fewer : (f : Tx → Bool) → tally f (values pool.all.all) ≤ tally f (values p.all.all)

make_room-enough :
    (p : TxPool) (tx : Tx) (local : Bool)
    → is_full p ≡ false
    → make_room p tx local ≡ some (p, false)
unfolding make_room is_full
make_room-enough p tx local e = rw e refl

make_room-cheap :
    (p : TxPool) (tx : Tx) (local : Bool) (priced : PricedList)
    → is_full p ≡ true
    → compared p tx local ≡ (true, priced)
    → make_room p tx local ≡ some (record p { priced = priced }, true)
unfolding make_room is_full compared
make_room-cheap p tx local priced e c = rw (e, c) refl

make_room-dear :
    (p : TxPool) (tx : Tx) (local : Bool) (priced : PricedList)
    → is_full p ≡ true
    → compared p tx local ≡ (false, priced)
    → let (drop, rest) = Priced.discard priced p.all (missing_slots p tx) p.locals in
      (q : TxPool)
      → remove_txs (record p { priced = rest }) drop false ≡ some q
      → make_room p tx local ≡ some (q, false)
unfolding make_room is_full compared
make_room-dear p tx local priced e c q r = rw (e, c, r) refl

pub make_room-Room :
    (p : TxPool) (tx : Tx) (local : Bool) → IsConsistent p → Room p (make_room p tx local)
make_room-Room p tx local c = elim (Bool-cases (is_full p)) [
  | inr enough ↦ record {
    pool = p;
    cheap = false;
    done = make_room-enough p tx local enough;
    rest = c;
    fewer = λ f. omega arith;
  }
  | inl full ↦
      let priced = (compared p tx local).1 in
      elim (Bool-cases (compared p tx local).0) [
        | inl cheap ↦ record {
          pool = record p { priced = priced };
          cheap = true;
          done = make_room-cheap p tx local priced full (ap (λ b. (b, priced)) cheap);
          rest = c;
          fewer = λ f. omega arith;
        }
        | inr dear ↦
            let (drop, rest) = Priced.discard priced p.all (missing_slots p tx) p.locals in
            let r = remove_txs-Shrunk (record p { priced = rest }) drop false c in
            record {
              pool = r.pool;
              cheap = false;
              done =
                  make_room-dear p tx local priced full (ap (λ b. (b, priced)) dear) r.pool r.done;
              rest = r.rest;
              fewer = r.fewer;
            }
      ]
]
