-- ===== src/Pool/Consistent/Compose.antt =====
-- Chains of changes to a list, and what they do to the pool.
use chain_master.Prelude.{ℕ, ◌≡◌, arith, Bool, true, false, List, [], ◌∷◌, ◌++◌}
use chain_master.Prelude.GoMap.{GoMap}
use chain_master.Pool.Tx.{Tx}
use chain_master.Pool.TxList.{TxList}
use chain_master.Pool.Lookup.{TxLookup}
use chain_master.Pool.Consistent.Tally.{tally, tally-append}
use chain_master.Pool.Consistent.Owned.{OwnedBy, OwnList, Split}
use chain_master.Pool.Consistent.Lists.{Parts, Gave}

pub OwnedBy-append : (a : ℕ) (xs ys : List Tx) → OwnedBy a xs → OwnedBy a ys → OwnedBy a (xs ++ ys)
OwnedBy-append a [] ys o q = q
OwnedBy-append a (x ∷ xs) ys o q = (o.0, o.1, OwnedBy-append a xs ys o.2 q)

-- A list that nothing was taken from.
pub Split-refl :
    {s : Bool} {a : ℕ} {l : TxList} {ts : List Tx} → OwnList s a l ts → Split s a l [] l
Split-refl {ts = ts} o = record { rest = ts; kept = o; moved = λ f. omega arith; mine = tt }

pub Split-trans :
    {s : Bool} {a : ℕ} {l l' l'' : TxList} {out out' : List Tx}
    → Split s a l out l'
    → Split s a l' out' l''
    → Split s a l (out ++ out') l''
Split-trans {a = a} {out = out} {out' = out'} p q = record {
  rest = q.rest;
  kept = q.kept;
  moved = λ f. omega (arith, p.moved f, q.moved f, tally-append f out out');
  mine = OwnedBy-append a out out' p.mine q.mine;
}

module _ {all : TxLookup} {pending queue : GoMap TxList} where
  -- Only the number of the transactions on their way matters.
  pub Parts-cong :
      (transit transit' : List Tx)
      → ((f : Tx → Bool) → tally f transit ≡ tally f transit')
      → Parts transit all pending queue
      → Parts transit' all pending queue
  Parts-cong transit transit' e c = record {
    index = c.index;
    pending_lists = c.pending_lists;
    pending_distinct = c.pending_distinct;
    queue_lists = c.queue_lists;
    queue_distinct = c.queue_distinct;
    placed = λ f. omega (arith, c.placed f, e f);
    apart = c.apart;
  }

  -- What the queue gives up is on its way.
  pub queue-Gave :
      {m : GoMap TxList} (transit out : List Tx)
      → Parts transit all pending queue
      → Gave false out queue m
      → Parts (out ++ transit) all pending m
  queue-Gave transit out c g = record {
    index = c.index;
    pending_lists = c.pending_lists;
    pending_distinct = c.pending_distinct;
    queue_lists = g.lists;
    queue_distinct = g.distinct;
    placed = λ f. omega (arith, c.placed f, g.fewer f, tally-append f out transit);
    apart = c.apart;
  }

  pub pending-Gave :
      {m : GoMap TxList} (transit out : List Tx)
      → Parts transit all pending queue
      → Gave true out pending m
      → Parts (out ++ transit) all m queue
  pending-Gave transit out c g = record {
    index = c.index;
    pending_lists = g.lists;
    pending_distinct = g.distinct;
    queue_lists = c.queue_lists;
    queue_distinct = c.queue_distinct;
    placed = λ f. omega (arith, c.placed f, g.fewer f, tally-append f out transit);
    apart = c.apart;
  }
