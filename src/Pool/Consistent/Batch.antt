-- ===== src/Pool/Consistent/Batch.antt =====
-- add with its checks, and the loop over a batch.
use chain_master.Prelude.{
  ℕ, ◌<◌, ◌≤◌, ◌≡◌, refl, ◌∙◌, inl, inr, arith, Bool, true, false, none, some, List, [], ◌∷◌,
  Option-cases, u64_mod, length,
}
use chain_master.Prelude.GoMap.{values}
use chain_master.Core.Params.{ProtocolParams}
use chain_master.Pool.Tx.{Tx}
use chain_master.Pool.Lookup
use chain_master.Pool.Lookup.{TxLookup}
use chain_master.Pool.Accounts.{AccountSet}
use chain_master.Pool.State.{TxPool, PoolError, validate_tx}
use chain_master.Pool.Moves.{Answer}
use chain_master.Pool.Admit.{make_room, add_if_room, add, error_of, mark_dirty, Added, add_loop}
use chain_master.Pool.Consistent.Tally.{tally}
use chain_master.Pool.Consistent.Lists.{IsConsistent}
use chain_master.Pool.Consistent.Removal.{get-fewer}
use chain_master.Pool.Consistent.Add.{Says, Settled}
use chain_master.Pool.Consistent.Room.{make_room-Room}
use chain_master.Pool.Consistent.Overlap.{add_valid-Settled}

valid-sender :
    (params : ProtocolParams) (p : TxPool) (tx : Tx) (local : Bool)
    → validate_tx params p tx local ≡ none
    → (a : ℕ) × (tx.sender ≡ some a)
unfolding validate_tx
valid-sender params p tx local e = elim (Option-cases tx.sender) [
  | inl nobody ↦ absurd (ground (arith, e, nobody))
  | inr known ↦ known
]

-- `add` with its checks in order.
add-known :
    (params : ProtocolParams) (p : TxPool) (tx t : Tx) (local : Bool)
    → Lookup.get p.all tx.hash ≡ some t
    → add params p tx local ≡ some (p, Answer.refused PoolError.already_known)
unfolding add
add-known params p tx t local e = rw (e, add) refl

add-invalid :
    (params : ProtocolParams) (p : TxPool) (tx : Tx) (local : Bool) (err : PoolError)
    → Lookup.get p.all tx.hash ≡ none
    → validate_tx params p tx local ≡ some err
    → add params p tx local ≡ some (p, Answer.refused err)
unfolding add
add-invalid params p tx local err e v = rw (e, v, add) refl

add-room :
    (params : ProtocolParams) (p q : TxPool) (tx : Tx) (local cheap : Bool)
    → Lookup.get p.all tx.hash ≡ none
    → validate_tx params p tx local ≡ none
    → make_room p tx local ≡ some (q, cheap)
    → add params p tx local ≡ add_if_room (q, cheap) tx local
unfolding add
add-room params p q tx local cheap e v r = rw (e, v, add, r) refl

-- What holds after room was made holds of the whole call.
room-Settled :
    (p : TxPool) (tx : Tx) (a : ℕ) (local : Bool)
    → IsConsistent p
    → Lookup.get p.all tx.hash ≡ none
    → tx.sender ≡ some a
    → tx.nonce < u64_mod
    → (q : TxPool) (cheap : Bool) → IsConsistent q
    → ((f : Tx → Bool) → tally f (values q.all.all) ≤ tally f (values p.all.all))
    → Settled p tx (add_if_room (q, cheap) tx local)
unfolding add_if_room
room-Settled p tx a local c new from word q true k fewer = record {
  pool = q;
  answer = Answer.refused PoolError.underpriced;
  done = refl;
  rest = k;
  says = fewer;
}
room-Settled p tx a local c new from word q false k fewer =
    let s =
      add_valid-Settled q tx a local k (get-fewer tx.hash p.all q.all c.index k.index fewer new)
        from word in
    record {
      pool = s.pool;
      answer = s.answer;
      done = s.done;
      rest = s.rest;
      says = said s.answer s.pool.all s.says;
    }
  where
    said :
        (answer : Answer) (after : TxLookup)
        → Says answer q.all after tx
        → Says answer p.all after tx
    said (Answer.refused e) after le = λ f. omega (arith, le f, fewer f)
    said (Answer.accepted replaced) after here = here

pub add-Settled :
    (params : ProtocolParams) (p : TxPool) (tx : Tx) (local : Bool)
    → IsConsistent p
    → tx.nonce < u64_mod
    → Settled p tx (add params p tx local)
add-Settled params p tx local c word = elim (Option-cases (Lookup.get p.all tx.hash)) [
  | inr (t, known) ↦ record {
    pool = p;
    answer = Answer.refused PoolError.already_known;
    done = add-known params p tx t local known;
    rest = c;
    says = λ f. omega arith;
  }
  | inl new ↦ elim (Option-cases (validate_tx params p tx local)) [
    | inr (err, invalid) ↦ record {
      pool = p;
      answer = Answer.refused err;
      done = add-invalid params p tx local err new invalid;
      rest = c;
      says = λ f. omega arith;
    }
    | inl valid ↦
        let (a, from) = valid-sender params p tx local valid in
        let r = make_room-Room p tx local c in
        let s = room-Settled p tx a local c new from word r.pool r.cheap r.rest r.fewer in
        record {
          pool = s.pool;
          answer = s.answer;
          done = add-room params p r.pool tx local r.cheap new valid r.done ∙ s.done;
          rest = s.rest;
          says = s.says;
        }
  ]
]

-- Every nonce of a batch is a word.
abbrev pub HaveWords : List Tx → Type 0
HaveWords [] = Unit
HaveWords (tx ∷ txs) = (tx.nonce < u64_mod) × HaveWords txs

-- A batch ends in a consistent pool, with one answer for each transaction.
pub add_loop-Consistent :
    (params : ProtocolParams) (p : TxPool) (txs : List Tx) (local : Bool) (dirty : AccountSet)
    → IsConsistent p
    → HaveWords txs
    → (done : Added) × (add_loop params p txs local dirty ≡ some done)
      × IsConsistent done.pool
      × (length done.errs ≡ length txs)
unfolding add_loop
add_loop-Consistent params p [] local dirty c words =
    (record { pool = p; errs = []; dirty = dirty }, refl, c, refl)
add_loop-Consistent params p (tx ∷ txs) local dirty c words =
    let s = add-Settled params p tx local c words.0 in
    let (rest, done, k, count) =
      add_loop-Consistent params s.pool txs local (mark_dirty s.answer tx dirty) s.rest words.1 in
    (
      record rest { errs = error_of s.answer ∷ rest.errs },
      rw (s.done, done) refl,
      k,
      omega (arith, count),
    )
