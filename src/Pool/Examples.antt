-- ===== src/Pool/Examples.antt =====
-- A pool with one queued transaction, a chain of a few blocks, and the theorems at them.
use chain_master.Prelude.{
  ℕ, ◌≤◌, ◌≡◌, refl, subst, arith, Bool, true, false, none, some, List, [], ◌∷◌, ◌==◌,
  if◌then◌else◌, length, ◌⊎◌,
}
use chain_master.Prelude.GoMap.{insert, values}
use chain_master.Core.Params.{mainnet, mainnet-IsValid}
use chain_master.Core.Intrinsic.{base_gas, non_zeros}
use chain_master.Pool.Tx.{Tx}
use chain_master.Pool.TxList.{store}
use chain_master.Pool.Noncer.{new_tx_noncer}
use chain_master.Pool.Lookup
use chain_master.Pool.Lookup.{TxLookup, new_tx_lookup, new_tx_lookup-IsCounted}
use chain_master.Pool.Accounts.{AccountSet, new_account_set, contains, has_address}
use chain_master.Pool.Priced.{new_priced_list}
use chain_master.Pool.State.{TxPool, HeadState, PoolError, default_config, validate_tx}
use chain_master.Pool.Moves.{Answer, list_of, remove_tx}
use chain_master.Pool.Admit.{add, Added, add_txs, merge_errs}
use chain_master.Pool.Reorg.{promote_executables, demote_unexecutables}
use chain_master.Pool.Reset.{
  Chain, Block, Walk, Reinjection, at_head, reset, walk, rewind_rem, rewind_add, lower_rem,
  lower_add, meet,
}
use chain_master.Pool.Schedule.{
  Request, Scheduler, Launch, new_scheduler, start_run, handle, serve, end_run,
}
use chain_master.Pool.Schedule.Served.{Serves, start_run-Serves}
use chain_master.Pool.Views.{TxStatus, status_of}
use chain_master.Pool.Views.Status.{status_of_lem}
use chain_master.Pool.Errors.{blanks, merge_errs-blanks}
use chain_master.Pool.Valid.{MayEnter, validate_tx_sound, validate_tx_complete}
use mathlib.Core.Option.{some-injective}
use chain_master.Pool.Depth.{depth}
use chain_master.Pool.Walk.{IsNumbered}
use chain_master.Pool.Walk.Descent.{Descent}
use chain_master.Pool.Walk.Meets.{Meeting, walk-Meeting}
use chain_master.Pool.Consistent.PutBack.{IsReorg, reset-PutsBack}
use chain_master.Pool.Consistent.Tally.{one, tally}
use chain_master.Pool.Consistent.Indexed.{add-IsIndex}
use chain_master.Pool.Consistent.Lists.{IsConsistent, slot, add-Stored}
use chain_master.Pool.Consistent.Promote.{promote_executables-IsConsistent}
use chain_master.Pool.Consistent.Demote.{demote_unexecutables-IsConsistent}
use chain_master.Pool.Consistent.Add.{Says, queue-fresh}
use chain_master.Pool.Consistent.Batch.{HaveWords}
use chain_master.Pool.Consistent.Kept.{
  remove_tx-IsConsistent, add-IsConsistent, add_txs-IsConsistent,
}
use chain_master.Pool.Consistent.Renewed.{Offered}

-- A transaction of the account 7 by its nonce and hash.
abbrev sent : ℕ → ℕ → Tx
sent nonce hash = record {
  nonce = nonce;
  gas_price = 5;
  gas = 21000;
  cost = 105000;
  is_negative = false;
  payload = [];
  creation = false;
  hash = hash;
  size = 110;
  sender = some 7;
}

abbrev rich : HeadState
rich = record { nonce = λ a. 0; balance = λ a. 1000000 }

abbrev empty_pool : TxPool
empty_pool = record {
  config = default_config;
  gas_price = 1;
  istanbul = true;
  state = rich;
  pending_nonces = new_tx_noncer rich.nonce;
  max_gas = 8000000;
  locals = new_account_set;
  journal = none;
  events = [];
  pending = [];
  queue = [];
  beats = [];
  all = new_tx_lookup;
  priced = new_priced_list;
}

empty_pool-IsConsistent : IsConsistent empty_pool
unfolding new_tx_lookup
empty_pool-IsConsistent = record {
  index = record { counts = new_tx_lookup-IsCounted; hashed = tt };
  pending_lists = tt;
  pending_distinct = tt;
  queue_lists = tt;
  queue_distinct = tt;
  placed = λ f. refl;
  apart = λ a n. omega arith;
}

abbrev waiting : Tx
waiting = sent 0 100

abbrev one_pool : TxPool
one_pool = record empty_pool {
  all = Lookup.add new_tx_lookup waiting;
  queue = insert 7 (store (list_of false none) waiting) [];
}

one_pool-IsConsistent : IsConsistent one_pool
unfolding new_tx_lookup Lookup.get
one_pool-IsConsistent =
    let (added, st) = add-Stored 7 [] tt tt waiting 10 refl (omega arith) refl in
    queue-fresh empty_pool-IsConsistent 7 waiting refl refl refl refl st

promote_executables-IsConsistent_example :
    (r : TxPool × List Tx) × (promote_executables one_pool (7 ∷ []) 3 ≡ some r) × IsConsistent r.0
promote_executables-IsConsistent_example =
    promote_executables-IsConsistent one_pool (7 ∷ []) 3 (omega arith) one_pool-IsConsistent

one_le : (b : Bool) → one b ≤ 1
one_le true = omega arith
one_le false = omega arith

-- A pool whose one pending transaction is beyond the next nonce.
abbrev gapped : Tx
gapped = sent 2 103

abbrev gapped_pool : TxPool
gapped_pool = record empty_pool {
  all = Lookup.add new_tx_lookup gapped;
  pending = insert 7 (store (list_of true none) gapped) [];
}

gapped_pool-IsConsistent : IsConsistent gapped_pool
unfolding new_tx_lookup Lookup.get
gapped_pool-IsConsistent =
    let (added, st) = add-Stored 7 [] tt tt gapped 10 refl (omega arith) refl in
    let (index, more) = add-IsIndex new_tx_lookup gapped empty_pool-IsConsistent.index refl in
    record {
      index = index;
      pending_lists = st.lists;
      pending_distinct = st.distinct;
      queue_lists = tt;
      queue_distinct = tt;
      placed = λ f. omega (arith, st.more f, more f);
      apart = λ a n. omega (arith, more (slot a n), one_le (slot a n gapped));
    }

demote_unexecutables-IsConsistent_example :
    (p : TxPool) × (demote_unexecutables gapped_pool ≡ some p) × IsConsistent p
demote_unexecutables-IsConsistent_example =
    demote_unexecutables-IsConsistent gapped_pool gapped_pool-IsConsistent

remove_tx-IsConsistent_example :
    (p : TxPool) × (remove_tx one_pool 100 true ≡ some p)
    × IsConsistent p
    × (Lookup.get p.all 100 ≡ none)
    × ((f : Tx → Bool) → tally f (values p.all.all) ≤ tally f (values one_pool.all.all))
remove_tx-IsConsistent_example = remove_tx-IsConsistent one_pool 100 true one_pool-IsConsistent

add-IsConsistent_example :
    (p : TxPool) × (answer : Answer) × (add mainnet one_pool (sent 0 101) false ≡ some (p, answer))
    × IsConsistent p
    × Says answer one_pool.all p.all (sent 0 101)
add-IsConsistent_example =
    add-IsConsistent mainnet one_pool (sent 0 101) false one_pool-IsConsistent (omega arith)

add_txs-IsConsistent_example :
    (done : Added) × (add_txs mainnet one_pool (waiting ∷ sent 1 102 ∷ []) false ≡ some done)
    × IsConsistent done.pool
    × (length done.errs ≡ 2)
add_txs-IsConsistent_example =
    add_txs-IsConsistent mainnet one_pool (waiting ∷ sent 1 102 ∷ []) false one_pool-IsConsistent
      (omega arith, (omega arith, tt))

merge_errs-blanks_example :
    merge_errs (none ∷ some PoolError.underpriced ∷ []) (blanks 2)
    ≡ some (some PoolError.underpriced ∷ none ∷ [])
merge_errs-blanks_example =
    merge_errs-blanks (none ∷ some PoolError.underpriced ∷ []) 2 (omega arith)

sent-MayEnter : MayEnter mainnet one_pool (sent 1 102) false 7
unfolding new_account_set contains has_address base_gas non_zeros
sent-MayEnter = record {
  signed = refl;
  small = omega arith;
  worth = refl;
  fits = omega arith;
  priced = refl;
  new = omega arith;
  funded = omega arith;
  bounded = omega arith;
  enough = omega arith;
}

validate_tx_complete_example : validate_tx mainnet one_pool (sent 1 102) false ≡ none
validate_tx_complete_example =
    validate_tx_complete mainnet mainnet-IsValid one_pool (sent 1 102) false 7 sent-MayEnter

sent_valid : validate_tx mainnet one_pool (sent 1 102) false ≡ none
sent_valid =
    validate_tx_complete mainnet mainnet-IsValid one_pool (sent 1 102) false 7 sent-MayEnter

validate_tx_sound_example : (from : ℕ) × MayEnter mainnet one_pool (sent 1 102) false from
validate_tx_sound_example =
    validate_tx_sound mainnet mainnet-IsValid one_pool (sent 1 102) false sent_valid

abbrev block_of : ℕ → ℕ → Block
block_of number hash = record {
  number = number;
  hash = hash;
  parent_hash = 40;
  root = 0;
  gas_limit = 8000000;
  txs = sent 0 hash ∷ [];
}

-- All blocks have the parent 40, and none has the last number.
abbrev branches : Chain
branches = record {
  get_block =
      λ hash number. if number == 18446744073709551615 then none else some (block_of number hash);
  state_at = λ root. some rich;
  is_istanbul = λ number. true;
  tx_difference = λ discarded included. discarded;
}

branches-IsNumbered : IsNumbered branches
branches-IsNumbered = record {
  numbered = λ hash number b e. ground (arith, e);
  bounded = λ hash. refl;
}

branches-down : (hash : ℕ) → Descent branches (block_of 5 hash) (block_of 4 40) (sent 0 hash ∷ [])
branches-down hash =
    Descent.down (block_of 5 hash) (block_of 4 40) (block_of 4 40) [] (sent 0 hash ∷ []) refl
      (Descent.here (block_of 4 40)) refl

walk-Meeting_example :
    (v : Walk) × (walk branches (block_of 5 50) (block_of 5 51) ≡ some v)
    × Meeting branches (block_of 5 50) (block_of 5 51) (block_of 4 40) v
walk-Meeting_example =
    walk-Meeting branches branches-IsNumbered (block_of 5 50) (block_of 5 51) (block_of 4 40)
      (sent 0 50 ∷ []) (sent 0 51 ∷ []) (omega arith) (omega arith) (branches-down 50)
      (branches-down 51)

abbrev put_back : Reinjection → List Tx
put_back Reinjection.returned = []
put_back Reinjection.crashed = []
put_back (Reinjection.found txs) = txs

fork-IsReorg :
    IsReorg branches (block_of 5 50) (block_of 5 51) (block_of 5 50) (block_of 5 51) (block_of 4 40)
unfolding depth
fork-IsReorg = record {
  other = λ e. omega (arith, e);
  shallow = omega arith;
  old_block = refl;
  new_block = refl;
  old_word = omega arith;
  new_word = omega arith;
  old_way = (sent 0 50 ∷ [], branches-down 50);
  new_way = (sent 0 51 ∷ [], branches-down 51);
}

fork_words :
    (v : Walk)
    → walk branches (block_of 5 50) (block_of 5 51) ≡ some v
    → HaveWords (branches.tx_difference v.discarded v.included)
unfolding walk rewind_rem rewind_add lower_rem lower_add meet
fork_words v e =
    subst (λ (w : Walk). HaveWords w.discarded) (some-injective _ _ e) (omega arith, tt)

reset-PutsBack_example :
    (v : Walk) × (q : TxPool) × Meeting branches (block_of 5 50) (block_of 5 51) (block_of 4 40) v
    × (reset branches mainnet one_pool (some (block_of 5 50)) (block_of 5 51)
        ≡ some (record q { istanbul = true }))
    × IsConsistent q
    × Offered mainnet
        (at_head branches rich (block_of 5 51) one_pool)
        (branches.tx_difference v.discarded v.included)
        q
reset-PutsBack_example =
    reset-PutsBack branches (block_of 5 50) (block_of 5 51) (block_of 5 50) (block_of 5 51) mainnet
      one_pool (block_of 4 40) rich branches-IsNumbered fork-IsReorg refl one_pool-IsConsistent
      fork_words

status_of_lem_example :
    (status_of one_pool 100 ≡ TxStatus.pending) ⊎ (status_of one_pool 100 ≡ TxStatus.queued)
unfolding new_tx_lookup Lookup.get Lookup.add
status_of_lem_example = status_of_lem one_pool 100 waiting one_pool-IsConsistent refl

-- A run is in progress.
abbrev busy_scheduler : Scheduler
busy_scheduler = record new_scheduler { running = some 4; next_done = 5 }

abbrev of_seven : AccountSet
of_seven = record { accounts = 7 ∷ []; cache = none }

abbrev served : Scheduler
served =
    serve (handle busy_scheduler (Request.promote of_seven)).0 (Request.queue_event waiting ∷ [])

start_run-Serves_example :
    (run : Launch) × ((start_run (end_run served)).1 ≡ some run)
    × (run.done ≡ 5)
    × Serves (Request.promote of_seven) (Request.queue_event waiting ∷ []) run
unfolding handle new_scheduler
start_run-Serves_example =
    start_run-Serves busy_scheduler 4 5 (Request.promote of_seven)
      (Request.queue_event waiting ∷ []) refl refl

depth_small : depth 70 5 ≡ 65
unfolding depth
depth_small = refl

-- Above 53 bits the depth is off.
depth_large : depth 9007199254741057 9007199254740992 ≡ 64
unfolding depth
depth_large = refl
