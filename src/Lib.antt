-- ===== src/Lib.antt =====
-- Verification of the execution core, the transaction pool, the chain of headers and the fork
-- identifiers of the node.
--
-- The program. A block is run by `Process` (state_processor.go), which calls `ApplyTransaction` for
-- each transaction; that calls `ApplyMessage` (state_transition.go), which buys gas from the sender
-- and from the block's gas pool (gaspool.go), pays the intrinsic gas, runs the EVM, refunds what is
-- left and pays the miner. Transactions wait in the pool, one list for an account (tx_list.go), over
-- a map by nonce with a heap and a cached list; the pending nonces are read through tx_noncer.go.
-- The pool itself (tx_pool.go) checks a transaction, queues it, promotes what is executable to the
-- pending lists, demotes what is not any more, drops what is too cheap or too much, and starts again
-- from the new head of the chain.
-- Headers are checked, stored and linked to the canonical chain by headerchain.go, over the accessors
-- of the database.
-- Peers compare fork identifiers (forkid.go) before they exchange blocks and transactions.
--
-- Where each part is.
--   Core.Run           errors, panics and results of fallible code; error.go
--   Core.Params        the protocol constants that the code reads, with the main net's values
--   Core.GasPool       gaspool.go: AddGas, SubGas
--   Core.Intrinsic     state_transition.go: IntrinsicGas
--   Core.World         the state database and the EVM, as a record of operations with named laws
--   Core.Transition    state_transition.go: StateTransition and ApplyMessage; evm.go: CanTransfer,
--                      Transfer. Children: Gas, Money and Errors prove its properties
--   Core.Processor     state_processor.go: Process, ApplyTransaction
--   Core.GasLimit      block_validator.go: CalcGasLimit
--   Heap               container/heap on lists, with the heap invariant below it
--   Pool.SortedMap     tx_list.go: txSortedMap
--   Pool.TxList        tx_list.go: txList
--   Pool.Lookup        tx_pool.go: txLookup, numSlots
--   Pool.Noncer        tx_noncer.go: txNoncer
--   Pool.Accounts      tx_pool.go: accountSet
--   Pool.Priced        tx_list.go: priceHeap, txPricedList
--   Pool.State         tx_pool.go: TxPoolConfig, TxPool, validateTx, stats
--   Pool.Moves         tx_pool.go: enqueueTx, promoteTx, removeTx
--   Pool.Admit         tx_pool.go: add, addTxs, SetGasPrice
--   Pool.Reorg         tx_pool.go: promoteExecutables, demoteUnexecutables
--   Pool.Truncate      tx_pool.go: truncatePending, truncateQueue
--   Pool.Reset         tx_pool.go: reset, runReorg; Pool.Events the events of runReorg
--   Pool.Schedule      tx_pool.go: scheduleReorgLoop
--   Pool.Journal       tx_journal.go
--   Pool.Views         tx_pool.go: Status, Has, Content, Pending, local
--   Pool.Consistent    the invariant that ties the lookup to the lists, kept by the operations. Its
--                      children count transactions by a test (Tally), in the lookup (Indexed) and in
--                      the lists (Owned, Changes, Lists), and follow the moves between them
--   Pool.Valid         the checks of validateTx and sanitize against what they promise
--   Pool.Depth         the depth of a reorganisation in reset, on floats
--   Pool.Walk          the walk of reset against descents by parent hashes; Pool.Errors the errors of
--                      addTxs
--   ForkId             forkid.go: gatherForks, newID, newFilter
--   Chain.Store        accessors_chain.go: canonical hashes, headers, their numbers and difficulties
--   Chain.Lru          the cache of golang-lru, a record of operations with named laws
--   Chain.Headers      headerchain.go: WriteHeader, GetTd, GetHeader, HasHeader, GetBlockNumber. Its
--                      children prove that the chain stays linked: what holds between two calls
--                      (Invariant), the reads (Reads), the markers of a reorganisation (Markers,
--                      Linking), a new header (Arrival), and the choice of the head (Choice, Ends, Whole)
--   Chain.Ancestors    headerchain.go: GetAncestor, GetBlockHashesFromHash, GetHeaderByHash, GetTdByHash,
--                      GetHeaderByNumber, against the ancestors in the store (Generations)
--   Chain.Import       headerchain.go: ValidateHeaderChain, InsertHeaderChain; blockchain.go:
--                      InsertHeaderChain
--   Chain.Rewind       headerchain.go: SetHead, NewHeaderChain, SetCurrentHeader, SetGenesis
--   Prelude            lists, tests, Go slices and Go maps
--
-- Choices. Machine words are numbers with the wrap-around `% 2 ^ 64` written out; amounts of money
-- (big.Int) are numbers, since the code keeps them non-negative where the laws of World hold. What
-- packages outside the repository do is a parameter: World (core/state, core/vm), BlockContext (the
-- signer, the consensus engine), ProtocolParams (params), and a transaction is the record of what
-- its accessors return. A Go map is an association list in the order in which `range` visits it,
-- and the theorems hold for every such order. `sort.Sort` is an insertion sort. A loop that pops a
-- heap recurses on the length of the heap, a loop over positions on their number; each round uses
-- one, so no loop stops early. The loops of reset go down by one block in a round, and those of
-- truncatePending take a transaction of the last offender in a round, so that the rounds are
-- bounded by the size of its list. The depth of a reorganisation is rounded as `float64` rounds it,
-- and a `uint64` that is converted to `int` panics in Cap where it would be negative. A run-time
-- panic of the pool, such as a nil transaction taken from the lookup, is `none`. The database of
-- headers is a map for each kind of key, with the values that RLP encodes, and nothing is frozen; a
-- batch is written at once, and writes do not fail. The rounds of WriteHeader that drop canonical
-- hashes are one more than the number of the head, those that link ancestors as many as the number
-- of the header, and those of SetHead as many as the number of the head: a round goes up or down by
-- one. A nil header or difficulty that is read is a result of its own. A lock that is held for a
-- whole operation makes that operation one step.
--
-- Not modelled: the timers, shutdown, feeds and metrics of the pool; the chain of blocks but for
-- the import of headers, the indexer, bodies and receipts in the database, the freezer, the ABI,
-- the assembler and the encodings, so far; input and output, the wiring of the node, generated code
-- and the copies of other projects' code.
pub mod Prelude
pub mod Heap
pub mod Core
pub mod Chain
pub mod Pool
pub mod ForkId
