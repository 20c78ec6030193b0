-- ===== src/Pool/Journal.antt =====
-- tx_journal.go: the file of local transactions. The package rlp is a parameter, and which calls of
-- the operating system fail is an argument.
pub mod Rotated
mod Tests
use mathlib.Core.Option
use chain_master.Prelude.{
  ℕ, zero, suc, ◌+◌, Bool, true, false, Option, none, some, List, [], ◌∷◌, ◌++◌, ltb, if◌then◌else◌,
  length,
}
use chain_master.Prelude.GoMap.{GoMap}
use chain_master.Pool.Tx.{Tx}

-- What `stream.Decode` finds at the front of the input: a transaction with the rest, or an error.
pub data Decoded : Type 0 where
  eof malformed : Decoded
  item : Tx → List ℕ → Decoded

-- `rlp.Encode` and `stream.Decode` on transactions.
pub record Rlp : Type 0 where
  pub encode : Tx → List ℕ
  pub decode : List ℕ → Decoded

pub data Writer : Type 0 where
  -- nil, the sink that drops everything, and the journal opened for appending.
  closed dev_null appending : Writer

pub data JournalError : Type 0 where
  no_active_journal open_failed decode_failed close_failed write_failed rename_failed : JournalError

-- The journal with the content of its file, if that exists.
pub record TxJournal : Type 0 where
  pub file : Option (List ℕ)
  pub writer : Writer

-- The calls that fail.
pub record Faults : Type 0 where
  pub fail_open : Bool
  pub fail_close : Bool
  pub fail_create : Bool
  pub fail_write : Bool
  pub fail_rename : Bool
  pub fail_reopen : Bool

abbrev pub no_faults : Faults
no_faults = record {
  fail_open = false;
  fail_close = false;
  fail_create = false;
  fail_write = false;
  fail_rename = false;
  fail_reopen = false;
}

unfoldable pub new_tx_journal : Option (List ℕ) → TxJournal
new_tx_journal file = record { file = file; writer = Writer.closed }

module _ (rlp : Rlp) where
  unfoldable pub encode_txs : List Tx → List ℕ
  encode_txs [] = []
  encode_txs (tx ∷ txs) = rlp.encode tx ++ encode_txs txs

  unfoldable pub encode_all : GoMap (List Tx) → List ℕ
  encode_all [] = []
  encode_all ((addr, txs) ∷ all) = encode_txs txs ++ encode_all all

  unfoldable pub insert : Faults → TxJournal → Tx → TxJournal × Option JournalError
  insert faults journal tx = elim journal.writer [
    | closed ↦ (journal, some JournalError.no_active_journal)
    | dev_null ↦ (journal, none)
    | appending ↦ if faults.fail_write then (journal, some JournalError.write_failed) else (
      record journal { file = Option.map (λ bytes. bytes ++ rlp.encode tx) journal.file },
      none,
    )
  ]

  -- The part of `rotate` after the old writer is closed.
  unfoldable pub replace_file :
      Faults → TxJournal → GoMap (List Tx) → TxJournal × Option JournalError
  replace_file faults journal all =
      if faults.fail_create
      then (journal, some JournalError.open_failed)
      else if faults.fail_write
      then (journal, some JournalError.write_failed)
      else if faults.fail_rename
      then (journal, some JournalError.rename_failed)
      else if faults.fail_reopen
      then (record journal { file = some (encode_all all) }, some JournalError.open_failed)
      else (record { file = some (encode_all all); writer = Writer.appending }, none)

  unfoldable pub rotate : Faults → TxJournal → GoMap (List Tx) → TxJournal × Option JournalError
  rotate faults journal all = elim journal.writer [
    | closed ↦ replace_file faults journal all
    | dev_null ↦ replace_file faults (record journal { writer = Writer.closed }) all
    | appending ↦
        if faults.fail_close
        then (journal, some JournalError.close_failed)
        else replace_file faults (record journal { writer = Writer.closed }) all
  ]

  module _ {S : Type 0} (add : S → List Tx → S) where
    -- The last batch, if it is not empty.
    unfoldable pub load_rest : List Tx → S → S
    load_rest [] s = s
    load_rest (tx ∷ batch) s = add s (tx ∷ batch)

    -- The loop of `load`; a transaction has at least one byte, so the number of bytes is enough.
    unfoldable pub load_loop : ℕ → List ℕ → List Tx → S → S × Option JournalError
    load_loop zero bytes batch s = (load_rest batch s, none)
    load_loop (suc k) bytes batch s = elim (rlp.decode bytes) [
      | eof ↦ (load_rest batch s, none)
      | malformed ↦ (load_rest batch s, some JournalError.decode_failed)
      | item tx rest ↦ elim (ltb 1024 (length (batch ++ tx ∷ []))) [
        | true ↦ load_loop k rest [] (add s (batch ++ tx ∷ []))
        | false ↦ load_loop k rest (batch ++ tx ∷ []) s
      ]
    ]

    -- `load`, on a state that `add` changes. The writer is nil at the end.
    unfoldable pub load : Faults → TxJournal → S → TxJournal × S × Option JournalError
    load faults journal s = elim journal.file [
      | none ↦ (journal, s, none)
      | some bytes ↦
          if faults.fail_open
          then (journal, s, some JournalError.open_failed)
          else (let (s', failure) = load_loop (suc (length bytes)) bytes [] s in
              (record journal { writer = Writer.closed }, s', failure))
    ]

-- `close`
unfoldable pub close : Faults → TxJournal → TxJournal × Option JournalError
close faults journal = elim journal.writer [
  | closed ↦ (journal, none)
  | dev_null ↦ (record journal { writer = Writer.closed }, none)
  | appending ↦ (
    record journal { writer = Writer.closed },
    if faults.fail_close then some JournalError.close_failed else none,
  )
]
