-- ===== src/Pool/Journal/Tests.antt =====
-- An encoding of transactions as numbers, and a journal with it.
use chain_master.Prelude.{
  ℕ, zero, suc, ◌≤◌, ◌≡◌, refl, arith, Bool, true, false, Option, none, some, List, [], ◌∷◌, ◌++◌,
  length, take, drop,
}
use chain_master.Prelude.GoMap.{GoMap}
use chain_master.Pool.Tx.{Tx}
use chain_master.Pool.Journal.{
  Decoded, Rlp, Writer, TxJournal, no_faults, new_tx_journal, insert, rotate, load,
}
use chain_master.Pool.Journal.Rotated.{IsCodec, joined, feed, all_txs, load-rotate}

abbrev flag : ℕ → Bool
flag (Prim.Native.Nat.zero) = false
flag (suc n) = true

abbrev of_flag : Bool → ℕ
of_flag false = 0
of_flag true = 1

abbrev account : ℕ → Option ℕ
account (Prim.Native.Nat.zero) = none
account (suc n) = some n

abbrev of_account : Option ℕ → ℕ
of_account none = 0
of_account (some a) = suc a

flag-of_flag : (b : Bool) → flag (of_flag b) ≡ b
flag-of_flag false = refl
flag-of_flag true = refl

account-of_account : (a : Option ℕ) → account (of_account a) ≡ a
account-of_account none = refl
account-of_account (some a) = refl

abbrev written : Tx → List ℕ
written tx =
    tx.nonce
    ∷ tx.gas_price
    ∷ tx.gas
    ∷ tx.cost
    ∷ of_flag tx.is_negative
    ∷ of_flag tx.creation
    ∷ tx.hash
    ∷ tx.size
    ∷ of_account tx.sender
    ∷ length tx.payload
    ∷ tx.payload

abbrev parsed : List ℕ → Decoded
parsed [] = Decoded.eof
parsed (nonce ∷ price ∷ gas ∷ cost ∷ neg ∷ new ∷ hash ∷ size ∷ from ∷ n ∷ rest) =
    Decoded.item
      (record {
        nonce = nonce;
        gas_price = price;
        gas = gas;
        cost = cost;
        is_negative = flag neg;
        payload = take n rest;
        creation = flag new;
        hash = hash;
        size = size;
        sender = account from;
      })
      (drop n rest)
parsed (byte ∷ bytes) = Decoded.malformed

abbrev numbers : Rlp
numbers = record { encode = written; decode = parsed }

take-append : (xs ys : List ℕ) → take (length xs) (xs ++ ys) ≡ xs
take-append [] ys = refl
take-append (x ∷ xs) ys = rw (take-append xs ys) refl

drop-append : (xs ys : List ℕ) → drop (length xs) (xs ++ ys) ≡ ys
drop-append [] ys = refl
drop-append (x ∷ xs) ys = drop-append xs ys

length-le : (xs ys : List ℕ) → length ys ≤ length (xs ++ ys)
length-le [] ys = omega arith
length-le (x ∷ xs) ys = omega (arith, length-le xs ys)

numbers-IsCodec : IsCodec numbers
numbers-IsCodec = record {
  ends = refl;
  reads = λ tx rest.
      rw
        (
          flag-of_flag tx.is_negative,
          flag-of_flag tx.creation,
          account-of_account tx.sender,
          take-append tx.payload rest,
          drop-append tx.payload rest,
        )
        refl;
  longer = λ tx rest. omega (arith, length-le tx.payload rest);
}

abbrev local_tx : ℕ → Tx
local_tx nonce = record {
  nonce = nonce;
  gas_price = 2;
  gas = 21000;
  cost = 42000;
  is_negative = false;
  payload = 9 ∷ 0 ∷ [];
  creation = false;
  hash = nonce;
  size = 112;
  sender = some 7;
}

abbrev kept : GoMap (List Tx)
kept = (7, local_tx 0 ∷ local_tx 1 ∷ []) ∷ []

abbrev rotated : TxJournal
rotated = (rotate numbers no_faults (new_tx_journal none) kept).0

abbrev reopened : TxJournal
reopened = (insert numbers no_faults rotated (local_tx 2)).0

abbrev collect : List Tx → List Tx → List Tx
collect old new = old ++ new

load-rotate_example :
    ((rotate numbers no_faults (new_tx_journal none) kept).1 ≡ none)
    × ((insert numbers no_faults rotated (local_tx 2)).1 ≡ none)
    × ((batches : List (List Tx)) × (joined batches ≡ all_txs kept ++ local_tx 2 ∷ [])
        × (load numbers collect no_faults reopened []
            ≡ (record reopened { writer = Writer.closed }, feed collect [] batches, none)))
load-rotate_example =
    load-rotate numbers numbers-IsCodec collect [] (new_tx_journal none) kept (local_tx 2)
