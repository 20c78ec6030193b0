-- ===== src/Pool/Journal/Rotated.antt =====
-- What load reads after rotate.
use chain_master.Prelude.{
  ℕ, zero, suc, ◌<◌, ◌≡◌, refl, sym, ap, ◌∙◌, inl, inr, arith, true, false, Option, none, some,
  List, [], ◌∷◌, ◌++◌, ltb, Bool-cases, length,
}
use mathlib.Core.List.{append_assoc, append-nil}
use chain_master.Prelude.GoMap.{GoMap}
use chain_master.Pool.Tx.{Tx}
use chain_master.Pool.Journal.{
  Decoded, Rlp, JournalError, Writer, TxJournal, no_faults, encode_txs, encode_all, insert,
  replace_file, rotate, load_rest, load_loop, load,
}

-- Decoding undoes encoding, and no encoding is empty.
pub record IsCodec (rlp : Rlp) : Type 0 where
  pub ends : rlp.decode [] ≡ Decoded.eof
  pub reads : (tx : Tx) (rest : List ℕ) → rlp.decode (rlp.encode tx ++ rest) ≡ Decoded.item tx rest
  pub longer : (tx : Tx) (rest : List ℕ) → length rest < length (rlp.encode tx ++ rest)

-- All transactions of some batches.
abbrev pub joined : List (List Tx) → List Tx
joined [] = []
joined (batch ∷ batches) = batch ++ joined batches

-- The batches are added one after the other.
abbrev pub feed : {S : Type 0} → (S → List Tx → S) → S → List (List Tx) → S
feed add s [] = s
feed add s (batch ∷ batches) = feed add (add s batch) batches

module _ (rlp : Rlp) (c : IsCodec rlp) {S : Type 0} (add : S → List Tx → S) where
  loop-eof :
      (k : ℕ) (batch : List Tx) (s : S)
      → load_loop rlp add (suc k) [] batch s ≡ (load_rest rlp add batch s, none)
  unfolding load_loop
  loop-eof k batch s = rw (load_loop, c.ends) refl

  loop-full :
      (k : ℕ) (tx : Tx) (rest : List ℕ) (batch : List Tx) (s : S)
      → ltb 1024 (length (batch ++ tx ∷ [])) ≡ true
      → load_loop rlp add (suc k) (rlp.encode tx ++ rest) batch s
        ≡ load_loop rlp add k rest [] (add s (batch ++ tx ∷ []))
  unfolding load_loop
  loop-full k tx rest batch s e = rw (load_loop, c.reads, e) refl

  loop-more :
      (k : ℕ) (tx : Tx) (rest : List ℕ) (batch : List Tx) (s : S)
      → ltb 1024 (length (batch ++ tx ∷ [])) ≡ false
      → load_loop rlp add (suc k) (rlp.encode tx ++ rest) batch s
        ≡ load_loop rlp add k rest (batch ++ tx ∷ []) s
  unfolding load_loop
  loop-more k tx rest batch s e = rw (load_loop, c.reads, e) refl

  -- The last batch as a list of batches.
  rest-joined :
      (batch : List Tx) (s : S)
      → (batches : List (List Tx)) × (joined batches ≡ batch)
        × (load_rest rlp add batch s ≡ feed add s batches)
  unfolding load_rest
  rest-joined [] s = ([], refl, refl)
  rest-joined (tx ∷ batch) s = ((tx ∷ batch) ∷ [], append-nil (tx ∷ batch), refl)

  -- Reading the encodings of some transactions adds them in order, in batches, and fails at nothing.
  pub load_loop-encode_txs :
      (k : ℕ) (txs batch : List Tx) (s : S)
      → length (encode_txs rlp txs) < k
      → (batches : List (List Tx)) × (joined batches ≡ batch ++ txs)
        × (load_loop rlp add k (encode_txs rlp txs) batch s ≡ (feed add s batches, none))
  unfolding encode_txs
  load_loop-encode_txs zero txs batch s enough = absurd (omega arith)
  load_loop-encode_txs (suc k) [] batch s enough =
      let (batches, all, fed) = rest-joined batch s in
      (batches, all ∙ sym (append-nil batch), loop-eof k batch s ∙ ap (λ e. (e, none)) fed)
  load_loop-encode_txs (suc k) (tx ∷ txs) batch s enough =
      let rest = encode_txs rlp txs in
      let shorter = c.longer tx rest in
      elim (Bool-cases (ltb 1024 (length (batch ++ tx ∷ [])))) [
        | inl full ↦
            let (batches, all, fed) =
              load_loop-encode_txs k txs [] (add s (batch ++ tx ∷ [])) (omega (arith, shorter)) in
            (
              (batch ++ tx ∷ []) ∷ batches,
              ap (λ ts. batch ++ tx ∷ [] ++ ts) all ∙ append_assoc batch (tx ∷ []) txs,
              loop-full k tx rest batch s full ∙ fed,
            )
        | inr room ↦
            let (batches, all, fed) =
              load_loop-encode_txs k txs (batch ++ tx ∷ []) s (omega (arith, shorter)) in
            (
              batches,
              all ∙ append_assoc batch (tx ∷ []) txs,
              loop-more k tx rest batch s room ∙ fed,
            )
      ]

-- The transactions of all accounts, in the order of the map.
abbrev pub all_txs : GoMap (List Tx) → List Tx
all_txs [] = []
all_txs ((addr, txs) ∷ all) = txs ++ all_txs all

module _ (rlp : Rlp) where
  encode_txs-append :
      (xs ys : List Tx) → encode_txs rlp (xs ++ ys) ≡ encode_txs rlp xs ++ encode_txs rlp ys
  unfolding encode_txs
  encode_txs-append [] ys = refl
  encode_txs-append (x ∷ xs) ys =
      ap (λ b. rlp.encode x ++ b) (encode_txs-append xs ys)
      ∙ sym (append_assoc (rlp.encode x) (encode_txs rlp xs) (encode_txs rlp ys))

  encode_all-txs : (all : GoMap (List Tx)) → encode_all rlp all ≡ encode_txs rlp (all_txs all)
  unfolding encode_txs encode_all
  encode_all-txs [] = refl
  encode_all-txs ((addr, txs) ∷ all) =
      ap (λ b. encode_txs rlp txs ++ b) (encode_all-txs all)
      ∙ sym (encode_txs-append txs (all_txs all))

  -- The content of the file after a rotation and an insertion.
  inserted_file :
      (all : GoMap (List Tx)) (tx : Tx)
      → encode_all rlp all ++ rlp.encode tx ≡ encode_txs rlp (all_txs all ++ tx ∷ [])
  unfolding encode_txs
  inserted_file all tx =
      ap (λ b. b ++ rlp.encode tx) (encode_all-txs all)
      ∙ ap (λ b. encode_txs rlp (all_txs all) ++ b) (sym (append-nil (rlp.encode tx)))
      ∙ sym (encode_txs-append (all_txs all) (tx ∷ []))

  rotate_done :
      (journal : TxJournal) (all : GoMap (List Tx))
      → rotate rlp no_faults journal all
        ≡ (record { file = some (encode_all rlp all); writer = Writer.appending }, none)
  unfolding rotate replace_file
  rotate_done journal all = by_writer journal.writer refl
    where
      by_writer :
          (w : Writer)
          → journal.writer ≡ w
          → rotate rlp no_faults journal all
            ≡ (record { file = some (encode_all rlp all); writer = Writer.appending }, none)
      by_writer Writer.closed e = rw (rotate, e) refl
      by_writer Writer.dev_null e = rw (rotate, e) refl
      by_writer Writer.appending e = rw (rotate, e) refl

-- When no call fails, a rotation of the journal and an insertion after it write what a later `load`
-- reads: all transactions of the rotation and then the inserted one, in order and in batches, without
-- an error. Decoding undoes encoding.
pub load-rotate :
    (rlp : Rlp) (c : IsCodec rlp) {S : Type 0} (add : S → List Tx → S) (s : S) (journal : TxJournal)
    (all : GoMap (List Tx)) (tx : Tx)
    → let rotated = rotate rlp no_faults journal all in
      let inserted = insert rlp no_faults rotated.0 tx in
      (rotated.1 ≡ none)
      × (inserted.1 ≡ none)
      × ((batches : List (List Tx)) × (joined batches ≡ all_txs all ++ tx ∷ [])
          × (load rlp add no_faults inserted.0 s
              ≡ (record inserted.0 { writer = Writer.closed }, feed add s batches, none)))
unfolding insert load
load-rotate rlp c {S} add s journal all tx =
    let bytes = encode_all rlp all ++ rlp.encode tx in
    let txs = all_txs all ++ tx ∷ [] in
    let (batches, joins, reads) =
      load_loop-encode_txs rlp c add (suc (length (encode_txs rlp txs))) txs [] s (omega arith) in
    let read : load_loop rlp add (suc (length bytes)) bytes [] s ≡ (feed add s batches, none) =
      ap (λ b. load_loop rlp add (suc (length b)) b [] s) (inserted_file rlp all tx) ∙ reads in
    rw (rotate_done rlp journal all) (
      refl,
      refl,
      (
        batches,
        joins,
        ap
            (λ (r : S × Option JournalError).
              (record { file = some bytes; writer = Writer.closed }, r.0, r.1))
            read,
      ),
    )
