-- ===== src/Chain/Tests.antt =====
-- Runs of the chain of headers, from a genesis block on.
use chain_master.Prelude.{
  ℕ, ◌%◌, ◌<◌, ◌≡◌, refl, sym, ap, ◌∙◌, arith, true, false, none, some, [], ◌∷◌,
}
use chain_master.Chain.Store
use chain_master.Chain.Store.{Header, ChainDb, update, hash_or_zero}
use chain_master.Chain.Headers.{
  HeaderChain, crashed, before, get_td, get_header, link_loop, is_reorg, reorganise, write_known,
  write_header,
}
use chain_master.Chain.Headers.Invariant.{canon}
use chain_master.Chain.Headers.Arrival.{IsNew, arrive}
use chain_master.Chain.Headers.Ends.{Ends}
use chain_master.Chain.Headers.Whole.{write_header_lem}
use chain_master.Chain.Rewind.{set_head}
use chain_master.Chain.Rewind.Rewound.{IsRewound, set_head-IsRewound}
use chain_master.Chain.Ancestors.{get_ancestor}
use chain_master.Chain.Ancestors.Walks.{Walked, get_ancestor-Walked}
use chain_master.Chain.Import.{Surroundings, sealed, insert_header_chain}
use chain_master.Chain.Import.Seals.{Sampled, sealed-Sampled}
use chain_master.Chain.Import.Family.{IsFamily, IsProper, IsFamilyChain}
use chain_master.Chain.Import.Whole.{Import, insert_header_chain_lem}
use chain_master.Chain.Three.{
  roomy, roomy-IsLru, nth, three_db, empty_caches, three, three_header, three-IsChain,
}

-- A heavier header beside the head.
abbrev fork : Header
fork = record { hash = 200; parent_hash = 101; number = 2; difficulty = 50 }

fork-IsNew : IsNew three_db fork
fork-IsNew = record {
  positive = omega arith;
  word = omega arith;
  nonzero = omega arith;
  follows = λ n p at. omega (arith, (three_header n 101 p at).1);
  fresh = λ n y at.
      let (level, hash, _) = three_header n 200 y at in absurd (omega (arith, level, hash));
}

write_header_lem_example : Ends three fork (write_header (roomy Header) (roomy ℕ) true three fork)
write_header_lem_example =
    write_header_lem (roomy-IsLru Header) (roomy-IsLru ℕ) three three-IsChain fork fork-IsNew true

get_ancestor-Walked_example :
    Walked
      (roomy-IsLru Header)
      (roomy-IsLru ℕ)
      three
      three-IsChain
      102
      2
      2
      1
      (get_ancestor (roomy Header) (roomy ℕ) three_db empty_caches 102 2 2 1)
get_ancestor-Walked_example =
    get_ancestor-Walked (roomy-IsLru Header) (roomy-IsLru ℕ) three three-IsChain empty_caches 102 2
      2 1 (nth 2) (omega arith) three-IsChain.cached refl

sealed-Sampled_example : Sampled 3 7 (sealed 3 (λ i. i % 3) 7)
sealed-Sampled_example =
    sealed-Sampled 3 7 (λ i. i % 3) (omega arith) (omega arith) (λ i. omega arith)

abbrev InOrder : Header → Type 0
InOrder x = nth x.number ≡ x

InOrder-IsFamily : IsFamily InOrder
InOrder-IsFamily = record {
  one = λ x y f k same.
      let level : x.number ≡ y.number =
        omega (arith, ap (λ (z : Header). z.hash) f, ap (λ (z : Header). z.hash) k, same) in
      sym f ∙ ap nth level ∙ k;
  follows = λ x p f k same pos.
      omega (arith, ap (λ (z : Header). z.parent_hash) f, ap (λ (z : Header). z.hash) k, same);
}

three-IsFamilyChain : IsFamilyChain InOrder three
three-IsFamilyChain = record {
  chain = three-IsChain;
  within = λ n h y e.
      let same = (three_header n h y e).2 in
      ap nth (ap (λ (z : Header). z.number) (sym same)) ∙ same;
}

nth-IsProper : (n : ℕ) → 0 < n → n < 1000 → IsProper InOrder (nth n)
nth-IsProper n pos small = record {
  member = refl;
  positive = pos;
  word = omega arith;
  nonzero = omega arith;
}

abbrev calm : Surroundings
calm = record {
  interrupted = λ i. false;
  bad = λ h. false;
  draw = λ i. 0;
  verify_headers = λ chain seals i. none;
}

insert_header_chain_lem_example : Import InOrder calm three (nth 3 ∷ nth 4 ∷ []) (
    insert_header_chain
      (roomy Header)
      (roomy ℕ)
      calm
      calm
      (λ i. false)
      three
      (nth 3 ∷ nth 4 ∷ [])
      2)
insert_header_chain_lem_example =
    insert_header_chain_lem InOrder (roomy-IsLru Header) (roomy-IsLru ℕ) InOrder-IsFamily calm calm
      (λ i. false) three three-IsFamilyChain (nth 3) (nth 4 ∷ []) 2
      (nth-IsProper 3 (omega arith) (omega arith), (nth-IsProper 4 (omega arith) (omega arith), tt))
      (record { number = 2; above = refl; parent = nth 2; held = refl })

three_alone : (n h : ℕ) (x : Header) → three_db.headers n h ≡ some x → 1 < n → canon three_db n ≡ h
unfolding canon hash_or_zero
three_alone n h x e lt = let (level, hash, _) = three_header n h x e in ground (arith, level, hash)

set_head-IsRewound_example : IsRewound 1 three (set_head (roomy Header) (roomy ℕ) 1 three)
set_head-IsRewound_example =
    set_head-IsRewound (roomy-IsLru Header) (roomy-IsLru ℕ) 1 three three-IsChain three_alone

-- A lighter header beside the head, whose ancestor `SetHead` deletes, and a header on top of it.
abbrev lighter_fork : Header
lighter_fork = record { hash = 200; parent_hash = 101; number = 2; difficulty = 3 }

abbrev on_fork : Header
on_fork = record { hash = 201; parent_hash = 200; number = 3; difficulty = 5 }

abbrev forked : HeaderChain (roomy Header) (roomy ℕ)
forked = record three { db = arrive three_db lighter_fork 13 }

crash_after_set_head :
    write_header (roomy Header) (roomy ℕ) true (set_head (roomy Header) (roomy ℕ) 0 forked) on_fork
    ≡ crashed
unfolding write_header set_head get_td get_header before write_known is_reorg reorganise link_loop
    Store.write_header Store.write_td Store.read_td Store.read_header Store.write_head_header_hash
    Store.read_canonical_hash
crash_after_set_head = refl
