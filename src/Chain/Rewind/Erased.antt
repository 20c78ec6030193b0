-- ===== src/Chain/Rewind/Erased.antt =====
-- What deleting a stretch of the canonical headers does to the database.
use chain_master.Prelude.{
  ℕ, suc, ◌<◌, ◌≤◌, ◌≡◌, ◌≢◌, refl, sym, ap, ◌∙◌, inl, inr, arith, Bool, ◌&&◌, Option, none, some,
  ltb, leb, ◌==◌, if◌then◌else◌, Bool-cases, Option-cases,
}
use chain_master.Chain.Store.{
  ChainDb, hash_or_zero, delete_header, delete_td, delete_canonical_hash,
}
use chain_master.Chain.Headers.Invariant.{canon}
use chain_master.Chain.Rewind.{drop_header}

-- The header of the hash `h` is the one of `f` at a number above `lo` and not above `hi`.
abbrev pub within : ℕ → ℕ → (ℕ → ℕ) → ℕ → ℕ → Bool
within lo hi f n h = ltb lo n && (leb n hi && f n == h)

-- The database `d'` is `d` without the headers of `f` above `lo` and not above `hi`.
pub record IsErased (lo hi : ℕ) (f : ℕ → ℕ) (d d' : ChainDb) : Type 0 where
  pub ancient : d'.ancient ≡ d.ancient
  pub head_header : d'.head_header ≡ d.head_header
  pub headers : (n h : ℕ) → d'.headers n h ≡ (if within lo hi f n h then none else d.headers n h)
  pub tds : (n h : ℕ) → d'.tds n h ≡ (if within lo hi f n h then none else d.tds n h)
  pub canonical : (n : ℕ) → canon d' n ≡ (if ltb lo n && leb n hi then 0 else canon d n)
  pub numbers_gone : (n : ℕ) → lo < n → n ≤ hi → d'.numbers (f n) ≡ none
  pub numbers_kept : (h : ℕ) → ((n : ℕ) → lo < n → n ≤ hi → f n ≢ h) → d'.numbers h ≡ d.numbers h
  pub numbers_from : (h n : ℕ) → d'.numbers h ≡ some n → d.numbers h ≡ some n

pub none-IsErased : (lo hi : ℕ) (f : ℕ → ℕ) (d : ChainDb) → hi ≤ lo → IsErased lo hi f d d
none-IsErased lo hi f d le = record {
  ancient = refl;
  head_header = refl;
  headers = λ n h. ground (arith, le);
  tds = λ n h. ground (arith, le);
  canonical = λ n. ground (arith, le);
  numbers_gone = λ n lt up. absurd (omega (arith, le, lt, up));
  numbers_kept = λ h e. refl;
  numbers_from = λ h n e. e;
}

module _ (lo m : ℕ) (f : ℕ → ℕ) (d d' : ChainDb) (lt : lo < suc m) where
  abbrev next : ChainDb
  next = drop_header d (f (suc m)) (suc m)

  next-headers :
      (n h : ℕ) → next.headers n h ≡ (if suc m == n && f (suc m) == h then none else d.headers n h)
  unfolding drop_header delete_header delete_td delete_canonical_hash
  next-headers n h = refl

  next-tds : (n h : ℕ) → next.tds n h ≡ (if suc m == n && f (suc m) == h then none else d.tds n h)
  unfolding drop_header delete_header delete_td delete_canonical_hash
  next-tds n h = refl

  next-canon : (n : ℕ) → canon next n ≡ (if suc m == n then 0 else canon d n)
  unfolding drop_header delete_header delete_td delete_canonical_hash canon hash_or_zero
  next-canon n = ground arith

  next-numbers : (h : ℕ) → next.numbers h ≡ (if f (suc m) == h then none else d.numbers h)
  unfolding drop_header delete_header delete_td delete_canonical_hash
  next-numbers h = refl

  -- Whether a header goes in this round or in a later one.
  goes :
      {A : Type 0} (n h : ℕ) (o e : Option A)
      → e ≡ (if suc m == n && f (suc m) == h then none else o)
      → (if within lo m f n h then none else e) ≡ (if within lo (suc m) f n h then none else o)
  goes n h o e at = elim (Bool-cases (suc m == n)) [
    | inl same ↦
        let here : suc m ≡ n = ground (arith, same) in ground (arith, at, ap f here, here, lt)
    | inr other ↦ ground (arith, at, other)
  ]

  next_from : (h n : ℕ) → next.numbers h ≡ some n → d.numbers h ≡ some n
  next_from h n e = elim (Bool-cases (f (suc m) == h)) [
    | inl same ↦ let gone : none ≡ some n = rw same at (sym (next-numbers h) ∙ e) in absurd ((cc))
    | inr other ↦ rw other at (sym (next-numbers h) ∙ e)
  ]

  top_gone : IsErased lo m f next d' → d'.numbers (f (suc m)) ≡ none
  top_gone r = elim (Option-cases (d'.numbers (f (suc m)))) [
    | inl gone ↦ gone
    | inr (n, e) ↦
        let missing : next.numbers (f (suc m)) ≡ none = next-numbers (f (suc m)) ∙ ground arith in
        let clash : none ≡ some n = sym missing ∙ r.numbers_from (f (suc m)) n e in absurd ((cc))
  ]

  pub more-IsErased : IsErased lo m f next d' → IsErased lo (suc m) f d d'
  unfolding drop_header delete_header delete_td delete_canonical_hash
  more-IsErased r = record {
    ancient = r.ancient;
    head_header = r.head_header;
    headers = λ n h. r.headers n h ∙ goes n h (d.headers n h) (next.headers n h) (next-headers n h);
    tds = λ n h. r.tds n h ∙ goes n h (d.tds n h) (next.tds n h) (next-tds n h);
    canonical = λ n. r.canonical n ∙ ground (arith, next-canon n, lt);
    numbers_gone = λ n above up. elim (Bool-cases (leb n m)) [
      | inl low ↦ r.numbers_gone n above (ground (arith, low))
      | inr high ↦
          let top : suc m ≡ n = ground (arith, high, up) in
          ap (λ i. d'.numbers (f i)) (sym top) ∙ top_gone r
    ];
    numbers_kept = λ h apart.
        r.numbers_kept h (λ n above up. apart n above (omega (arith, up)))
        ∙ next-numbers h
        ∙ ground (arith, apart (suc m) lt (omega arith));
    numbers_from = λ h n e. next_from h n (r.numbers_from h n e);
  }
