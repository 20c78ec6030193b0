-- ===== src/Chain/Three.antt =====
-- A chain of three headers over caches that are never full, for the tests.
use chain_master.Prelude.{
  ℕ, suc, ◌+◌, ◌-◌, ◌*◌, ◌≤◌, leb, ◌≡◌, ◌≢◌, refl, sym, ap, ◌∙◌, inl, inr, arith, Bool, true, false,
  ◌&&◌, Option, none, some, ◌==◌, if◌then◌else◌, Bool-cases,
}
use mathlib.Core.Option.{some-injective}
use chain_master.Chain.Store.{Header, ChainDb, update, hash_or_zero}
use chain_master.Chain.Lru.{Lru, IsLru}
use chain_master.Chain.Headers.{Caches, HeaderChain}
use chain_master.Chain.Headers.Invariant.{canon, IsStored, IsStore, IsChain}

abbrev is_some {ℓ} : {A : Type ℓ} → Option A → Bool
is_some none = false
is_some (some a) = true

is_some_lem : {A : Type 0} (o : Option A) → is_some o ≡ true → (a : A) × (o ≡ some a)
is_some_lem none e = absurd ((cc))
is_some_lem (some a) e = (a, refl)

-- A cache that is never full.
abbrev pub roomy : (V : Type 0) → Lru V
roomy V = record {
  Cache = ℕ → Option V;
  get = λ c k. (c k, c);
  peek = λ c k. c k;
  add = λ c k v. update c k (some v);
  contains = λ c k. is_some (c k);
  purge = λ c k. none;
}

update_same : {V : Type 0} (c : ℕ → Option V) (k : ℕ) (v : V) → update c k (some v) k ≡ some v
update_same c k v = ground arith

update_other :
    {V : Type 0} (c : ℕ → Option V) (k j : ℕ) (v : V) → k ≢ j → update c k (some v) j ≡ c j
update_other c k j v h = ground (arith, h)

pub roomy-IsLru : (V : Type 0) → IsLru (roomy V)
roomy-IsLru V = record {
  get-peek = λ c k. refl;
  peek-get = λ c k j. refl;
  peek-add_self = λ c k v w e. some-injective _ _ (sym e ∙ update_same c k v);
  peek-add_other = λ c k j v w h e. sym (update_other c k j v h) ∙ e;
  contains-peek = λ c k e. is_some_lem (c k) e;
  peek-purge = λ c k. refl;
}

-- The headers of a chain, by number.
abbrev pub nth : ℕ → Header
nth n = record { hash = n + 100; parent_hash = n + 99; number = n; difficulty = 5 }

abbrev is_held : ℕ → ℕ → Bool
is_held n h = leb n 2 && h == n + 100

abbrev pub three_db : ChainDb
three_db = record {
  ancient = λ n. none;
  canonical = λ n. if leb n 2 then some (n + 100) else none;
  headers = λ n h. if is_held n h then some (nth n) else none;
  tds = λ n h. if is_held n h then some (n * 5 + 5) else none;
  numbers = λ h. if leb 100 h && leb h 102 then some (h - 100) else none;
  head_header = some 102;
  head_block = some 102;
}

abbrev pub empty_caches : Caches (roomy Header) (roomy ℕ)
empty_caches = record { header_cache = λ k. none; td_cache = λ k. none; number_cache = λ k. none }

-- A genesis block and two more headers.
abbrev pub three : HeaderChain (roomy Header) (roomy ℕ)
three = record {
  db = three_db;
  genesis = nth 0;
  current = nth 2;
  current_hash = 102;
  caches = empty_caches;
}

pub three_header :
    (n h : ℕ) (x : Header) → three_db.headers n h ≡ some x → (n ≤ 2) × (h ≡ n + 100) × (nth n ≡ x)
three_header n h x e = elim (Bool-cases (is_held n h)) [
  | inl at ↦
      let here : some (nth n) ≡ some x = rw at at e in
      (ground (arith, at), ground (arith, at), some-injective _ _ here)
  | inr off ↦ let gone : none ≡ some x = rw off at e in absurd ((cc))
]

three_td : (n h t : ℕ) → three_db.tds n h ≡ some t → (is_held n h ≡ true) × (n * 5 + 5 ≡ t)
three_td n h t e = elim (Bool-cases (is_held n h)) [
  | inl at ↦ let here : some (n * 5 + 5) ≡ some t = rw at at e in (at, some-injective _ _ here)
  | inr off ↦ let gone : none ≡ some t = rw off at e in absurd ((cc))
]

three_held : (n h : ℕ) → n ≤ 2 → h ≡ n + 100 → is_held n h ≡ true
three_held n h le e = ground (arith, le, e)

three-IsStored : (n h : ℕ) (x : Header) → three_db.headers n h ≡ some x → IsStored three_db n h x
three-IsStored n h x e =
    let (level, hash, same) = three_header n h x e in
    let at = three_held n h level hash in
    let above : x.parent_hash ≡ n + 99 = sym (ap (λ (y : Header). y.parent_hash) same) in
    record {
      hash = ap (λ (y : Header). y.hash) (sym same) ∙ sym hash;
      number = ap (λ (y : Header). y.number) (sym same);
      nonzero = omega (arith, hash);
      word = omega (arith, level);
      indexed = ground (arith, level, hash);
      weighed = (n * 5 + 5, rw at refl);
      parent = λ m suc_m.
          let here =
            three_held m x.parent_hash (omega (arith, level, suc_m))
              (omega (arith, above, suc_m)) in
          (nth m, rw here refl);
    }

three_numbered :
    (n h : ℕ) → three_db.numbers h ≡ some n → (x : Header) × (three_db.headers n h ≡ some x)
three_numbered n h e = elim (Bool-cases (leb 100 h && leb h 102)) [
  | inl at ↦
      let here : some (h - 100) ≡ some n = rw at at e in
      let level : h - 100 ≡ n = some-injective _ _ here in
      let held = three_held n h (ground (arith, at, level)) (ground (arith, at, level)) in
      (nth n, rw held refl)
  | inr off ↦ let gone : none ≡ some n = rw off at e in absurd ((cc))
]

pub three-IsStore : IsStore 100 three_db
three-IsStore = record {
  live = λ n. refl;
  stored = three-IsStored;
  rooted = λ h x e. (three_header 0 h x e).1;
  valued = λ n h t e. (nth n, rw ((three_td n h t e).0) refl);
  numbered = three_numbered;
  summed = λ n h t p x e f k. omega (
    arith,
    ap (λ (y : Header). y.difficulty) (three_header (suc n) h x e).2,
    (three_td (suc n) h t f).1,
    (three_td n x.parent_hash p k).1,
  );
}

pub three-IsChain : IsChain three
unfolding canon hash_or_zero
three-IsChain = record {
  store = three-IsStore;
  cached = record {
    header = λ h x e. absurd ((cc));
    td = λ h t e. absurd ((cc));
    number = λ h n e. absurd ((cc));
  };
  linked = ((nth 2, refl, refl), ((nth 1, refl, refl), (nth 0, refl)));
  above = λ n lt. ground (arith, lt);
  head = refl;
  pointed = refl;
  current = refl;
}
