-- ===== src/Chain/Headers/Markers.antt =====
-- The markers of a reorganisation, when they are written.
use chain_master.Prelude.{
  ℕ, zero, suc, ◌+◌, ◌<◌, ◌≤◌, ◌≡◌, refl, sym, ap, ◌∙◌, inl, inr, arith, false, some, List, [], ◌∷◌,
  ◌++◌, ◌==◌, if◌then◌else◌, Bool-cases, ltb, leb, ◌%◌, u64_mod,
}
use chain_master.Chain.Store.{Header, ChainDb, hash_or_zero}
use chain_master.Chain.Lru.{Lru, IsLru}
use chain_master.Chain.Headers.{
  Marker, put_canonical, drop_canonical, put_head, write_marker, write_markers, drop_above,
}
use chain_master.Chain.Headers.Invariant.{
  canon, IsStore, Linked, Linked-le, Linked-cong, Linked-at, read_canonical_hash-canon,
}

pub write_markers-append :
    (db : ChainDb) (xs ys : List Marker)
    → write_markers db (xs ++ ys) ≡ write_markers (write_markers db xs) ys
unfolding write_markers
write_markers-append db [] ys = refl
write_markers-append db (x ∷ xs) ys = write_markers-append (write_marker db x) xs ys

-- Markers change canonical hashes and the head only.
pub record Marked (db db' : ChainDb) : Type 0 where
  pub ancient : db'.ancient ≡ db.ancient
  pub headers : db'.headers ≡ db.headers
  pub tds : db'.tds ≡ db.tds
  pub numbers : db'.numbers ≡ db.numbers

pub write_markers-Marked : (db : ChainDb) (ms : List Marker) → Marked db (write_markers db ms)
unfolding write_markers write_marker
write_markers-Marked db [] = record { ancient = refl; headers = refl; tds = refl; numbers = refl }
write_markers-Marked db (put_canonical hash number ∷ ms) =
    let r = write_markers-Marked (write_marker db (put_canonical hash number)) ms in
    record { ancient = r.ancient; headers = r.headers; tds = r.tds; numbers = r.numbers }
write_markers-Marked db (drop_canonical number ∷ ms) =
    let r = write_markers-Marked (write_marker db (drop_canonical number)) ms in
    record { ancient = r.ancient; headers = r.headers; tds = r.tds; numbers = r.numbers }
write_markers-Marked db (put_head hash ∷ ms) =
    let r = write_markers-Marked (write_marker db (put_head hash)) ms in
    record { ancient = r.ancient; headers = r.headers; tds = r.tds; numbers = r.numbers }

pub canon-put :
    (db : ChainDb) (hash n j : ℕ)
    → canon (write_marker db (put_canonical hash n)) j ≡ (if n == j then hash else canon db j)
unfolding canon write_marker hash_or_zero
canon-put db hash n j = ground arith

canon-drop :
    (db : ChainDb) (n j : ℕ)
    → canon (write_marker db (drop_canonical n)) j ≡ (if n == j then 0 else canon db j)
unfolding canon write_marker hash_or_zero
canon-drop db n j = ground arith

module _ {g : ℕ} {db : ChainDb} (s : IsStore g db) (top : ℕ) (l : Linked db.headers (canon db) top)
    (above : (n : ℕ) → top < n → canon db n ≡ 0) where
  -- A canonical hash is not zero up to the top.
  pub canon_pos : (n : ℕ) → n ≤ top → 0 < canon db n
  canon_pos n h =
      let (x, at) = Linked-at db.headers (canon db) n (Linked-le db.headers (canon db) n top h l) in
      (s.stored n (canon db n) x at).nonzero

  gone_above : (n j : ℕ) → canon db n ≡ 0 → n ≤ j → canon db j ≡ 0
  gone_above n j e h = elim (Bool-cases (ltb top n)) [
    | inl high ↦ above j (ground (arith, high))
    | inr low ↦ absurd (omega (arith, canon_pos n (ground (arith, low)), e))
  ]

  -- The number after that of a canonical hash does not wrap.
  no_wrap : (n : ℕ) → canon db n == 0 ≡ false → (n + 1) % u64_mod ≡ n + 1
  no_wrap n e = elim (Bool-cases (leb n top)) [
    | inr high ↦ absurd (ground (arith, above n, high, e))
    | inl low ↦
        let (x, at) =
          Linked-at db.headers (canon db) n
            (Linked-le db.headers (canon db) n top (ground (arith, low)) l) in
        omega (arith, (s.stored n (canon db n) x at).word)
  ]

  drop_above-none : (n : ℕ) → drop_above 0 db n ≡ []
  unfolding drop_above
  drop_above-none n = refl

  drop_above-stop : (k n : ℕ) → canon db n ≡ 0 → drop_above (suc k) db n ≡ []
  unfolding drop_above
  drop_above-stop k n e = rw (drop_above, read_canonical_hash-canon s n, e) refl

  drop_above-step :
      (k n : ℕ)
      → (canon db n == 0) ≡ false
      → drop_above (suc k) db n ≡ drop_canonical n ∷ drop_above k db ((n + 1) % u64_mod)
  unfolding drop_above
  drop_above-step k n e = rw (drop_above, read_canonical_hash-canon s n, e) refl

  nothing_above :
      (n : ℕ) (db' : ChainDb) (j : ℕ)
      → ((i : ℕ) → n ≤ i → canon db i ≡ 0)
      → ((i : ℕ) → n ≤ i → canon db' i ≡ canon db i)
      → canon db' j ≡ (if ltb j n then canon db' j else 0)
  nothing_above n db' j gone same = elim (Bool-cases (ltb j n)) [
    | inl below ↦ rw below refl
    | inr high ↦ ground (arith, high, gone j, same j)
  ]

  -- With enough rounds all canonical hashes from a number on are dropped, and no others.
  pub drop_above-canon :
      (k n : ℕ) (db' : ChainDb) (j : ℕ)
      → top < n + k
      → ((i : ℕ) → n ≤ i → canon db' i ≡ canon db i)
      → canon (write_markers db' (drop_above k db n)) j ≡ (if ltb j n then canon db' j else 0)
  unfolding write_markers
  drop_above-canon zero n db' j h same =
      ap (λ ms. canon (write_markers db' ms) j) (drop_above-none n)
      ∙ nothing_above n db' j (λ i le. above i (omega (arith, le, h))) same
  drop_above-canon (suc k) n db' j h same = elim (Bool-cases (canon db n == 0)) [
    | inl none_left ↦
        let e : canon db n ≡ 0 = ground (arith, none_left) in
        ap (λ ms. canon (write_markers db' ms) j) (drop_above-stop k n e)
        ∙ nothing_above n db' j (λ i. gone_above n i e) same
    | inr more ↦
        let next : ChainDb = write_marker db' (drop_canonical n) in
        let rest =
          drop_above-canon k (n + 1) next j (omega arith)
            (λ i le. canon-drop db' n i ∙ ground (arith, le, same i)) in
        ap (λ ms. canon (write_markers db' ms) j)
          (drop_above-step k n more
            ∙ ap (λ i. drop_canonical n ∷ drop_above k db i) (no_wrap n more))
        ∙ rest
        ∙ ground (arith, canon-drop db' n j)
  ]

-- The rest of the markers: the links of the ancestors of a header.
module _ {hl : Lru Header} {nl : Lru ℕ} (hlaw : IsLru hl) (nlaw : IsLru nl) {g : ℕ} {db : ChainDb}
    (s : IsStore g db) (top : ℕ) (l : Linked db.headers (canon db) top)
    (above : (n : ℕ) → top < n → canon db n ≡ 0) where
  -- Markers that link the header of the hash `h` and the number `m` with all its ancestors, on a
  -- database with the same canonical hashes up to `m`.
  pub record Links (h m : ℕ) (ms : List Marker) : Type 0 where
    pub linked :
        (db' : ChainDb)
        → ((j : ℕ) → j ≤ m → canon db' j ≡ canon db j)
        → Linked db.headers (canon (write_markers db' ms)) m
    pub ends :
        (db' : ChainDb)
        → ((j : ℕ) → j ≤ m → canon db' j ≡ canon db j)
        → canon (write_markers db' ms) m ≡ h
    pub higher : (db' : ChainDb) (j : ℕ) → m < j → canon (write_markers db' ms) j ≡ canon db' j

  pub no_Links : (h m : ℕ) → 0 < h → canon db m ≡ h → Links h m []
  unfolding write_markers
  no_Links h m pos e =
      let within : m ≤ top = elim (Bool-cases (leb m top)) [
        | inl le ↦ ground (arith, le)
        | inr gt ↦ absurd (ground (arith, above m, gt, e, pos))
      ] in
      record {
        linked = λ db' same.
            Linked-cong db.headers db.headers (canon db) (canon db') m (λ j i x le at. at) same
              (Linked-le db.headers (canon db) m top within l);
        ends = λ db' same. same m (omega arith) ∙ e;
        higher = λ db' j lt. refl;
      }

  put_agrees :
      (db' : ChainDb) (h m : ℕ)
      → ((j : ℕ) → j ≤ suc m → canon db' j ≡ canon db j)
      → (j : ℕ) → j ≤ m
      → canon (write_marker db' (put_canonical h (suc m))) j ≡ canon db j
  put_agrees db' h m same j le = ground (arith, canon-put db' h (suc m) j, same j)

  pub put_Links :
      (h m : ℕ) (x : Header) (ms : List Marker)
      → db.headers (suc m) h ≡ some x
      → Links x.parent_hash m ms
      → Links h (suc m) (put_canonical h (suc m) ∷ ms)
  unfolding write_markers
  put_Links h m x ms at r =
      let put : (db' : ChainDb)
          → canon (write_markers (write_marker db' (put_canonical h (suc m))) ms) (suc m) ≡ h =
        λ db'.
          r.higher (write_marker db' (put_canonical h (suc m))) (suc m) (omega arith)
          ∙ canon-put db' h (suc m) (suc m)
          ∙ ground arith in
      record {
        linked = λ db' same.
            let db'' : ChainDb = write_marker db' (put_canonical h (suc m)) in
            (
              (
                x,
                ap (db.headers (suc m)) (put db') ∙ at,
                sym (r.ends db'' (put_agrees db' h m same)),
              ),
              r.linked db'' (put_agrees db' h m same),
            );
        ends = λ db' same. put db';
        higher = λ db' j lt.
            r.higher (write_marker db' (put_canonical h (suc m))) j (omega (arith, lt))
            ∙ canon-put db' h (suc m) j
            ∙ ground (arith, lt);
      }
