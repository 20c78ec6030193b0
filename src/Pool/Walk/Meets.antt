-- ===== src/Pool/Walk/Meets.antt =====
-- The walk of reset finds the highest common ancestor of two blocks that have one.
use chain_master.Prelude.{
  ℕ, zero, suc, ◌+◌, ◌<◌, ◌≤◌, ◌≡◌, refl, sym, ap, ◌∙◌, inl, inr, arith, false, Option, some, List,
  [], ◌++◌, ltb, ◌==◌, Bool-cases, u64_mod,
}
use chain_master.Pool.Tx.{Tx}
use chain_master.Pool.Moves.{◌>>=◌}
use chain_master.Pool.Reset.{
  Chain, Block, Walk, rewind_rem, rewind_add, lower_rem, lower_add, meet, walk,
}
use chain_master.Pool.Walk.{
  IsNumbered, below-number, rem-at, add-at, lower_rem-stop, lower_rem-step, lower_add-stop,
  lower_add-step, meet-stop, meet-step, lower_rem-number, lower_add-number,
}
use chain_master.Pool.Walk.Descent.{Descent, Descent-snoc, Descent-cases, Descent-le}

-- Where a walk from the blocks `old` and `new` stands, above their common ancestor `c`.
pub record IsUnderWay (chain : Chain) (old new c : Block) (w : Walk) : Type 0 where
  pub old_word : w.rem.number < u64_mod
  pub new_word : w.add.number < u64_mod
  pub old_way : Descent chain old w.rem w.discarded
  pub new_way : Descent chain new w.add w.included
  pub old_rest : (txs : List Tx) × Descent chain w.rem c txs
  pub new_rest : (txs : List Tx) × Descent chain w.add c txs

-- Both ends are one block by its hash, below both blocks; the walk has the transactions on the way,
-- and no common ancestor is higher.
pub record Meeting (chain : Chain) (old new c : Block) (w : Walk) : Type 0 where
  pub same : w.rem.hash ≡ w.add.hash
  pub level : w.rem.number ≡ w.add.number
  pub old_way : Descent chain old w.rem w.discarded
  pub new_way : Descent chain new w.add w.included
  pub highest : c.number ≤ w.rem.number

module _ (chain : Chain) (n : IsNumbered chain) (old new c : Block) where
  rem-UnderWay :
      (w : Walk)
      → IsUnderWay chain old new c w
      → c.number < w.rem.number
      → (v : Walk) × (rewind_rem chain w ≡ some v)
        × IsUnderWay chain old new c v
        × (v.add ≡ w.add)
        × (v.rem.number + 1 ≡ w.rem.number)
  rem-UnderWay w s lt = elim (Descent-cases chain w.rem c s.old_rest.0 s.old_rest.1) [
    | inl end ↦ absurd (omega (arith, ap (λ (b : Block). b.number) end, lt))
    | inr (b, rest, at, on) ↦
        let level = below-number chain n w.rem.parent_hash w.rem.number b s.old_word at in
        (
          record w { rem = b; discarded = w.discarded ++ w.rem.txs },
          rem-at chain n w b at,
          record {
            old_word = omega (arith, level, s.old_word);
            new_word = s.new_word;
            old_way = Descent-snoc chain old w.rem b w.discarded s.old_way at;
            new_way = s.new_way;
            old_rest = (rest, on);
            new_rest = s.new_rest;
          },
          refl,
          level,
        )
  ]

  add-UnderWay :
      (w : Walk)
      → IsUnderWay chain old new c w
      → c.number < w.add.number
      → (v : Walk) × (rewind_add chain w ≡ some v)
        × IsUnderWay chain old new c v
        × (v.rem ≡ w.rem)
        × (v.add.number + 1 ≡ w.add.number)
  add-UnderWay w s lt = elim (Descent-cases chain w.add c s.new_rest.0 s.new_rest.1) [
    | inl end ↦ absurd (omega (arith, ap (λ (b : Block). b.number) end, lt))
    | inr (b, rest, at, on) ↦
        let level = below-number chain n w.add.parent_hash w.add.number b s.new_word at in
        (
          record w { add = b; included = w.included ++ w.add.txs },
          add-at chain n w b at,
          record {
            old_word = s.old_word;
            new_word = omega (arith, level, s.new_word);
            old_way = s.old_way;
            new_way = Descent-snoc chain new w.add b w.included s.new_way at;
            old_rest = s.old_rest;
            new_rest = (rest, on);
          },
          refl,
          level,
        )
  ]

  old_le : (w : Walk) → IsUnderWay chain old new c w → c.number ≤ w.rem.number
  old_le w s = Descent-le chain n w.rem c s.old_rest.0 s.old_word s.old_rest.1

  new_le : (w : Walk) → IsUnderWay chain old new c w → c.number ≤ w.add.number
  new_le w s = Descent-le chain n w.add c s.new_rest.0 s.new_word s.new_rest.1

  bind-eq :
      {A B : Type 0} (x : Option A) (f : A → Option B) (a : A) (b : B)
      → x ≡ some a
      → f a ≡ some b
      → x >>= f ≡ some b
  bind-eq x f a b e k = rw e k

  lower_rem-UnderWay :
      (k : ℕ) (w : Walk)
      → IsUnderWay chain old new c w
      → (v : Walk) × (lower_rem chain k w ≡ some v) × IsUnderWay chain old new c v
  unfolding lower_rem
  lower_rem-UnderWay zero w s = (w, refl, s)
  lower_rem-UnderWay (suc k) w s = elim (Bool-cases (ltb w.add.number w.rem.number)) [
    | inr not ↦ (w, lower_rem-stop chain n k w not, s)
    | inl more ↦
        let (u, step, s', _, _) = rem-UnderWay w s (ground (arith, more, new_le w s)) in
        let (v, rest, end) = lower_rem-UnderWay k u s' in
        (
          v,
          lower_rem-step chain n k w more
              ∙ bind-eq (rewind_rem chain w) (lower_rem chain k) u v step rest,
          end,
        )
  ]

  lower_add-UnderWay :
      (k : ℕ) (w : Walk)
      → IsUnderWay chain old new c w
      → (v : Walk) × (lower_add chain k w ≡ some v) × IsUnderWay chain old new c v
  unfolding lower_add
  lower_add-UnderWay zero w s = (w, refl, s)
  lower_add-UnderWay (suc k) w s = elim (Bool-cases (ltb w.rem.number w.add.number)) [
    | inr not ↦ (w, lower_add-stop chain n k w not, s)
    | inl more ↦
        let (u, step, s', _, _) = add-UnderWay w s (ground (arith, more, old_le w s)) in
        let (v, rest, end) = lower_add-UnderWay k u s' in
        (
          v,
          lower_add-step chain n k w more
              ∙ bind-eq (rewind_add chain w) (lower_add chain k) u v step rest,
          end,
        )
  ]

  -- Ends that differ are above the common ancestor.
  apart_above :
      (w : Walk)
      → IsUnderWay chain old new c w
      → w.rem.number ≡ w.add.number
      → w.rem.hash == w.add.hash ≡ false
      → c.number < w.rem.number
  apart_above w s level apart = elim (Descent-cases chain w.rem c s.old_rest.0 s.old_rest.1) [
    | inr (b, rest, at, on) ↦
        let step = below-number chain n w.rem.parent_hash w.rem.number b s.old_word at in
        omega (arith, step, Descent-le chain n b c rest (omega (arith, step, s.old_word)) on)
    | inl end ↦ elim (Descent-cases chain w.add c s.new_rest.0 s.new_rest.1) [
      | inr (b, rest, at, on) ↦
          let step = below-number chain n w.add.parent_hash w.add.number b s.new_word at in
          omega
            (arith, step, level, Descent-le chain n b c rest (omega (arith, step, s.new_word)) on)
      | inl end' ↦
          let same : w.rem.hash ≡ w.add.hash = ap (λ (b : Block). b.hash) (end ∙ sym end') in
          absurd (ground (arith, apart, same))
    ]
  ]

  meet-Meeting :
      (k : ℕ) (w : Walk)
      → w.rem.number < k
      → w.rem.number ≡ w.add.number
      → IsUnderWay chain old new c w
      → (v : Walk) × (meet chain k w ≡ some v) × Meeting chain old new c v
  meet-Meeting zero w enough level s = absurd (omega arith)
  meet-Meeting (suc k) w enough level s = elim (Bool-cases (w.rem.hash == w.add.hash)) [
    | inl met ↦ (
      w,
      meet-stop chain n k w met,
      record {
        same = ground (arith, met);
        level = level;
        old_way = s.old_way;
        new_way = s.new_way;
        highest = old_le w s;
      },
    )
    | inr apart ↦
        let lt = apart_above w s level apart in
        let (u, step, s', same, fewer) = rem-UnderWay w s lt in
        let stay = ap (λ (b : Block). b.number) same in
        let (t, step', s'', same', fewer') = add-UnderWay u s' (omega (arith, lt, level, stay)) in
        let stay' = ap (λ (b : Block). b.number) same' in
        let (v, rest, end) =
          meet-Meeting k t (omega (arith, enough, fewer, stay'))
            (omega (arith, level, fewer, fewer', stay, stay')) s'' in
        (
          v,
          meet-step chain n k w apart
              ∙ bind-eq (rewind_rem chain w) (λ x. rewind_add chain x >>= meet chain k) u v step
                  (bind-eq (rewind_add chain u) (meet chain k) t v step' rest),
          end,
        )
  ]

  -- Where `GetBlock` returns blocks with the numbers it is asked for, and none with the last number of
  -- 64 bits, and two blocks whose numbers are words have a common ancestor: the walk that `reset` makes
  -- from them ends, at the hash and the number of an ancestor of both that is at least as high, with
  -- the transactions of the blocks from each down to it, in order, as the discarded and the included.
  pub walk-Meeting :
      (olds news : List Tx)
      → old.number < u64_mod
      → new.number < u64_mod
      → Descent chain old c olds
      → Descent chain new c news
      → (v : Walk) × (walk chain old new ≡ some v) × Meeting chain old new c v
  unfolding walk
  walk-Meeting olds news small small' way way' =
      let start : Walk = record { rem = old; add = new; discarded = []; included = [] } in
      let begin : IsUnderWay chain old new c start = record {
        old_word = small;
        new_word = small';
        old_way = Descent.here old;
        new_way = Descent.here new;
        old_rest = (olds, way);
        new_rest = (news, way');
      } in
      let (a, first, s) = lower_rem-UnderWay old.number start begin in
      let (le, still, word) =
        lower_rem-number chain n old.number start a (omega arith) small first in
      let (b, second, s') = lower_add-UnderWay new.number a s in
      let (level, back) =
        lower_add-number chain n new.number a b (omega (arith, still))
          (omega (arith, still, small')) le second in
      let (v, third, end) = meet-Meeting (suc b.rem.number) b (omega arith) level s' in
      (
        v,
        bind-eq (lower_rem chain old.number start)
            (λ a. lower_add chain new.number a >>= λ b. meet chain (suc b.rem.number) b) a v first
            (bind-eq (lower_add chain new.number a) (λ b. meet chain (suc b.rem.number) b) b v
              second third),
        end,
      )
