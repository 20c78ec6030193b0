-- ===== src/Core/Transition/Monad.antt =====
-- The methods of `StateTransition` as actions on its fields. What a method wrote before it
-- returns an error stays written.
use chain_master.Prelude.{ℕ, ◌≡◌, refl, ◌⊎◌, inl, inr, arith, Bool, if◌then◌else◌}
use chain_master.Core.Run.{Error, Run, ok, err, panic}
use chain_master.Core.World.{World}

-- The fields that change, and the gas pool and the database that it points to.
pub record StateTransition (w : World) : Type 0 where
  pub gp : ℕ
  pub gas : ℕ
  pub initial_gas : ℕ
  pub state : w.State

abbrev pub Action : World → Type 0 → Type 0
Action w A = StateTransition w → Run A × StateTransition w

infixl 5 ◌>>=◌ ◌>>◌
abbrev pub resume :
    {w : World} {A B : Type 0}
    → (A → Action w B)
    → Run A × StateTransition w
    → Run B × StateTransition w
resume f (ok a, mid) = f a mid
resume f (err e, mid) = (err e, mid)
resume f (panic, mid) = (panic, mid)

abbrev pub ◌>>=◌ : {w : World} {A B : Type 0} → Action w A → (A → Action w B) → Action w B
◌>>=◌ m f st = resume f (m st)

abbrev pub ◌>>◌ : {w : World} {A B : Type 0} → Action w A → Action w B → Action w B
m >> k = m >>= λ _. k

abbrev pub pure : {w : World} {A : Type 0} → A → Action w A
pure a st = (ok a, st)

abbrev pub get : {w : World} → Action w (StateTransition w)
get st = (ok st, st)

abbrev pub put : {w : World} → StateTransition w → Action w (Unit {0})
put st' st = (ok tt, st')

abbrev pub lift : {w : World} {A : Type 0} → Run A → Action w A
lift r st = (r, st)

abbrev pub raise_if : {w : World} → Bool → Error → Action w (Unit {0})
raise_if c e st = (if c then err e else ok tt, st)

module _ {w : World} {A B : Type 0} (f : A → Action w B) (b : B) (end : StateTransition w) where
  resume-eq-ok :
      (r : Run A × StateTransition w)
      → resume f r ≡ (ok b, end)
      → (a : A) × (mid : StateTransition w) × (r ≡ (ok a, mid)) × (f a mid ≡ (ok b, end))
  resume-eq-ok (ok a, mid) h = (a, mid, refl, h)
  resume-eq-ok (err e, mid) h = ground arith
  resume-eq-ok (panic, mid) h = ground arith

  -- Inversion of a successful bind.
  pub >>=-eq-ok :
      (m : Action w A) (st : StateTransition w)
      → (m >>= f) st ≡ (ok b, end)
      → (a : A) × (mid : StateTransition w) × (m st ≡ (ok a, mid)) × (f a mid ≡ (ok b, end))
  >>=-eq-ok m st e = resume-eq-ok (m st) e

module _ {w : World} {A B : Type 0} (f : A → Action w B) (end : StateTransition w) where
  resume-eq-err :
      (x : Error) (r : Run A × StateTransition w)
      → resume f r ≡ (err x, end)
      → (r ≡ (err x, end))
        ⊎ ((a : A) × (mid : StateTransition w) × (r ≡ (ok a, mid)) × (f a mid ≡ (err x, end)))
  resume-eq-err x (ok a, mid) h = inr (a, mid, refl, h)
  resume-eq-err x (err e, mid) h = inl (ground arith)
  resume-eq-err x (panic, mid) h = ground arith

  resume-eq-panic :
      (r : Run A × StateTransition w)
      → resume f r ≡ (panic, end)
      → (r ≡ (panic, end))
        ⊎ ((a : A) × (mid : StateTransition w) × (r ≡ (ok a, mid)) × (f a mid ≡ (panic, end)))
  resume-eq-panic (ok a, mid) h = inr (a, mid, refl, h)
  resume-eq-panic (err e, mid) h = ground arith
  resume-eq-panic (panic, mid) h = inl (ground arith)

  -- A bind that fails has failed in one of its parts.
  pub >>=-eq-err :
      (m : Action w A) (st : StateTransition w) (x : Error)
      → (m >>= f) st ≡ (err x, end)
      → (m st ≡ (err x, end))
        ⊎ ((a : A) × (mid : StateTransition w) × (m st ≡ (ok a, mid)) × (f a mid ≡ (err x, end)))
  >>=-eq-err m st x e = resume-eq-err x (m st) e

  pub >>=-eq-panic :
      (m : Action w A) (st : StateTransition w)
      → (m >>= f) st ≡ (panic, end)
      → (m st ≡ (panic, end))
        ⊎ ((a : A) × (mid : StateTransition w) × (m st ≡ (ok a, mid)) × (f a mid ≡ (panic, end)))
  >>=-eq-panic m st e = resume-eq-panic (m st) e
