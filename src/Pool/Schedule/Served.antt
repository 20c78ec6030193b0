-- ===== src/Pool/Schedule/Served.antt =====
-- No request is lost: the run that its caller waits for has it.
use chain_master.Prelude.{
  subst, ℕ, ◌≡◌, refl, sym, ap, ◌∙◌, inl, inr, true, Option, none, some, List, [], ◌∷◌,
  Option-cases,
}
use mathlib.Core.Option.{some-injective}
use chain_master.Pool.Accounts.{AccountSet, contains, merge}
use chain_master.Pool.Accounts.Members.{insert_all-old, insert_all-new}
use chain_master.Pool.Reset.{Block}
use chain_master.Pool.Schedule.{
  Request, Scheduler, Launch, start_run, merge_reset, merge_dirty, handle, serve, end_run,
}

-- The addresses of one set are in another.
abbrev pub Within : AccountSet → AccountSet → Type 0
Within small large = (a : ℕ) → contains small a ≡ true → contains large a ≡ true

-- The new head of the last request for a reset.
abbrev pub last_head : Block → List Request → Block
last_head head [] = head
last_head head (Request.reset_to old_head new_head ∷ rs) = last_head new_head rs
last_head head (Request.promote accounts ∷ rs) = last_head head rs
last_head head (Request.queue_event tx ∷ rs) = last_head head rs

-- A run does what a request asks for, when the requests `rs` came after it.
abbrev pub Serves : Request → List Request → Launch → Type 0
Serves (Request.reset_to old_head new_head) rs run =
    (first : Option Block) × (run.reset ≡ some (first, last_head new_head rs))
Serves (Request.promote accounts) rs run =
    (dirty : AccountSet) × (run.dirty ≡ some dirty) × Within accounts dirty
Serves (Request.queue_event tx) rs run = Unit

-- A run is in progress, and the next one is asked for.
record Waits (done : ℕ) (s : Scheduler) : Type 0 where
  next : s.next_done ≡ done
  launches : s.launch_next_run ≡ true
  current : ℕ
  busy : s.running ≡ some current

busy-start : (s : Scheduler) (c : ℕ) → s.running ≡ some c → (start_run s).0 ≡ s
unfolding start_run
busy-start s c e = rw e refl

-- While a run is in progress, no other one starts.
serve_busy :
    (s : Scheduler) (c : ℕ) (r : Request) (rs : List Request)
    → s.running ≡ some c
    → serve s (r ∷ rs) ≡ serve (handle s r).0 rs
unfolding serve
serve_busy s c r rs e = ap (λ t. serve (handle t r).0 rs) (busy-start s c e)

handle-running : (s : Scheduler) (r : Request) → (handle s r).0.running ≡ s.running
unfolding handle
handle-running s (Request.reset_to old_head new_head) = refl
handle-running s (Request.promote accounts) = refl
handle-running s (Request.queue_event tx) = refl

handle-Waits : (done : ℕ) (s : Scheduler) (r : Request) → Waits done s → Waits done (handle s r).0
unfolding handle
handle-Waits done s (Request.reset_to old_head new_head) w = record {
  next = w.next;
  launches = refl;
  current = w.current;
  busy = w.busy;
}
handle-Waits done s (Request.promote accounts) w = record {
  next = w.next;
  launches = refl;
  current = w.current;
  busy = w.busy;
}
handle-Waits done s (Request.queue_event tx) w = record {
  next = w.next;
  launches = w.launches;
  current = w.current;
  busy = w.busy;
}

asked-Waits :
    (s : Scheduler) (c d : ℕ) (r : Request)
    → s.running ≡ some c
    → (handle s r).1 ≡ some d
    → Waits d (handle s r).0
unfolding handle
asked-Waits s c d (Request.reset_to old_head new_head) b e = record {
  next = some-injective _ _ e;
  launches = refl;
  current = c;
  busy = b;
}
asked-Waits s c d (Request.promote accounts) b e = record {
  next = some-injective _ _ e;
  launches = refl;
  current = c;
  busy = b;
}
asked-Waits s c d (Request.queue_event tx) b e = absurd ((cc))

serve-Waits :
    (done : ℕ) (s : Scheduler) (rs : List Request) → Waits done s → Waits done (serve s rs)
unfolding serve
serve-Waits done s [] w = w
serve-Waits done s (r ∷ rs) w =
    subst (Waits done) (sym (serve_busy s w.current r rs w.busy))
      (serve-Waits done (handle s r).0 rs (handle-Waits done s r w))

-- A waiting reset keeps its old head and takes the new one of a later request.
first-reset :
    (s : Scheduler) (old_head : Option Block) (new_head : Block)
    → s.reset ≡ none
    → (handle s (Request.reset_to old_head new_head)).0.reset ≡ some (old_head, new_head)
unfolding handle merge_reset
first-reset s old_head new_head e = ap (λ r. some (merge_reset r old_head new_head)) e

handle-reset :
    (s : Scheduler) (first old_head : Option Block) (head new_head : Block)
    → s.reset ≡ some (first, head)
    → (handle s (Request.reset_to old_head new_head)).0.reset ≡ some (first, new_head)
unfolding handle merge_reset
handle-reset s first old_head head new_head e = ap (λ r. some (merge_reset r old_head new_head)) e

serve-reset :
    (s : Scheduler) (c : ℕ) (first : Option Block) (head : Block) (rs : List Request)
    → s.running ≡ some c
    → s.reset ≡ some (first, head)
    → (serve s rs).reset ≡ some (first, last_head head rs)
unfolding serve handle
serve-reset s c first head [] b e = e
serve-reset s c first head (Request.reset_to old_head new_head ∷ rs) b e =
    let r = Request.reset_to old_head new_head in
    ap (λ t. t.reset) (serve_busy s c r rs b)
    ∙ serve-reset (handle s r).0 c first new_head rs b
        (handle-reset s first old_head head new_head e)
serve-reset s c first head (Request.promote accounts ∷ rs) b e =
    let r = Request.promote accounts in
    ap (λ t. t.reset) (serve_busy s c r rs b) ∙ serve-reset (handle s r).0 c first head rs b e
serve-reset s c first head (Request.queue_event tx ∷ rs) b e =
    let r = Request.queue_event tx in
    ap (λ t. t.reset) (serve_busy s c r rs b) ∙ serve-reset (handle s r).0 c first head rs b e

-- The dirty accounts of a scheduler, with those of a request among them.
record Gathers (accounts : AccountSet) (s : Scheduler) : Type 0 where
  dirty : AccountSet
  at : s.dirty ≡ some dirty
  within : Within accounts dirty

handle-Gathers :
    (accounts : AccountSet) (s : Scheduler) (r : Request)
    → Gathers accounts s
    → Gathers accounts (handle s r).0
unfolding handle merge_dirty merge contains
handle-Gathers accounts s (Request.reset_to old_head new_head) g = record {
  dirty = g.dirty;
  at = g.at;
  within = g.within;
}
handle-Gathers accounts s (Request.promote others) g = record {
  dirty = merge g.dirty others;
  at = ap (λ d. some (merge_dirty d others)) g.at;
  within = λ a e. insert_all-old a others.accounts g.dirty.accounts (g.within a e);
}
handle-Gathers accounts s (Request.queue_event tx) g = record {
  dirty = g.dirty;
  at = g.at;
  within = g.within;
}

serve-Gathers :
    (accounts : AccountSet) (s : Scheduler) (c : ℕ) (rs : List Request)
    → s.running ≡ some c
    → Gathers accounts s
    → Gathers accounts (serve s rs)
unfolding serve
serve-Gathers accounts s c [] b g = g
serve-Gathers accounts s c (r ∷ rs) b g = subst (Gathers accounts) (sym (serve_busy s c r rs b)) (
    serve-Gathers accounts (handle s r).0 c rs (handle-running s r ∙ b)
      (handle-Gathers accounts s r g))

promote-Gathers :
    (accounts : AccountSet) (s : Scheduler)
    → Gathers accounts (handle s (Request.promote accounts)).0
unfolding handle merge_dirty merge contains
promote-Gathers accounts s = elim (Option-cases s.dirty) [
  | inl clean ↦ record {
    dirty = accounts;
    at = ap (λ d. some (merge_dirty d accounts)) clean;
    within = λ a e. e;
  }
  | inr (old, dirty) ↦ record {
    dirty = merge old accounts;
    at = ap (λ d. some (merge_dirty d accounts)) dirty;
    within = λ a e. insert_all-new a accounts.accounts old.accounts e;
  }
]

start_run-launch :
    (s : Scheduler)
    → s.launch_next_run ≡ true
    → (start_run (end_run s)).1
      ≡ some (record { done = s.next_done; reset = s.reset; dirty = s.dirty; events = s.events })
unfolding start_run end_run
start_run-launch s e = rw e refl

Serves-later :
    (s : Scheduler) (c : ℕ) (r : Request) (rs : List Request)
    → s.running ≡ some c
    → let t = serve (handle s r).0 rs in
      Serves r rs
        (record { done = t.next_done; reset = t.reset; dirty = t.dirty; events = t.events })
Serves-later s c (Request.reset_to old_head new_head) rs b =
    let r = Request.reset_to old_head new_head in
    elim (Option-cases s.reset) [
      | inl none_yet ↦ (
        old_head,
        serve-reset (handle s r).0 c old_head new_head rs (handle-running s r ∙ b)
            (first-reset s old_head new_head none_yet),
      )
      | inr (old, waiting) ↦ (
        old.0,
        serve-reset (handle s r).0 c old.0 new_head rs (handle-running s r ∙ b)
            (handle-reset s old.0 old_head old.1 new_head waiting),
      )
    ]
Serves-later s c (Request.promote accounts) rs b =
    let r = Request.promote accounts in
    let g =
      serve-Gathers accounts (handle s r).0 c rs (handle-running s r ∙ b)
        (promote-Gathers accounts s) in
    (g.dirty, g.at, g.within)
Serves-later s c (Request.queue_event tx) rs b = tt

-- While a run is in progress, a caller asks for another one and is told to wait for the end of a run.
-- After any further requests, as soon as the run in progress has ended, the loop starts that run, and
-- it does what the caller asked for: it has all the accounts of the caller, or it resets to the new
-- head of the last request for a reset.
pub start_run-Serves :
    (s : Scheduler) (c d : ℕ) (r : Request) (rs : List Request)
    → s.running ≡ some c
    → (handle s r).1 ≡ some d
    → (run : Launch) × ((start_run (end_run (serve (handle s r).0 rs))).1 ≡ some run)
      × (run.done ≡ d)
      × Serves r rs run
start_run-Serves s c d r rs b e =
    let t = serve (handle s r).0 rs in
    let w = serve-Waits d (handle s r).0 rs (asked-Waits s c d r b e) in
    (
      record { done = t.next_done; reset = t.reset; dirty = t.dirty; events = t.events },
      start_run-launch t w.launches,
      w.next,
      Serves-later s c r rs b,
    )
