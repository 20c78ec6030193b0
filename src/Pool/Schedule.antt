-- ===== src/Pool/Schedule.antt =====
-- scheduleReorgLoop of tx_pool.go: requests are gathered while a run of runReorg is in progress, and
-- handed to the next run. A channel that a run closes at its end is a number.
pub mod Served
use chain_master.Prelude.{
  ℕ, ◌+◌, Bool, true, false, Option, none, some, List, [], ◌∷◌, if◌then◌else◌,
}
use chain_master.Prelude.GoMap.{GoMap}
use chain_master.Pool.Tx.{Tx}
use chain_master.Pool.SortedMap.{SortedMap}
use chain_master.Pool.Accounts
use chain_master.Pool.Accounts.{AccountSet}
use chain_master.Pool.Reset.{Block}
use chain_master.Pool.Events.{put_event}

-- What arrives on the channels of requests.
pub data Request : Type 0 where
  reset_to : Option Block → Block → Request
  promote : AccountSet → Request
  queue_event : Tx → Request

-- The variables of the loop. `running` is `curDone`.
pub record Scheduler : Type 0 where
  pub running : Option ℕ
  pub next_done : ℕ
  pub launch_next_run : Bool
  pub reset : Option (Option Block × Block)
  pub dirty : Option AccountSet
  pub events : GoMap SortedMap

-- The arguments of a run.
pub record Launch : Type 0 where
  pub done : ℕ
  pub reset : Option (Option Block × Block)
  pub dirty : Option AccountSet
  pub events : GoMap SortedMap

unfoldable pub new_scheduler : Scheduler
new_scheduler = record {
  running = none;
  next_done = 0;
  launch_next_run = false;
  reset = none;
  dirty = none;
  events = [];
}

-- The first part of a round: a run starts if none is in progress and one was asked for.
unfoldable pub start_run : Scheduler → Scheduler × Option Launch
start_run s = elim s.running [
  | some done ↦ (s, none)
  | none ↦
      if s.launch_next_run
      then (
        record {
          running = some s.next_done;
          next_done = s.next_done + 1;
          launch_next_run = false;
          reset = none;
          dirty = none;
          events = [];
        },
        some (record { done = s.next_done; reset = s.reset; dirty = s.dirty; events = s.events }),
      )
      else (s, none)
]

unfoldable pub merge_reset :
    Option (Option Block × Block) → Option Block → Block → Option Block × Block
merge_reset none old_head new_head = (old_head, new_head)
merge_reset (some (first, last)) old_head new_head = (first, new_head)

unfoldable pub merge_dirty : Option AccountSet → AccountSet → AccountSet
merge_dirty none accounts = accounts
merge_dirty (some dirty) accounts = Accounts.merge dirty accounts

-- The cases of a request, with the channel that the caller is told to wait for.
unfoldable pub handle : Scheduler → Request → Scheduler × Option ℕ
handle s (reset_to old_head new_head) = (
  record s { reset = some (merge_reset s.reset old_head new_head); launch_next_run = true },
  some s.next_done,
)
handle s (promote accounts) = (
  record s { dirty = some (merge_dirty s.dirty accounts); launch_next_run = true },
  some s.next_done,
)
handle s (queue_event tx) = (record s { events = put_event s.events tx }, none)

-- Rounds that each take one request.
unfoldable pub serve : Scheduler → List Request → Scheduler
serve s [] = s
serve s (r ∷ rs) = serve (handle (start_run s).0 r).0 rs

-- The case of a run that has ended.
unfoldable pub end_run : Scheduler → Scheduler
end_run s = record s { running = none }
