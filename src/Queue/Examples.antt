-- ===== src/Queue/Examples.antt =====
-- The theorems of the queue at a small run: the transaction with nonce 1 arrives first and waits;
-- the one with nonce 0 then starts.
use openzeppelin_foundry_upg.Base.{
  nat_eq, list_eq, ℕ, ◌≡◌, ◌≤◌, ◌⊎◌, refl, true, some, false, [], ◌∷◌, ltb,
}
use openzeppelin_foundry_upg.Base.Tests.{list_beq}
use openzeppelin_foundry_upg.Base.Text.{Text}
use openzeppelin_foundry_upg.Base.Dict.{lookup, insert, erase}
use openzeppelin_foundry_upg.Base.Lists.{is_empty}
use openzeppelin_foundry_upg.Base.Weight.{indicator}
use openzeppelin_foundry_upg.Queue.State.{SignerState, empty_queue, signer_state, fresh_state}
use openzeppelin_foundry_upg.Queue.Admission.{
  admit, conflicts, enqueue, put_signer, clear_deadline, arm_deadline,
}
use openzeppelin_foundry_upg.Queue.Pump.{
  reject_below, start, wait, release, pump_from, pump_idle, pump,
}
use openzeppelin_foundry_upg.Queue.World.{World, Reach, enqueues, runs_microtask, here, next}
use openzeppelin_foundry_upg.Queue.Invariant.{run_count, scheduled, Ordered, WithinExpected}
use openzeppelin_foundry_upg.Queue.Runs.{one_at_a_time, releases_in_order, waiters_wake}
use openzeppelin_foundry_upg.Queue.Hashes.{IsIndexed, Reach-IsIndexed}
use openzeppelin_foundry_upg.Queue.Promises.{places, each_promise_once}
use openzeppelin_foundry_upg.Queue.Progress.{pump_releases, enqueue_keeps_waiters}

abbrev alice : Text
alice = 97 ∷ []

abbrev nonces : Text → ℕ
nonces _ = 0

abbrev start_world : World ℕ
start_world = record { queue = empty_queue; expected = nonces }

abbrev after_first : World ℕ
after_first = record start_world { queue = (enqueue alice 1 (1 ∷ []) start_world.queue).0 }

abbrev after_pump : World ℕ
after_pump = record after_first {
  queue = pump nonces alice (record after_first.queue { microtasks = [] });
}

abbrev after_second : World ℕ
after_second = record after_pump { queue = (enqueue alice 0 (2 ∷ []) after_pump.queue).0 }

abbrev running_world : World ℕ
running_world = record after_second {
  queue = pump nonces alice (record after_second.queue { microtasks = [] });
}

reaches_second : Reach nonces after_second
unfolding enqueue empty_queue admit lookup
reaches_second =
    next (next (next here (enqueues alice 1 (1 ∷ []))) (runs_microtask alice [] refl))
      (enqueues alice 0 (2 ∷ []))

second_tasks : after_second.queue.microtasks ≡ alice ∷ []
unfolding empty_queue enqueue admit conflicts signer_state pump pump_idle pump_from reject_below
    release wait arm_deadline put_signer is_empty lookup insert list_beq fresh_state
second_tasks = refl

reaches_running : Reach nonces running_world
reaches_running = next reaches_second (runs_microtask alice [] second_tasks)

nonce_0_starts : running_world.queue.started ≡ (alice, 0) ∷ []
unfolding empty_queue enqueue admit conflicts signer_state pump pump_idle pump_from reject_below
    release wait start arm_deadline clear_deadline put_signer is_empty lookup insert erase list_beq
    fresh_state
nonce_0_starts = refl

one_at_a_time_example : run_count alice running_world.queue.running ≤ 1
one_at_a_time_example = one_at_a_time alice reaches_running

releases_in_order_example :
    Ordered running_world.queue.started × WithinExpected nonces running_world.queue.started
releases_in_order_example = releases_in_order reaches_running

Reach-IsIndexed_example : IsIndexed running_world.queue
Reach-IsIndexed_example = Reach-IsIndexed reaches_running

each_promise_once_example :
    places 1 running_world.queue ≡ indicator (ltb 1 running_world.queue.next_promise)
each_promise_once_example = each_promise_once 1 reaches_running

abbrev waiting : SignerState
waiting = record {
  pending =
      (1, record { hash = 1 ∷ []; nonce = 1; promise = 0 })
      ∷ (0, record { hash = 2 ∷ []; nonce = 0; promise = 1 })
      ∷ [];
  cursor = some 0;
  active = false;
  deadline_handle = some 0;
}

second_state : lookup alice after_second.queue.signers ≡ some waiting
unfolding empty_queue enqueue admit conflicts signer_state pump pump_idle pump_from reject_below
    release wait arm_deadline put_signer is_empty lookup insert list_beq fresh_state
second_state = refl

waiters_wake_example :
    (run_count alice after_second.queue.running ≡ 1)
    ⊎ ((h : ℕ) × (lookup h after_second.queue.timers ≡ some alice))
    ⊎ (scheduled alice after_second.queue.microtasks ≡ true)
waiters_wake_example = waiters_wake alice waiting reaches_second second_state

pump_releases_example :
    (pump nonces alice after_second.queue).started ≡ (alice, 0) ∷ after_second.queue.started
unfolding lookup
pump_releases_example =
    pump_releases alice waiting (record { hash = 2 ∷ []; nonce = 0; promise = 1 }) reaches_second
      second_state refl refl

enqueue_keeps_waiters_example :
    lookup 1 (signer_state (enqueue alice 5 (3 ∷ []) after_second.queue).0 alice).pending
    ≡ some (record { hash = 1 ∷ []; nonce = 1; promise = 0 })
unfolding lookup signer_state
enqueue_keeps_waiters_example =
    enqueue_keeps_waiters alice 5 (3 ∷ []) alice 1
      (record { hash = 1 ∷ []; nonce = 1; promise = 0 }) reaches_second (rw second_state refl)
