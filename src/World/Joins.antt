-- ===== src/World/Joins.antt =====
-- Spawned tasks and their join handles. The slot that a handle shares with its task is passed along.
use detersim.Prelude.{
  ℕ, ◌≡◌, refl, ◌∙◌, Bool, true, false, not, ◌||◌, Option, none, some, List, [], ◌∷◌, ◌++◌, filter,
  contains, ◌==◌, if◌then◌else◌, arith,
}
use detersim.World.{EventKind, Keyed, Inner, poll_task}
use detersim.World.Events.{push_event, push_sorted, add_task, enqueue_poll_now, enqueue_polls}
use detersim.World.Handles.{Poll, ready, pending, panicked}

pub record JoinSlot (T : Type 0) : Type 0 where
  pub done : Bool
  pub output : Option T
  pub joiners : List ℕ

module _ {T : Type 0} where
  abbrev pub new_slot : JoinSlot T
  new_slot = record { done = false; output = none; joiners = [] }

  -- `SimJoinHandle::drop`.
  unfoldable pub drop_join : Option ℕ → JoinSlot T → JoinSlot T
  drop_join none slot = slot
  drop_join (some task) slot = record slot { joiners = filter (λ t. not (t == task)) slot.joiners }

module _ {Fut T : Type 0} where
  -- `SimEnv::spawn`, given the task's wrapper: the task and its fresh slot.
  unfoldable pub spawn : ℕ → Fut → Inner Fut → JoinSlot T × Inner Fut
  spawn node wrapper g =
      let (task, g1) = add_task node wrapper g in (new_slot, enqueue_poll_now task g1)

  -- The end of the wrapper of a spawned task, once its future has given `out`.
  unfoldable pub finish : T → JoinSlot T → Inner Fut → JoinSlot T × Inner Fut
  finish out slot g =
      (record { done = true; output = some out; joiners = [] }, enqueue_polls slot.joiners g)

  -- `SimJoinHandle::poll`: the answer, the waiting task and the slot left.
  unfoldable pub poll_join : Option ℕ → JoinSlot T → Inner Fut → Poll T × Option ℕ × JoinSlot T
  poll_join waiting slot g =
      if slot.done
      then (
        elim slot.output [ none ↦ panicked | some out ↦ ready out ],
        none,
        record slot { output = none },
      )
      else elim g.current_task [
        | none ↦ (panicked, waiting, slot)
        | some task ↦ (
          pending,
          some task,
          record slot {
            joiners =
                if not (contains slot.joiners task)
                then slot.joiners ++ task ∷ []
                else slot.joiners;
          },
        )
      ]

abbrev is_poll_of : ℕ → EventKind → Bool
is_poll_of task (poll_task t) = t == task
is_poll_of task _ = false

-- A poll of the task is in the queue.
abbrev pub is_queued : ℕ → List Keyed → Bool
is_queued task [] = false
is_queued task (e ∷ q) = is_poll_of task e.kind || is_queued task q

is_queued-push_sorted :
    (task : ℕ) (e : Keyed) (q : List Keyed)
    → is_queued task (push_sorted e q) ≡ (is_poll_of task e.kind || is_queued task q)
unfolding push_sorted
is_queued-push_sorted task e [] = ground arith
is_queued-push_sorted task e (f ∷ q) = ground (arith, is_queued-push_sorted task e q)

contains-append : (ts : List ℕ) (task : ℕ) → contains (ts ++ task ∷ []) task ≡ true
contains-append [] task = ground arith
contains-append (t ∷ ts) task = ground (arith, contains-append ts task)

contains-filter_other :
    (ts : List ℕ) (task : ℕ) → contains (filter (λ t. not (t == task)) ts) task ≡ false
contains-filter_other [] task = refl
contains-filter_other (t ∷ ts) task = ground (arith, contains-filter_other ts task)

module _ {Fut : Type 0} where
  is_queued-enqueue_polls :
      (task : ℕ) (ts : List ℕ) (g : Inner Fut)
      → is_queued task (enqueue_polls ts g).queue ≡ (contains ts task || is_queued task g.queue)
  unfolding enqueue_polls enqueue_poll_now push_event
  is_queued-enqueue_polls task [] g = ground arith
  is_queued-enqueue_polls task (t ∷ ts) g =
      let e : Keyed = record { time = g.now; seq = g.seq; kind = poll_task t } in
      ground (
        arith,
        is_queued-enqueue_polls task ts (enqueue_poll_now t g),
        is_queued-push_sorted task e g.queue,
      )

module _ {Fut T : Type 0} where
  -- A task that awaits a join handle is woken: while the spawned task runs, the await is pending, and
  -- when that task ends a poll of the awaiting task is queued, whose poll of the handle gives the
  -- output. The output is taken once. A handle that is dropped first queues nothing for the task.
  pub join_wakes :
      (waiting : Option ℕ) (slot : JoinSlot T) (g later : Inner Fut) (task : ℕ) (out : T)
      → slot.done ≡ false
      → g.current_task ≡ some task
      → let (answer, waits, held) = poll_join waiting slot g in
        let (ended, woken) = finish out held later in
        let (joined, none_waits, left) = poll_join waits ended woken in
        let (unwatched, quiet) = finish out (drop_join waits held) later in
        (answer ≡ pending)
        × (is_queued task woken.queue ≡ true)
        × (joined ≡ ready out)
        × ((poll_join none_waits left woken).0 ≡ panicked)
        × (is_queued task quiet.queue ≡ is_queued task later.queue)
  unfolding poll_join finish drop_join
  join_wakes waiting slot g later task out running current =
      let js =
        if not (contains slot.joiners task) then slot.joiners ++ task ∷ [] else slot.joiners in
      let listed : contains js task ≡ true = ground (arith, contains-append slot.joiners task) in
      rw (running, current)
        (
          refl,
          is_queued-enqueue_polls task js later ∙ rw listed refl,
          refl,
          refl,
          is_queued-enqueue_polls task (filter (λ t. not (t == task)) js) later
              ∙ rw (contains-filter_other js task) refl,
        )
