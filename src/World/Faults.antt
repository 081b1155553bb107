-- ===== src/World/Faults.antt =====
-- The nemesis actions on the world: `apply_nemesis`, crashes and restarts.
pub mod Crash
pub mod Restart
pub mod Spared
use detersim.Prelude.{
  ℕ, Bool, true, false, not, ◌&&◌, ◌||◌, Option, none, some, List, [], ◌∷◌, ◌++◌, filter, map, Map,
  lookup, lookup_or, insert, update, retain, remove, contains_key, member, set_insert, set_remove,
  ◌==◌, if◌then◌else◌,
}
use detersim.Storage
use detersim.Storage.{PageStore, empty_store}
use detersim.Nemesis.{NemesisAction}
use detersim.Nemesis.Connectivity
use detersim.Nemesis.View
use detersim.Nemesis.View.{WorldView}
use detersim.World.{
  EventKind, Keyed, TaskSlot, Inner, FaultConfig, RestartOutcome, HistoryLine, poll_task,
  timer_fire, deliver_msg, nemesis, restarted, node_missing, node_not_crashed, missing_factory,
  restart_line,
}
use detersim.World.Events.{push_event, enqueue_poll_now, add_task}

-- What is left in the queue after a crash.
unfoldable pub event_is_live_after_crash : EventKind → ℕ → List ℕ → Map ℕ → Bool
event_is_live_after_crash (poll_task task) node removed timers = not (member task removed)
event_is_live_after_crash (timer_fire timer) node removed timers = contains_key timer timers
event_is_live_after_crash (deliver_msg from to msg) node removed timers =
    not (from == node) && not (to == node)
event_is_live_after_crash (nemesis action) node removed timers = true

-- The tasks of a node.
unfoldable pub tasks_of : {Fut : Type 0} → ℕ → Map (TaskSlot Fut) → List ℕ
tasks_of node [] = []
tasks_of node ((task, slot) ∷ m) =
    let rest = tasks_of node m in if slot.node == node then task ∷ rest else rest

module _ {Fut : Type 0} where
  -- `storage.entry(node).or_default()`, changed.
  abbrev pub with_store : ℕ → (PageStore → PageStore) → Inner Fut → Inner Fut
  with_store node change g = record g {
    storage = insert node (change (lookup_or node empty_store g.storage)) g.storage;
  }

  abbrev pub with_faults : (FaultConfig → FaultConfig) → Inner Fut → Inner Fut
  with_faults change g = record g { faults = change g.faults }

  -- The part of `crash_node` up to the storage.
  unfoldable pub drop_node : ℕ → List ℕ → Inner Fut → Inner Fut
  drop_node node removed g =
      let waiters =
        map {A = ℕ × List ℕ} (λ e. (e.0, filter (λ task. not (member task removed)) e.1))
          (remove node g.recv_waiters) in
      record g {
        crashed = set_insert node g.crashed;
        inboxes = remove node g.inboxes;
        recv_waiters = waiters;
        tasks = retain (λ _ slot. not (slot.node == node)) g.tasks;
        timers = retain (λ _ task. not (member task removed)) g.timers;
      }

  unfoldable pub lose_unflushed : ℕ → Inner Fut → Inner Fut
  lose_unflushed node g =
      let bit_rot = member node g.faults.bit_rot_nodes in
      if member node g.faults.lost_on_crash_nodes || bit_rot
      then with_store node (Storage.crash_recover bit_rot) g
      else g

  unfoldable pub keep_live : ℕ → List ℕ → Inner Fut → Inner Fut
  unfolding event_is_live_after_crash
  keep_live node removed g = record g {
    queue = filter (λ e. event_is_live_after_crash e.kind node removed g.timers) g.queue;
  }

  unfoldable pub crash_node : ℕ → Inner Fut → Inner Fut
  unfolding tasks_of drop_node lose_unflushed keep_live
  crash_node node g =
      let removed = tasks_of node g.tasks in
      if member node g.nodes
      then keep_live node removed (lose_unflushed node (drop_node node removed g))
      else g

  unfoldable pub restart_precheck : ℕ → Inner Fut → RestartOutcome
  restart_precheck node g =
      if not (member node g.nodes)
      then node_missing node
      else if not (member node g.crashed)
      then node_not_crashed node
      else if not (contains_key node g.factories)
      then missing_factory node
      else restarted node

  -- The state after an action, and the outcome that a restart is checked to have.
  unfoldable pub apply_action : NemesisAction → Inner Fut → Option RestartOutcome × Inner Fut
  apply_action (NemesisAction.partition groups) g = (
    none,
    with_faults (λ f. record f { connectivity = Connectivity.partition groups f.connectivity }) g,
  )
  apply_action (NemesisAction.asymmetric_partition from to) g = (
    none,
    with_faults (λ f. record f { connectivity = Connectivity.block from to f.connectivity }) g,
  )
  apply_action (NemesisAction.set_link from to up) g = (
    none,
    with_faults (λ f. record f { connectivity = Connectivity.set_link from to up f.connectivity })
        g,
  )
  apply_action NemesisAction.heal_all g =
      (none, with_faults (λ f. record f { connectivity = Connectivity.heal_all f.connectivity }) g)
  apply_action (NemesisAction.crash node) g = (none, crash_node node g)
  apply_action (NemesisAction.restart node) g = (some (restart_precheck node g), g)
  apply_action (NemesisAction.clock_skew node offset_ns) g = (
    none,
    with_faults (λ f. record f { clock_skew_ns = insert node offset_ns f.clock_skew_ns }) g,
  )
  apply_action (NemesisAction.bit_rot node) g =
      (none, record g { storage = update node (Storage.crash_recover true) g.storage })
  apply_action (NemesisAction.torn_write node) g = (
    none,
    with_faults (λ f. record f { torn_write_nodes = set_insert node f.torn_write_nodes }) g,
  )
  apply_action (NemesisAction.lost_on_crash node) g = (
    none,
    with_faults (λ f. record f { lost_on_crash_nodes = set_insert node f.lost_on_crash_nodes }) g,
  )
  apply_action (NemesisAction.pre_fsync_reorder node) g = (
    none,
    with_faults
        (λ f. record f { pre_fsync_reorder_nodes = set_insert node f.pre_fsync_reorder_nodes }) g,
  )

  unfoldable pub apply_nemesis : NemesisAction → Inner Fut → Option RestartOutcome × Inner Fut
  unfolding apply_action
  apply_nemesis action g =
      apply_action action (record g { nemesis_trace = g.nemesis_trace ++ action ∷ [] })

  unfoldable pub world_view : Inner Fut → WorldView
  world_view g = View.new g.now g.nodes g.crashed g.faults.connectivity

  unfoldable pub spawn_registered_node : ℕ → Fut → Inner Fut → Inner Fut
  spawn_registered_node node factory g =
      let (task, g') = add_task node factory g in enqueue_poll_now task g'

  -- `none` is the panic on a node that is registered already.
  unfoldable pub add_node_factory : ℕ → Fut → Inner Fut → Option (Inner Fut)
  add_node_factory node factory g =
      let g1 = record g {
        nodes = set_insert node g.nodes;
        faults = record g.faults {
          connectivity = Connectivity.add_node node g.faults.connectivity;
        };
        inboxes = insert node (lookup_or node [] g.inboxes) g.inboxes;
        storage = insert node (lookup_or node empty_store g.storage) g.storage;
        factories = insert node factory g.factories;
      } in
      if member node g.nodes then none else some (spawn_registered_node node factory g1)

  unfoldable pub restart_node_outcome : ℕ → Inner Fut → RestartOutcome × Inner Fut
  restart_node_outcome node g =
      if not (member node g.nodes)
      then (node_missing node, g)
      else if not (member node g.crashed)
      then (node_not_crashed node, g)
      else elim (lookup node g.factories) [
        | none ↦ (missing_factory node, g)
        | some factory ↦ (
          restarted node,
          spawn_registered_node node factory (record g { crashed = set_remove node g.crashed }),
        )
      ]

  -- `World::restart_node`.
  unfoldable pub restart_node : ℕ → Inner Fut → Inner Fut
  restart_node node g =
      let (outcome, g') = restart_node_outcome node g in
      record g' { history = g'.history ++ restart_line outcome ∷ [] }
