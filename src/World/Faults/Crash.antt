-- ===== src/World/Faults/Crash.antt =====
-- What `crash_node` leaves of a node, of the other nodes and of its store.
use detersim.Prelude.{
  remove, All-imp, ℕ, ◌≡◌, refl, subst, sym, ap, ◌∙◌, true, false, not, ◌||◌, inl, inr, none, some,
  filter, Map, lookup, lookup_or, insert, lookup-insert, retain, member, All, Entries, Entries-imp,
  member-set_insert, lookup-remove, ==_refl, ◌==◌, if◌then◌else◌, arith, Bool-cases,
}
use detersim.Storage.{PageStore, crash_recover, empty_store}
use detersim.Storage.Survival.{Survives, recovered-Survives}
use detersim.World.Faults.Spared.{
  waits_on, filter_All, filter_keeps, retain_Entries, lookup-retain, lookup-map, map_Entries,
  live-IsUnrelated, unrelated_live, IsUnrelated, IsSpared,
}
use detersim.World.{Keyed, Inner}
use detersim.World.Faults.{
  event_is_live_after_crash, with_store, tasks_of, crash_node, drop_node, lose_unflushed, keep_live,
}

lookup_or-insert {ℓ} : {V : Type ℓ} (k : ℕ) (d v : V) (m : Map V) → lookup_or k d (insert k v m) ≡ v
lookup_or-insert k d v m =
    let hit : lookup k (insert k v m) ≡ some v =
      lookup-insert k k v m ∙ ap (λ b. if b then some v else lookup k m) (==_refl k) in
    rw (lookup_or, hit) refl

module _ {Fut : Type 0} where
  -- What ran at the node is gone: it is marked as crashed, it has no inbox, no waiters and no tasks, no
  -- task it had waits anywhere or has a timer, and each event left is for a task it did not have, for
  -- a timer that is left, for a message between other nodes, or a fault.
  pub record IsGone (node : ℕ) (before after : Inner Fut) : Type 0 where
    pub marked : member node after.crashed ≡ true
    pub inbox : lookup node after.inboxes ≡ none
    pub no_waiters : lookup node after.recv_waiters ≡ none
    pub no_tasks : Entries (λ _ slot. (slot.node == node) ≡ false) after.tasks
    pub no_waiting :
        Entries
          (λ _ tasks. All (λ task. member task (tasks_of node before.tasks) ≡ false) tasks)
          after.recv_waiters
    pub no_timers :
        Entries (λ _ task. member task (tasks_of node before.tasks) ≡ false) after.timers
    pub events :
        All (λ e. IsUnrelated node (tasks_of node before.tasks) after.timers e.kind) after.queue

  pub lose_unflushed-storage :
      (node : ℕ) (g : Inner Fut)
      → (s : Map PageStore) × (lose_unflushed node g ≡ record g { storage = s })
        × ((other : ℕ) → ¬ (other ≡ node) → lookup other s ≡ lookup other g.storage)
  unfolding lose_unflushed
  lose_unflushed-storage node g =
      let rot = member node g.faults.bit_rot_nodes in
      elim (Bool-cases (member node g.faults.lost_on_crash_nodes || rot)) [
        | inl lost ↦ (
          (with_store node (crash_recover rot) g).storage,
          rw lost refl,
          λ other differs. ground (
            arith,
            differs,
            lookup-insert node other (crash_recover rot (lookup_or node empty_store g.storage))
                g.storage,
          ),
        )
        | inr kept ↦ (g.storage, rw kept refl, λ other differs. refl)
      ]

  pub crash_node_known :
      (node : ℕ) (g : Inner Fut)
      → member node g.nodes ≡ true
      → crash_node node g
        ≡ keep_live node
            (tasks_of node g.tasks)
            (lose_unflushed node (drop_node node (tasks_of node g.tasks) g))
  unfolding crash_node
  crash_node_known node g h = rw h refl

  keep_live-IsGone :
      (node : ℕ) (g : Inner Fut) (s : Map PageStore)
      → IsGone node g (
          keep_live node
            (tasks_of node g.tasks)
            (record (drop_node node (tasks_of node g.tasks) g) { storage = s }))
  unfolding keep_live drop_node
  keep_live-IsGone node g s =
      let removed = tasks_of node g.tasks in
      let left = retain (λ _ task. not (member task removed)) g.timers in
      let live = λ (e : Keyed). event_is_live_after_crash e.kind node removed left in
      record {
        marked = ground (arith, member-set_insert node node g.crashed);
        inbox = ground (arith, lookup-remove node node g.inboxes);
        no_waiters =
            let none_left : lookup node (remove node g.recv_waiters) ≡ none =
              ground (arith, lookup-remove node node g.recv_waiters) in
            rw none_left at (
              lookup-map (filter (λ task. not (member task removed))) node
                (remove node g.recv_waiters));
        no_waiting =
            Entries-imp _ _ _ (λ _ tasks h. All-imp _ _ tasks (λ task kept. ground arith) h)
              (map_Entries (λ task. not (member task removed)) (remove node g.recv_waiters));
        no_tasks =
            Entries-imp _ _ (retain (λ _ slot. not (slot.node == node)) g.tasks)
              (λ k slot h. ground arith)
              (retain_Entries (λ _ slot. not (slot.node == node)) g.tasks);
        no_timers =
            Entries-imp _ _ (retain (λ _ task. not (member task removed)) g.timers)
              (λ k task h. ground arith)
              (retain_Entries (λ _ task. not (member task removed)) g.timers);
        events =
            All-imp _ _ (filter live g.queue) (λ e h. live-IsUnrelated node removed left e.kind h)
              (filter_All live g.queue);
      }

  keep_live-IsSpared :
      (node : ℕ) (g : Inner Fut) (s : Map PageStore)
      → ((other : ℕ) → ¬ (other ≡ node) → lookup other s ≡ lookup other g.storage)
      → IsSpared node g (
          keep_live node
            (tasks_of node g.tasks)
            (record (drop_node node (tasks_of node g.tasks) g) { storage = s }))
  unfolding keep_live drop_node
  keep_live-IsSpared node g s same =
      let removed = tasks_of node g.tasks in
      let left = retain (λ _ task. not (member task removed)) g.timers in
      let live = λ (e : Keyed). event_is_live_after_crash e.kind node removed left in
      record {
        marks = λ other differs. ground (arith, differs, member-set_insert node other g.crashed);
        inboxes = λ other differs. ground (arith, differs, lookup-remove node other g.inboxes);
        stores = same;
        tasks = λ task slot at differs.
            lookup-retain (λ _ slot. not (slot.node == node)) task slot g.tasks at
              (ground (arith, differs));
        waiting =
            λ other task differs kept. waits_on node other task removed g.recv_waiters differs kept;
        timers = λ timer task at kept.
            lookup-retain (λ _ task. not (member task removed)) timer task g.timers at
              (ground (arith, kept));
        events = λ i e at h.
            filter_keeps live g.queue i e at (unrelated_live node removed left e.kind h);
        rest = refl;
      }

  -- A crash of a registered node removes what runs at it: it is marked as crashed, its inbox, its
  -- waiters, its tasks and their timers are gone, its tasks wait at no other node either, and no event
  -- is left for its tasks, for a timer that is not left, or for a message from or to it. The other
  -- nodes' marks, inboxes, stores, tasks, waiting tasks and timers are left, as is every event not
  -- named above. No further field of the world changes: the factories, random counters, clock
  -- readings, faults and links, the node's own included, the tape, the trace and the history stay.
  pub crash_node-IsGone :
      (node : ℕ) (g : Inner Fut)
      → member node g.nodes ≡ true
      → IsGone node g (crash_node node g) × IsSpared node g (crash_node node g)
  crash_node-IsGone node g h =
      let removed = tasks_of node g.tasks in
      let (s, e, same) = lose_unflushed-storage node (drop_node node removed g) in
      let stores : (other : ℕ) → ¬ (other ≡ node) → lookup other s ≡ lookup other g.storage =
        unfold drop_node in same in
      subst (λ after. IsGone node g after × IsSpared node g after)
        (sym (crash_node_known node g h ∙ ap (keep_live node removed) e))
        (keep_live-IsGone node g s, keep_live-IsSpared node g s stores)

  lose_unflushed_store :
      (node : ℕ) (g : Inner Fut)
      → lookup_or node empty_store (lose_unflushed node g).storage ≡ (
          if member node g.faults.lost_on_crash_nodes || member node g.faults.bit_rot_nodes
          then crash_recover
              (member node g.faults.bit_rot_nodes)
              (lookup_or node empty_store g.storage)
          else lookup_or node empty_store g.storage)
  unfolding lose_unflushed
  lose_unflushed_store node g =
      elim (Bool-cases
        (member node g.faults.lost_on_crash_nodes || member node g.faults.bit_rot_nodes)) [
          | inl lost ↦ rw lost (lookup_or-insert node empty_store _ g.storage)
          | inr kept ↦ rw kept refl
        ]

  -- What a crash does to the store of a registered node. Without the lost-on-crash and the bit-rot
  -- fault the store is as it was, unflushed writes included. Under the first alone, both images are
  -- the committed one. Under the second, with or without the first, both are that image with the
  -- lowest bit of its first byte flipped. Under either, no write is logged any more.
  pub crash_node-storage :
      (node : ℕ) (g : Inner Fut)
      → member node g.nodes ≡ true
      → Survives
          (member node g.faults.lost_on_crash_nodes)
          (member node g.faults.bit_rot_nodes)
          (lookup_or node empty_store g.storage)
          (lookup_or node empty_store (crash_node node g).storage)
  unfolding keep_live drop_node
  crash_node-storage node g h =
      subst
        (Survives (member node g.faults.lost_on_crash_nodes) (member node g.faults.bit_rot_nodes)
          (lookup_or node empty_store g.storage))
        (sym (
          ap (λ (w : Inner Fut). lookup_or node empty_store w.storage) (crash_node_known node g h)
          ∙ lose_unflushed_store node (drop_node node (tasks_of node g.tasks) g)))
        (recovered-Survives (member node g.faults.lost_on_crash_nodes)
          (member node g.faults.bit_rot_nodes) (lookup_or node empty_store g.storage))
