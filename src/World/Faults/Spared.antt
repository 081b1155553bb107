-- ===== src/World/Faults/Spared.antt =====
-- What `crash_node` removes from the maps and the queue of the world, and what it leaves in them.
use detersim.Prelude.{
  map, ℕ, zero, suc, ◌≡◌, refl, Bool, true, false, not, remove, inl, inr, none, some, List, [], ◌∷◌,
  filter, Map, lookup, lookup-remove, Option-cases, retain, contains_key, member, All, Entries,
  get_elem?, ◌==◌, arith, Bool-cases,
}
use detersim.World.{TaskSlot, EventKind, Keyed, Inner, poll_task, timer_fire, deliver_msg, nemesis}
use detersim.World.Faults.{event_is_live_after_crash, tasks_of}

pub filter_All {ℓ} : {A : Type ℓ} (p : A → Bool) (xs : List A) → All (λ a. p a ≡ true) (filter p xs)
filter_All p [] = tt
filter_All p (x ∷ xs) = elim (Bool-cases (p x)) [
  | inl e ↦ rw e (e, filter_All p xs)
  | inr e ↦ rw e (filter_All p xs)
]

pub filter_keeps {ℓ} :
    {A : Type ℓ} (p : A → Bool) (xs : List A) (i : ℕ) (a : A)
    → get_elem? xs i ≡ some a
    → p a ≡ true
    → (j : ℕ) × (get_elem? (filter p xs) j ≡ some a)
filter_keeps p [] i a at h = absurd (ground (arith, at))
filter_keeps p (x ∷ xs) zero a at h = let e : p x ≡ true = ground (arith, at, h) in (0, rw e at)
filter_keeps p (x ∷ xs) (suc i) a at h =
    let (j, place) = filter_keeps p xs i a at h in
    elim (Bool-cases (p x)) [ inl e ↦ (suc j, rw e place) | inr e ↦ (j, rw e place) ]

pub retain_Entries {ℓ} :
    {V : Type ℓ} (p : ℕ → V → Bool) (m : Map V) → Entries (λ k v. p k v ≡ true) (retain p m)
retain_Entries p [] = tt
retain_Entries p ((k, v) ∷ m) = elim (Bool-cases (p k v)) [
  | inl e ↦ rw e (e, retain_Entries p m)
  | inr e ↦ rw e (retain_Entries p m)
]

pub lookup-retain {ℓ} :
    {V : Type ℓ} (p : ℕ → V → Bool) (k : ℕ) (v : V) (m : Map V)
    → lookup k m ≡ some v
    → p k v ≡ true
    → lookup k (retain p m) ≡ some v
lookup-retain p k v [] at h = absurd (ground (arith, at))
lookup-retain p k v ((j, w) ∷ m) at h = ground (arith, at, h, lookup-retain p k v m)

pub lookup-map :
    (f : List ℕ → List ℕ) (k : ℕ) (m : Map (List ℕ))
    → lookup k (map {A = ℕ × List ℕ} (λ e. (e.0, f e.1)) m)
      ≡ (elim (lookup k m) [ none ↦ none | some v ↦ some (f v) ])
lookup-map f k [] = refl
lookup-map f k ((j, v) ∷ m) = elim (Bool-cases (j == k)) [
  | inl hit ↦ rw hit refl
  | inr miss ↦ rw miss (lookup-map f k m)
]

pub map_Entries :
    (p : ℕ → Bool) (m : Map (List ℕ))
    → Entries
        (λ _ tasks. All (λ task. p task ≡ true) tasks)
        (map {A = ℕ × List ℕ} (λ e. (e.0, filter p e.1)) m)
map_Entries p [] = tt
map_Entries p ((k, tasks) ∷ m) = (filter_All p tasks, map_Entries p m)

pub member-filter :
    (p : ℕ → Bool) (task : ℕ) (tasks : List ℕ)
    → p task ≡ true
    → member task (filter p tasks) ≡ member task tasks
member-filter p task [] h = refl
member-filter p task (t ∷ tasks) h = ground (arith, h, member-filter p task tasks h)

-- An event that the crash of the node leaves: a poll of a task that is not removed, the firing of a
-- timer that is left, a message between other nodes, or a fault.
abbrev pub IsUnrelated : ℕ → List ℕ → Map ℕ → EventKind → Type 0
IsUnrelated node removed timers (poll_task task) = member task removed ≡ false
IsUnrelated node removed timers (timer_fire timer) = contains_key timer timers ≡ true
IsUnrelated node removed timers (deliver_msg from to msg) = ¬ (from ≡ node) × ¬ (to ≡ node)
IsUnrelated node removed timers (nemesis action) = Unit

pub live-IsUnrelated :
    (node : ℕ) (removed : List ℕ) (timers : Map ℕ) (kind : EventKind)
    → event_is_live_after_crash kind node removed timers ≡ true
    → IsUnrelated node removed timers kind
unfolding event_is_live_after_crash
live-IsUnrelated node removed timers (poll_task task) h = ground (arith, h)
live-IsUnrelated node removed timers (timer_fire timer) h = h
live-IsUnrelated node removed timers (deliver_msg from to msg) h =
    (λ e. absurd (ground (arith, h, e)), λ e. absurd (ground (arith, h, e)))
live-IsUnrelated node removed timers (nemesis action) h = tt

pub unrelated_live :
    (node : ℕ) (removed : List ℕ) (timers : Map ℕ) (kind : EventKind)
    → IsUnrelated node removed timers kind
    → event_is_live_after_crash kind node removed timers ≡ true
unfolding event_is_live_after_crash
unrelated_live node removed timers (poll_task task) h = ground (arith, h)
unrelated_live node removed timers (timer_fire timer) h = h
unrelated_live node removed timers (deliver_msg from to msg) h = ground (arith, h.0, h.1)
unrelated_live node removed timers (nemesis action) h = refl

-- The task is among those that wait for a message to the node.
abbrev pub waits_at : ℕ → ℕ → Map (List ℕ) → Bool
waits_at node task waiters = elim (lookup node waiters) [
  | none ↦ false
  | some tasks ↦ member task tasks
]

-- Removing a node's tasks from the waiters changes nothing for the others at another node.
pub waits_on :
    (node other task : ℕ) (removed : List ℕ) (waiters : Map (List ℕ))
    → ¬ (other ≡ node)
    → member task removed ≡ false
    → waits_at other task (
        map {A = ℕ × List ℕ}
          (λ e. (e.0, filter (λ t. not (member t removed)) e.1))
          (remove node waiters))
      ≡ waits_at other task waiters
waits_on node other task removed waiters differs kept =
    let live = λ (t : ℕ). not (member t removed) in
    let there : lookup other (remove node waiters) ≡ lookup other waiters =
      ground (arith, differs, lookup-remove node other waiters) in
    let mapped = rw there at (lookup-map (filter live) other (remove node waiters)) in
    elim (Option-cases (lookup other waiters)) [
      | inl e ↦ rw (waits_at, rw e at mapped, e) refl
      | inr (tasks, e) ↦
          rw (waits_at, rw e at mapped, e) (member-filter live task tasks (ground (arith, kept)))
    ]

module _ {Fut : Type 0} where
  -- What the other nodes have is left: their mark, inboxes and stores, their tasks, and the waiting,
  -- the timers and the events of those. All else, the node's own factory, random counter, last clock
  -- reading, faults and links included, is as it was.
  pub record IsSpared (node : ℕ) (before after : Inner Fut) : Type 0 where
    pub marks :
        (other : ℕ) → ¬ (other ≡ node) → member other after.crashed ≡ member other before.crashed
    pub inboxes :
        (other : ℕ) → ¬ (other ≡ node) → lookup other after.inboxes ≡ lookup other before.inboxes
    pub stores :
        (other : ℕ) → ¬ (other ≡ node) → lookup other after.storage ≡ lookup other before.storage
    pub tasks :
        (task : ℕ) (slot : TaskSlot Fut)
        → lookup task before.tasks ≡ some slot
        → ¬ (slot.node ≡ node)
        → lookup task after.tasks ≡ some slot
    pub waiting :
        (other task : ℕ)
        → ¬ (other ≡ node)
        → member task (tasks_of node before.tasks) ≡ false
        → waits_at other task after.recv_waiters ≡ waits_at other task before.recv_waiters
    pub timers :
        (timer task : ℕ)
        → lookup timer before.timers ≡ some task
        → member task (tasks_of node before.tasks) ≡ false
        → lookup timer after.timers ≡ some task
    pub events :
        (i : ℕ) (e : Keyed)
        → get_elem? before.queue i ≡ some e
        → IsUnrelated node (tasks_of node before.tasks) after.timers e.kind
        → (j : ℕ) × (get_elem? after.queue j ≡ some e)
    pub rest : after ≡ record before {
      crashed = after.crashed;
      inboxes = after.inboxes;
      storage = after.storage;
      tasks = after.tasks;
      recv_waiters = after.recv_waiters;
      timers = after.timers;
      queue = after.queue;
    }
