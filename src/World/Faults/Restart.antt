-- ===== src/World/Faults/Restart.antt =====
-- `restart_node_outcome` against its check.
use detersim.Prelude.{
  ℕ, ◌≡◌, refl, Bool, true, false, not, ◌&&◌, none, some, [], ◌∷◌, Map, lookup, contains_key,
  member, member-set_remove, arith,
}
use detersim.World.{Inner, RestartOutcome, restarted}
use detersim.World.Events.{push_event, enqueue_poll_now, add_task}
use detersim.World.Faults.{restart_precheck, restart_node_outcome, spawn_registered_node}

abbrev pub is_restarted : RestartOutcome → Bool
is_restarted (restarted node) = true
is_restarted _ = false

contains_key-lookup {ℓ} :
    {V : Type ℓ} (k : ℕ) (m : Map V)
    → contains_key k m ≡ (elim (lookup k m) [ none ↦ false | some v ↦ true ])
contains_key-lookup k [] = refl
contains_key-lookup k ((j, v) ∷ m) = ground (arith, contains_key-lookup k m)

module _ {Fut : Type 0} where
  -- A restart does what its check announces: the outcome is that of `restart_precheck`, and the node
  -- is crashed no more exactly when it was restarted.
  pub restart_node_outcome-precheck :
      (node : ℕ) (g : Inner Fut)
      → let r = restart_node_outcome node g in
        (r.0 ≡ restart_precheck node g)
        × (member node r.1.crashed ≡ (member node g.crashed && not (is_restarted r.0)))
  unfolding restart_node_outcome restart_precheck spawn_registered_node add_task enqueue_poll_now
      push_event
  restart_node_outcome-precheck node g =
      ground (arith, contains_key-lookup node g.factories, member-set_remove node node g.crashed)
