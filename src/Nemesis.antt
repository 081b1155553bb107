-- ===== src/Nemesis.antt =====
-- crates/detersim-nemesis/src/lib.rs: fault actions, the connectivity matrix and fault plans.
pub mod Connectivity
pub mod View
pub mod Plans
use detersim.Prelude.{ℕ, ℤ, Bool, List}

pub data NemesisAction : Type 0 where
  partition : (groups : List (List ℕ)) → NemesisAction
  asymmetric_partition : (from to : ℕ) → NemesisAction
  set_link : (from to : ℕ) (up : Bool) → NemesisAction
  heal_all : NemesisAction
  crash : (node : ℕ) → NemesisAction
  restart : (node : ℕ) → NemesisAction
  clock_skew : (node : ℕ) (offset_ns : ℤ) → NemesisAction
  bit_rot : (node : ℕ) → NemesisAction
  torn_write : (node : ℕ) → NemesisAction
  lost_on_crash : (node : ℕ) → NemesisAction
  pre_fsync_reorder : (node : ℕ) → NemesisAction
