-- ===== src/Check.antt =====
-- crates/detersim-check/src/lib.rs: histories, sequential models and the consistency checkers.
pub mod Precedence
pub mod Search
pub mod Space
pub mod Linearizability
pub mod Models
pub mod Artifacts
pub mod Serializability
use detersim.Prelude.{is_some, ℕ, Bool, true, false, ◌&&◌, Option, none, some, List}

pub record OpRecord (I O : Type 0) : Type 0 where
  pub id : ℕ
  pub process : ℕ
  pub invoke : ℕ
  pub complete : Option ℕ
  pub input : I
  pub output : Option O

module _ {I O : Type 0} where
  -- `OpRecord::completed_at`, and `completed` over logical indices.
  unfoldable pub completed_at : ℕ → ℕ → I → O → ℕ → ℕ → OpRecord I O
  completed_at id process input output invoke complete = record {
    id = id;
    process = process;
    invoke = invoke;
    complete = some complete;
    input = input;
    output = some output;
  }

  unfoldable pub in_flight : ℕ → ℕ → I → ℕ → OpRecord I O
  in_flight id process input call_index = record {
    id = id;
    process = process;
    invoke = call_index;
    complete = none;
    input = input;
    output = none;
  }

  unfoldable pub is_complete : OpRecord I O → Bool
  is_complete op = is_some op.output && is_some op.complete

-- `trait Model`: a sequential specification.
pub record Model : Type 1 where
  pub State : Type 0
  pub Input : Type 0
  pub Output : Type 0
  pub init : State
  pub step : State → Input → Option (State × Output)

-- A count of search steps.
pub record CheckBudget : Type 0 where
  pub max_steps : ℕ
