-- ===== src/Check/Artifacts.antt =====
-- Checker artifacts and their JSON.
use Prim.Native.String.{String}
use detersim.Prelude.{ℕ, Bool, false, Option, none, some, List, [], ◌∷◌, ◌++◌, map, if◌then◌else◌}
use detersim.Text.{Text, codes, show_ℕ, join}
use detersim.Text.Json.{escape_json}
use detersim.Check.Linearizability.{LinearizabilityResult, CheckerStats, checker_stats}
use detersim.Check.Serializability.{SerializableResult}

pub record CheckerArtifact : Type 0 where
  pub model : Text
  pub outcome : Text
  pub stats : CheckerStats
  pub details : List Text

abbrev lin_outcome : LinearizabilityResult → String
lin_outcome (LinearizabilityResult.linearizable order) = "linearizable"
lin_outcome (LinearizabilityResult.not_linearizable conflict minimal explored exhausted) =
    "not-linearizable"
lin_outcome (LinearizabilityResult.inconclusive explored exhausted) = "inconclusive"

unfoldable pub checker_artifact : Text → LinearizabilityResult → CheckerArtifact
checker_artifact model result = record {
  model = model;
  outcome = codes (lin_outcome result);
  stats = checker_stats result;
  details = [];
}

abbrev txn_stats : List ℕ → List ℕ → List ℕ → ℕ → Bool → CheckerStats
txn_stats order conflict minimal explored exhausted = record {
  witness_order = order;
  conflict = conflict;
  minimal = minimal;
  explored_states = explored;
  budget_exhausted = exhausted;
}

abbrev both_of : Option (ℕ × ℕ) → List ℕ
both_of none = []
both_of (some (left, right)) = left ∷ right ∷ []

abbrev txn_artifact : Text → String → CheckerStats → CheckerArtifact
txn_artifact model outcome stats = record {
  model = model;
  outcome = codes outcome;
  stats = stats;
  details = [];
}

-- The artifact of a `SerializableResult`.
unfoldable pub serializable_artifact : Text → SerializableResult → CheckerArtifact
serializable_artifact model (SerializableResult.serializable order) =
    txn_artifact model "serializable" (txn_stats order [] [] 0 false)
serializable_artifact model
      (SerializableResult.not_serializable conflict minimal explored exhausted) =
    txn_artifact model "not-serializable"
      (txn_stats [] (both_of conflict) minimal explored exhausted)
serializable_artifact model (SerializableResult.inconclusive explored exhausted) =
    txn_artifact model "inconclusive" (txn_stats [] [] [] explored exhausted)

unfoldable pub u64_array : List ℕ → Text
u64_array values = codes "[" ++ (join b',' (map show_ℕ values) ++ codes "]")

abbrev quoted : Text → Text
quoted t = codes "\"" ++ (escape_json t ++ codes "\"")

unfoldable pub string_array : List Text → Text
string_array values = codes "[" ++ (join b',' (map quoted values) ++ codes "]")

-- A field of the object, after the ones before it.
abbrev field : String → Text → Text
field name value = codes ",\"" ++ (codes name ++ (codes "\":" ++ value))

unfoldable pub to_json : CheckerArtifact → Text
unfolding u64_array string_array
to_json a =
    codes "{\"schema_version\":3"
    ++ (field "model" (quoted a.model)
        ++ (field "outcome" (quoted a.outcome)
            ++ (field "witness_order" (u64_array a.stats.witness_order)
                ++ (field "conflict_ops" (u64_array a.stats.conflict)
                    ++ (field "minimal_subhistory" (u64_array a.stats.minimal)
                        ++ (field "explored_states" (show_ℕ a.stats.explored_states)
                            ++ (field "budget_exhausted"
                                  (codes (if a.stats.budget_exhausted then "true" else "false"))
                                ++ (field "details" (string_array a.details) ++ codes "}"))))))))
