-- ===== src/Examples/Tapes.antt =====
-- The generator and the entropy tape at concrete runs.
use detersim.Prelude.{
  ◌+◌, ◌≡◌, refl, true, false, none, some, [], ◌∷◌, ◌++◌, map, length, get_or, range, ltb,
  if◌then◌else◌,
}
use detersim.Rng
use detersim.Rng.{SplitMix64, next_u64, gen_range_u64, gen_range_u64_bounds}
use detersim.Tape.{
  Client, net_delay, drop_decision, generate, replay, draw, log, events, diagnostics, run_client,
}
use detersim.Tape.Record.{IsRecorded, run_client-IsRecorded}
use detersim.Tape.Replay.{replay-run_client}
use detersim.Tape.Padding.{replay-padded}

-- Two draws, the label of the second depending on the first value.
abbrev client : Client
client [] = some net_delay
client (v ∷ []) = some (if ltb v 10 then net_delay else drop_decision)
client (v ∷ w ∷ vs) = none

first_draw : (next_u64 (Rng.new 0)).0 ≡ 0xE220_A839_7B1D_CDAF
unfolding next_u64 Rng.new
first_draw = refl

replayed_draws : (run_client 5 client [] (replay (4 ∷ []))).0 ≡ 4 ∷ 0 ∷ []
unfolding run_client draw replay
replayed_draws = refl

replay-run_client_example :
    let out = run_client 5 client [] (generate 42) in
    let again = run_client 5 client [] (replay (log out.1 ++ 8 ∷ [])) in
    (again.0 ≡ out.0)
    × (log again.1 ≡ log out.1)
    × (events again.1 ≡ events out.1)
    × (diagnostics again.1 ≡ record {
      is_replaying = true;
      input_len = some (length (log out.1) + 1);
      cursor = length (log out.1);
      consumed_all = false;
      exhausted = false;
    })
unfolding generate Rng.new
replay-run_client_example = replay-run_client 5 client (generate 42) (8 ∷ []) refl refl tt

run_client-IsRecorded_example : IsRecorded (run_client 5 client [] (replay (4 ∷ []))).1
unfolding replay
run_client-IsRecorded_example =
    run_client-IsRecorded 5 client [] (replay (4 ∷ []))
      (record { values = refl; indices = refl; cursor_fits = refl })

replay-padded_example :
    let r = (run_client 5 client [] (replay (4 ∷ []))).1 in
    log r ≡ map (λ i. get_or (4 ∷ []) i 0) (range 0 (length (log r)))
replay-padded_example = replay-padded (4 ∷ []) 5 client
