-- ===== src/Examples/Devices.antt =====
-- The page store at concrete contents.
use detersim.Prelude.{
  ℕ, ◌-◌, ◌≤◌, ◌<◌, min, ◌≡◌, refl, inl, true, false, none, some, List, [], ◌∷◌, ◌+◌, get_elem?,
  length, take, arith,
}
use detersim.Storage.{
  PageStore, empty_store, apply_bytes, apply_all, write_at, read_at, flush, crash_recover, torn_len,
}
use detersim.Storage.Durability.{
  IsLogged, write_all, crash_recover-flush, read_at-write_at, read_at_cases,
}
use detersim.Storage.Reorder.{flush_reorder_disjoint}

-- Two unflushed writes that do not touch.
abbrev store : PageStore
store = record {
  pending = 1 ∷ 2 ∷ 3 ∷ [];
  committed = 9 ∷ [];
  write_log = (0, 1 ∷ 2 ∷ []) ∷ (2, 3 ∷ []) ∷ [];
}

abbrev bytes : List ℕ
bytes = 5 ∷ 6 ∷ 7 ∷ []

store-IsLogged : IsLogged store
unfolding apply_all apply_bytes
store-IsLogged = refl

torn_write :
    write_at 1 (5 ∷ 6 ∷ 7 ∷ []) true empty_store
    ≡ record { pending = 0 ∷ 5 ∷ 6 ∷ []; committed = []; write_log = (1, 5 ∷ 6 ∷ []) ∷ [] }
unfolding write_at torn_len apply_bytes
torn_write = refl

rotten : (crash_recover true store).pending ≡ 8 ∷ []
unfolding crash_recover
rotten = refl

crash_recover-flush_example :
    (crash_recover false
        (write_all ((true, (0, bytes)) ∷ (false, (9, bytes)) ∷ []) (flush true store))
      ≡ flush true store)
    × (crash_recover false (flush true store) ≡ flush true store)
    × ((flush false store).committed ≡ store.pending)
crash_recover-flush_example =
    crash_recover-flush ((true, (0, bytes)) ∷ (false, (9, bytes)) ∷ []) true store

read_at-write_at_example :
    (torn_len true 3 ≤ 3)
    × (read_at 1 (torn_len true 3) (write_at 1 bytes true store)
        ≡ some (take (torn_len true 3) bytes))
    × (true ≡ false → take (torn_len true 3) bytes ≡ bytes)
read_at-write_at_example = read_at-write_at 1 bytes true store

read_at_cases_example :
    (1 ≤ 3
      → (out : List ℕ) × (read_at 1 9 store ≡ some out)
        × (length out ≡ min 9 (3 - 1))
        × ((i : ℕ) → i < length out → get_elem? out i ≡ get_elem? store.pending (1 + i)))
    × (3 < 1 → read_at 1 9 store ≡ none)
read_at_cases_example = read_at_cases 1 9 store

flush_reorder_disjoint_example : flush true store ≡ flush false store
flush_reorder_disjoint_example =
    flush_reorder_disjoint store store-IsLogged ((inl (omega arith), tt), (tt, tt))
