-- ===== src/Storage/Survival.antt =====
-- What a crash may leave of a `PageStore`, apart from the code that does it.
use Prim.Native.Nat.{bit_xor}
use detersim.Prelude.{ℕ, ◌≡◌, refl, Bool, true, false, ◌||◌, List, [], ◌∷◌, if◌then◌else◌}
use detersim.Storage.{PageStore, crash_recover, rot_first}

-- The second image is the first with the lowest bit of its first byte flipped, if it has one.
abbrev pub IsRotten : List ℕ → List ℕ → Type 0
IsRotten [] [] = Unit
IsRotten [] (c ∷ cs) = ⊥
IsRotten (b ∷ bs) [] = ⊥
IsRotten (b ∷ bs) (c ∷ cs) = (c ≡ bit_xor b 1) × (cs ≡ bs)

-- What is left of a store: first whether unflushed writes are lost, then whether bits rot.
abbrev pub Survives : Bool → Bool → PageStore → PageStore → Type 0
Survives false false before after = after ≡ before
Survives true false before after =
    (after.pending ≡ before.committed)
    × (after.committed ≡ before.committed)
    × (after.write_log ≡ [])
Survives _ true before after =
    IsRotten before.committed after.committed
    × (after.pending ≡ after.committed)
    × (after.write_log ≡ [])

rot_first-IsRotten : (bytes : List ℕ) → IsRotten bytes (rot_first bytes)
rot_first-IsRotten [] = tt
rot_first-IsRotten (b ∷ bytes) = (refl, refl)

pub recovered-Survives :
    (lost rot : Bool) (s : PageStore)
    → Survives lost rot s (if lost || rot then crash_recover rot s else s)
unfolding crash_recover
recovered-Survives false false s = refl
recovered-Survives true false s = (refl, refl, refl)
recovered-Survives false true s = (rot_first-IsRotten s.committed, refl, refl)
recovered-Survives true true s = (rot_first-IsRotten s.committed, refl, refl)
