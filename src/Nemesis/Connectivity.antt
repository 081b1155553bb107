-- ===== src/Nemesis/Connectivity.antt =====
-- `ConnectivityMatrix`: which directed links are up.
pub mod Links
pub mod Partition
use detersim.Prelude.{
  ℕ, zero, suc, ◌+◌, ◌≡◌, refl, Bool, true, false, not, ◌&&◌, ◌||◌, Option, none, some, List, [],
  ◌∷◌, ◌++◌, any, filter, Map, lookup, insert, member, set_insert, ◌==◌, if◌then◌else◌, arith,
}

-- A set of directed links. The program never observes its order.
abbrev pub Links : Type 0
Links = List (ℕ × ℕ)

abbrev pub same_link : ℕ → ℕ → ℕ × ℕ → Bool
same_link from to l = (l.0 == from) && (l.1 == to)

abbrev pub has_link : ℕ → ℕ → Links → Bool
has_link from to [] = false
has_link from to (l ∷ ls) = same_link from to l || has_link from to ls

pub record ConnectivityMatrix : Type 0 where
  pub nodes : List ℕ
  pub blocked : Links

abbrev pub new : ConnectivityMatrix
new = record { nodes = []; blocked = [] }

unfoldable pub add_node : ℕ → ConnectivityMatrix → ConnectivityMatrix
add_node node c = record c { nodes = set_insert node c.nodes }

unfoldable pub is_connected : ℕ → ℕ → ConnectivityMatrix → Bool
is_connected from to c =
    member from c.nodes && (member to c.nodes && not (has_link from to c.blocked))

unfoldable pub block : ℕ → ℕ → ConnectivityMatrix → ConnectivityMatrix
block from to c = record c {
  blocked = if has_link from to c.blocked then c.blocked else (from, to) ∷ c.blocked;
}

unfoldable pub allow : ℕ → ℕ → ConnectivityMatrix → ConnectivityMatrix
allow from to c = record c { blocked = filter (λ l. not (same_link from to l)) c.blocked }

unfoldable pub set_link : ℕ → ℕ → Bool → ConnectivityMatrix → ConnectivityMatrix
unfolding add_node allow block
set_link from to up c =
    let c' = add_node to (add_node from c) in if up then allow from to c' else block from to c'

unfoldable pub heal_all : ConnectivityMatrix → ConnectivityMatrix
heal_all c = record c { blocked = [] }

-- The loop over one group: its members get the group's index, and are registered.
unfoldable pub assign_group : ℕ → List ℕ → Map ℕ × ConnectivityMatrix → Map ℕ × ConnectivityMatrix
assign_group idx [] s = s
assign_group idx (node ∷ group) s = assign_group idx group (insert node idx s.0, add_node node s.1)

-- The loop over the groups, `idx` being the index of the first.
unfoldable pub assign_groups :
    ℕ → List (List ℕ) → Map ℕ × ConnectivityMatrix → Map ℕ × ConnectivityMatrix
assign_groups idx [] s = s
assign_groups idx (group ∷ groups) s = assign_groups (suc idx) groups (assign_group idx group s)

-- `==` on `Option<&usize>`.
abbrev pub same_group : Option ℕ → Option ℕ → Bool
same_group none none = true
same_group none (some b) = false
same_group (some a) none = false
same_group (some a) (some b) = a == b

unfoldable pub block_row : Map ℕ → ℕ → List ℕ → ConnectivityMatrix → ConnectivityMatrix
block_row group_of from [] c = c
block_row group_of from (to ∷ tos) c =
    block_row group_of from tos
      (if same_group (lookup from group_of) (lookup to group_of) then c else block from to c)

unfoldable pub block_rows : Map ℕ → List ℕ → List ℕ → ConnectivityMatrix → ConnectivityMatrix
block_rows group_of [] tos c = c
block_rows group_of (from ∷ froms) tos c =
    block_rows group_of froms tos (block_row group_of from tos c)

unfoldable pub partition : List (List ℕ) → ConnectivityMatrix → ConnectivityMatrix
unfolding heal_all assign_groups assign_group block_rows block_row add_node block
partition groups c =
    let (group_of, c') = assign_groups 0 groups ([], heal_all c) in
    block_rows group_of c'.nodes c'.nodes c'
