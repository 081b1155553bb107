-- ===== src/Nemesis/Connectivity/Partition.antt =====
-- What a partition does to each directed link.
use detersim.Prelude.{
  ℕ, suc, ◌≡◌, refl, ◌∙◌, Bool, not, ◌&&◌, ◌||◌, Option, none, some, List, [], ◌∷◌, any, Map,
  lookup, insert, member, ◌==◌, if◌then◌else◌, arith, lookup-insert, member-set_insert, sym,
}
use detersim.Nemesis.Connectivity.{
  ConnectivityMatrix, has_link, add_node, is_connected, block, heal_all, assign_group,
  assign_groups, same_group, block_row, block_rows, partition,
}

-- The last group that holds the node, counted from `idx`.
pub group_index : ℕ → List (List ℕ) → ℕ → Option ℕ
group_index idx [] n = none
group_index idx (g ∷ gs) n = elim (group_index (suc idx) gs n) [
  | some i ↦ some i
  | none ↦ if member n g then some idx else none
]

-- Named in a group, or registered before.
abbrev pub registered : List (List ℕ) → ConnectivityMatrix → ℕ → Bool
registered groups c n = any (member n) groups || member n c.nodes

abbrev State : Type 0
State = Map ℕ × ConnectivityMatrix

lookup-assign_group :
    (idx : ℕ) (g : List ℕ) (s : State) (n : ℕ)
    → lookup n (assign_group idx g s).0 ≡ (if member n g then some idx else lookup n s.0)
unfolding assign_group
lookup-assign_group idx [] s n = refl
lookup-assign_group idx (x ∷ g) s n = ground (
  arith,
  lookup-assign_group idx g (insert x idx s.0, add_node x s.1) n,
  lookup-insert x n idx s.0,
)

member-assign_group :
    (idx : ℕ) (g : List ℕ) (s : State) (n : ℕ)
    → member n (assign_group idx g s).1.nodes ≡ (member n g || member n s.1.nodes)
unfolding assign_group add_node
member-assign_group idx [] s n = refl
member-assign_group idx (x ∷ g) s n = ground (
  arith,
  member-assign_group idx g (insert x idx s.0, add_node x s.1) n,
  member-set_insert x n s.1.nodes,
)

blocked-assign_group :
    (idx : ℕ) (g : List ℕ) (s : State) → (assign_group idx g s).1.blocked ≡ s.1.blocked
unfolding assign_group add_node
blocked-assign_group idx [] s = refl
blocked-assign_group idx (x ∷ g) s = blocked-assign_group idx g (insert x idx s.0, add_node x s.1)

abbrev or_else : Option ℕ → Option ℕ → Option ℕ
or_else (some i) o = some i
or_else none o = o

lookup-assign_groups :
    (idx : ℕ) (gs : List (List ℕ)) (s : State) (n : ℕ)
    → lookup n (assign_groups idx gs s).0 ≡ or_else (group_index idx gs n) (lookup n s.0)
unfolding assign_groups group_index
lookup-assign_groups idx [] s n = refl
lookup-assign_groups idx (g ∷ gs) s n = ground (
  arith,
  lookup-assign_groups (suc idx) gs (assign_group idx g s) n,
  lookup-assign_group idx g s n,
)

member-assign_groups :
    (idx : ℕ) (gs : List (List ℕ)) (s : State) (n : ℕ)
    → member n (assign_groups idx gs s).1.nodes ≡ (any (member n) gs || member n s.1.nodes)
unfolding assign_groups
member-assign_groups idx [] s n = refl
member-assign_groups idx (g ∷ gs) s n = ground (
  arith,
  member-assign_groups (suc idx) gs (assign_group idx g s) n,
  member-assign_group idx g s n,
)

blocked-assign_groups :
    (idx : ℕ) (gs : List (List ℕ)) (s : State) → (assign_groups idx gs s).1.blocked ≡ s.1.blocked
unfolding assign_groups
blocked-assign_groups idx [] s = refl
blocked-assign_groups idx (g ∷ gs) s =
    blocked-assign_groups (suc idx) gs (assign_group idx g s) ∙ blocked-assign_group idx g s

module _ (group_of : Map ℕ) (a b : ℕ) where
  abbrev apart : Bool
  apart = not (same_group (lookup a group_of) (lookup b group_of))

  has_link-block_row :
      (from : ℕ) (tos : List ℕ) (c : ConnectivityMatrix)
      → has_link a b (block_row group_of from tos c).blocked
        ≡ (has_link a b c.blocked || ((from == a) && (member b tos && apart)))
  unfolding block_row block
  has_link-block_row from [] c = ground arith
  has_link-block_row from (to ∷ tos) c = ground (
    arith,
    has_link-block_row from tos
        (if same_group (lookup from group_of) (lookup to group_of) then c else block from to c),
  )

  nodes-block_row :
      (from : ℕ) (tos : List ℕ) (c : ConnectivityMatrix)
      → (block_row group_of from tos c).nodes ≡ c.nodes
  unfolding block_row block
  nodes-block_row from [] c = refl
  nodes-block_row from (to ∷ tos) c = nodes-block_row from tos _ ∙ ground arith

  has_link-block_rows :
      (froms tos : List ℕ) (c : ConnectivityMatrix)
      → has_link a b (block_rows group_of froms tos c).blocked
        ≡ (has_link a b c.blocked || (member a froms && (member b tos && apart)))
  unfolding block_rows
  has_link-block_rows [] tos c = ground arith
  has_link-block_rows (from ∷ froms) tos c = ground (
    arith,
    has_link-block_rows froms tos (block_row group_of from tos c),
    has_link-block_row from tos c,
  )

  nodes-block_rows :
      (froms tos : List ℕ) (c : ConnectivityMatrix)
      → (block_rows group_of froms tos c).nodes ≡ c.nodes
  unfolding block_rows
  nodes-block_rows [] tos c = refl
  nodes-block_rows (from ∷ froms) tos c =
      nodes-block_rows froms tos (block_row group_of from tos c) ∙ nodes-block_row from tos c

-- After a partition two nodes are linked exactly when both are registered and the last groups that
-- name them are the same, two nodes that no group names counting as one group. What was blocked
-- before makes no difference, and the relation is the same in both directions.
pub is_connected-partition :
    (a b : ℕ) (groups : List (List ℕ)) (c : ConnectivityMatrix)
    → (is_connected a b (partition groups c) ≡ (
        registered groups c a
        && (registered groups c b && same_group (group_index 0 groups a) (group_index 0 groups b))))
      × (is_connected a b (partition groups c) ≡ is_connected b a (partition groups c))
is_connected-partition a b groups c = (whole a b, whole a b ∙ ground arith ∙ sym (whole b a))
  where
    whole :
        (x y : ℕ)
        → is_connected x y (partition groups c) ≡ (
            registered groups c x
            && (registered groups c y
                && same_group (group_index 0 groups x) (group_index 0 groups y)))
    whole x y =
        let s : State = assign_groups 0 groups ([], heal_all c) in
        let clear : s.1.blocked ≡ [] =
          unfold heal_all in blocked-assign_groups 0 groups ([], heal_all c) in
        unfold partition is_connected heal_all in
        ground (
          arith,
          clear,
          nodes-block_rows s.0 x y s.1.nodes s.1.nodes s.1,
          has_link-block_rows s.0 x y s.1.nodes s.1.nodes s.1,
          member-assign_groups 0 groups ([], heal_all c) x,
          member-assign_groups 0 groups ([], heal_all c) y,
          lookup-assign_groups 0 groups ([], heal_all c) x,
          lookup-assign_groups 0 groups ([], heal_all c) y,
        )
