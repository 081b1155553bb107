-- ===== src/Nemesis/View.antt =====
-- `WorldView`: the snapshot that a plan may read.
use detersim.Prelude.{
  ℕ, ◌≡◌, refl, not, ◌&&◌, List, [], ◌∷◌, filter, member, set_insert, arith, member-set_insert,
}
use detersim.Nemesis.Connectivity.{ConnectivityMatrix}

pub record WorldView : Type 0 where
  pub now : ℕ
  pub nodes : List ℕ
  pub crashed : List ℕ
  pub connectivity : ConnectivityMatrix

-- `sort_unstable` and `dedup`.
unfoldable pub normalize : List ℕ → List ℕ
normalize [] = []
normalize (n ∷ ns) = set_insert n (normalize ns)

unfoldable pub new : ℕ → List ℕ → List ℕ → ConnectivityMatrix → WorldView
unfolding normalize
new now nodes crashed connectivity = record {
  now = now;
  nodes = normalize nodes;
  crashed = crashed;
  connectivity = connectivity;
}

unfoldable pub live_nodes : WorldView → List ℕ
live_nodes v = filter (λ node. not (member node v.crashed)) v.nodes

member-normalize : (n : ℕ) (ns : List ℕ) → member n (normalize ns) ≡ member n ns
unfolding normalize
member-normalize n [] = refl
member-normalize n (x ∷ ns) =
    ground (arith, member-set_insert x n (normalize ns), member-normalize n ns)

member-live :
    (n : ℕ) (crashed ns : List ℕ)
    → member n (filter (λ node. not (member node crashed)) ns)
      ≡ (member n ns && not (member n crashed))
member-live n crashed [] = refl
member-live n crashed (x ∷ ns) = ground (arith, member-live n crashed ns)

-- The live nodes of a view are the given ones that have not crashed.
pub member-live_nodes :
    (n now : ℕ) (nodes crashed : List ℕ) (m : ConnectivityMatrix)
    → member n (live_nodes (new now nodes crashed m)) ≡ (member n nodes && not (member n crashed))
unfolding live_nodes new
member-live_nodes n now nodes crashed m =
    ground (arith, member-live n crashed (normalize nodes), member-normalize n nodes)
