-- ===== src/Nemesis/Connectivity/Links.antt =====
-- What each change of the matrix does to each directed link.
use detersim.Prelude.{
  ℕ, ◌≡◌, refl, Bool, not, ◌&&◌, ◌||◌, [], ◌∷◌, filter, member, set_insert, ◌==◌, if◌then◌else◌,
  arith, member-set_insert,
}
use detersim.Nemesis.Connectivity.{
  ConnectivityMatrix, Links, same_link, has_link, is_connected, set_link, heal_all,
}

abbrev same_pair : ℕ → ℕ → ℕ → ℕ → Bool
same_pair a b from to = (a == from) && (b == to)

has_link-filter :
    (a b from to : ℕ) (ls : Links)
    → has_link a b (filter (λ l. not (same_link from to l)) ls)
      ≡ (has_link a b ls && not (same_pair a b from to))
has_link-filter a b from to [] = refl
has_link-filter a b from to ((x, y) ∷ ls) = ground (arith, has_link-filter a b from to ls)

-- Setting a link registers its ends, puts it up or down as asked, and leaves the other links alone.
pub is_connected-set_link :
    (a b from to : ℕ) (up : Bool) (c : ConnectivityMatrix)
    → is_connected a b (set_link from to up c) ≡ (
        ((from == a) || ((to == a) || member a c.nodes))
        && (((from == b) || ((to == b) || member b c.nodes))
            && (if same_pair a b from to then up else not (has_link a b c.blocked))))
unfolding is_connected set_link
is_connected-set_link a b from to up c = ground (
  arith,
  has_link-filter a b from to c.blocked,
  member-set_insert to a (set_insert from c.nodes),
  member-set_insert from a c.nodes,
  member-set_insert to b (set_insert from c.nodes),
  member-set_insert from b c.nodes,
)

-- Healing restores every link between registered nodes, whatever was blocked.
pub is_connected-heal_all :
    (a b : ℕ) (c : ConnectivityMatrix)
    → is_connected a b (heal_all c) ≡ (member a c.nodes && member b c.nodes)
unfolding is_connected heal_all
is_connected-heal_all a b c = ground arith
