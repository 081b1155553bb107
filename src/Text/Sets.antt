-- ===== src/Text/Sets.antt =====
-- What a set of texts holds after insertions.
use detersim.Prelude.{◌≡◌, refl, ◌||◌, List, [], ◌∷◌, arith}
use detersim.Text.{Text, same_text, same_text_iff}
use detersim.Text.Search.{member_text, insert_text, insert_texts}

pub member-insert_text :
    (t u : Text) (s : List Text)
    → member_text u (insert_text t s) ≡ (same_text t u || member_text u s)
unfolding insert_text
member-insert_text t u [] = refl
member-insert_text t u (v ∷ s) =
    ground
      (arith, member-insert_text t u s, same_text_iff v t, same_text_iff t u, same_text_iff v u)

pub member-insert_texts :
    (ts : List Text) (u : Text) (s : List Text)
    → member_text u (insert_texts ts s) ≡ (member_text u ts || member_text u s)
unfolding insert_texts
member-insert_texts [] u s = refl
member-insert_texts (t ∷ ts) u s =
    ground (arith, member-insert_texts ts u (insert_text t s), member-insert_text t u s)
