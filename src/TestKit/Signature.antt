-- ===== src/TestKit/Signature.antt =====
-- `FailureSignature`, its derived equality and order.
use detersim.Prelude.{
  ℕ, ◌≡◌, Bool, true, false, ◌&&◌, ◌||◌, ◌↔◌, Option, none, some, ◌==◌, ltb, Eq, arith,
}
use detersim.Text.{Text, same_text, same_text_iff}
use detersim.Text.Search.{text_lt}

pub data FailureSignature : Type 0 where
  invariant_violated : (name : Text) → FailureSignature
  not_linearizable : (conflict : Option (ℕ × ℕ)) (model : Text) → FailureSignature
  deadlock : FailureSignature
  panic : (label : Text) → FailureSignature
  storage_corruption : (label : Text) → FailureSignature

abbrev same_conflict : Option (ℕ × ℕ) → Option (ℕ × ℕ) → Bool
same_conflict none none = true
same_conflict none (some b) = false
same_conflict (some a) none = false
same_conflict (some (a, b)) (some (c, d)) = (a == c) && (b == d)

same_conflict_iff : (a b : Option (ℕ × ℕ)) → (same_conflict a b ≡ true) ↔ (a ≡ b)
same_conflict_iff none none = ground arith
same_conflict_iff none (some b) = ground arith
same_conflict_iff (some a) none = ground arith
same_conflict_iff (some (a, b)) (some (c, d)) = ground arith

abbrev pub same_signature : FailureSignature → FailureSignature → Bool
same_signature (invariant_violated s) (invariant_violated t) = same_text s t
same_signature (not_linearizable a s) (not_linearizable b t) = same_conflict a b && same_text s t
same_signature deadlock deadlock = true
same_signature (panic s) (panic t) = same_text s t
same_signature (storage_corruption s) (storage_corruption t) = same_text s t
same_signature _ _ = false

pub same_signature_iff : (a b : FailureSignature) → (same_signature a b ≡ true) ↔ (a ≡ b)
same_signature_iff (invariant_violated s) (invariant_violated t) = ground (arith, same_text_iff s t)
same_signature_iff (not_linearizable a s) (not_linearizable b t) =
    ground (arith, same_text_iff s t, same_conflict_iff a b)
same_signature_iff deadlock deadlock = ground arith
same_signature_iff (panic s) (panic t) = ground (arith, same_text_iff s t)
same_signature_iff (storage_corruption s) (storage_corruption t) = ground (arith, same_text_iff s t)
same_signature_iff _ _ = ground arith

instance abbrev pub signature_eq : Eq FailureSignature
signature_eq = record { beq = same_signature; beq_iff = same_signature_iff }

-- The derived order: the constructors in order, then their fields.
abbrev rank : FailureSignature → ℕ
rank (invariant_violated name) = 0
rank (not_linearizable conflict model) = 1
rank deadlock = 2
rank (panic label) = 3
rank (storage_corruption label) = 4

abbrev conflict_lt : Option (ℕ × ℕ) → Option (ℕ × ℕ) → Bool
conflict_lt none none = false
conflict_lt none (some b) = true
conflict_lt (some a) none = false
conflict_lt (some (a, b)) (some (c, d)) = ltb a c || (a == c) && ltb b d

abbrev pub signature_lt : FailureSignature → FailureSignature → Bool
signature_lt (invariant_violated s) (invariant_violated t) = text_lt s t
signature_lt (not_linearizable a s) (not_linearizable b t) =
    conflict_lt a b || same_conflict a b && text_lt s t
signature_lt (panic s) (panic t) = text_lt s t
signature_lt (storage_corruption s) (storage_corruption t) = text_lt s t
signature_lt a b = ltb (rank a) (rank b)
