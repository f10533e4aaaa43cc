-- ===== src/Crdt/Lattice.antt =====
-- internal/crdt/lattice.go: the interface that the agreement protocol works over, and the laws that
-- it relies on, stated over the values that keep an implementation's representation invariant.
use suffren.Base.{Bool, true, ◌≡◌, ◌↔◌}

pub record Lattice (L : Type 0) : Type 0 where
  pub join : L → L → L
  pub is_in : L → L → Bool
  pub strictly_is_in : L → L → Bool
  pub bottom : L → L
  pub merge_in_place : L → L → L
  pub equals : L → L → Bool

pub record IsLattice {L : Type 0} (lat : Lattice L) (Valid : L → Type 0) (Le : L → L → Type 0)
    : Type 0 where
  pub le_refl : (x : L) → Le x x
  pub le_trans : (x y z : L) → Le x y → Le y z → Le x z
  pub is_in_iff : (x y : L) → Valid x → Valid y → (lat.is_in x y ≡ true) ↔ Le x y
  pub equals_iff : (x y : L) → Valid x → Valid y → (lat.equals x y ≡ true) ↔ (Le x y × Le y x)
  pub strictly_iff :
      (x y : L) → Valid x → Valid y → (lat.strictly_is_in x y ≡ true) ↔ (Le x y × ¬ Le y x)
  pub join_valid : (x y : L) → Valid x → Valid y → Valid (lat.join x y)
  pub join_least :
      (x y z : L)
      → Valid x
      → Valid y
      → Le x (lat.join x y) × Le y (lat.join x y) × (Le x z → Le y z → Le (lat.join x y) z)
  pub merge_valid : (x y : L) → Valid x → Valid y → Valid (lat.merge_in_place x y)
  pub merge_least :
      (x y z : L)
      → Valid x
      → Valid y
      → Le x (lat.merge_in_place x y)
        × Le y (lat.merge_in_place x y)
        × (Le x z → Le y z → Le (lat.merge_in_place x y) z)
  pub bottom_valid : (x : L) → Valid (lat.bottom x)
  pub bottom_le : (x y : L) → Le (lat.bottom x) y
