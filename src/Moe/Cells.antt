-- ===== src/Moe/Cells.antt =====
-- Writes to one cell of the placement.
use chitu.Base.{
  ℕ, zero, suc, ◌≡◌, refl, ap, List, [], ◌∷◌, get_elem?-lt, get_elem?-set_self, get_elem?-set_ne,
  some,
}
use chitu.Moe.Placement.{cell, set_cell}

pub cell-set_cell_self :
    (m : List (List ℕ)) (r s e : ℕ) {old : ℕ}
    → cell m r s ≡ some old
    → cell (set_cell m r s e) r s ≡ some e
cell-set_cell_self [] r s e h = cc
cell-set_cell_self (row ∷ m) zero s e h = get_elem?-set_self row s e (get_elem?-lt row s h)
cell-set_cell_self (row ∷ m) (suc r) s e h = cell-set_cell_self m r s e h

pub cell-set_cell_ne :
    (m : List (List ℕ)) (r s r' s' e : ℕ)
    → (r ≡ r' → s ≡ s' → ⊥)
    → cell (set_cell m r s e) r' s' ≡ cell m r' s'
cell-set_cell_ne [] r s r' s' e n = refl
cell-set_cell_ne (row ∷ m) zero s zero s' e n = get_elem?-set_ne row e (n refl)
cell-set_cell_ne (row ∷ m) zero s (suc r') s' e n = refl
cell-set_cell_ne (row ∷ m) (suc r) s zero s' e n = refl
cell-set_cell_ne (row ∷ m) (suc r) s (suc r') s' e n =
    cell-set_cell_ne m r s r' s' e (λ a b. n (ap suc a) b)
