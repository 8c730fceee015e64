-- ===== src/Detect/Regions/Cells.antt =====
-- firemex/detect/stub.py, `_grid_regions`: the cells of the grid that are not yet seen, which bound the
-- rounds of the flood.
use fireme_x.Base.{
  ℕ, zero, suc, ◌+◌, ◌*◌, ◌≤◌, ◌<◌, ◌≡◌, refl, ap, true, false, not, List, [], ◌∷◌, ◌++◌, length,
  count_if, ◌==◌, arith, length-append, count_if-le, Bool-cases, ==_iff, inl, inr,
}
use mathlib.Core.Path.{subst}
use fireme_x.Detect.Regions.{Cell, same, contains, row_from, grid_from, grid}

same-eq : (a b : Cell) → same a b ≡ true → a ≡ b
same-eq (r, c) (s, d) h = ground arith

pub same_refl : (a : Cell) → same a a ≡ true
same_refl a = ground arith

contains-append :
    (a : Cell) (xs ys : List Cell) → contains a xs ≡ true → contains a (xs ++ ys) ≡ true
contains-append a [] ys h = ground arith
contains-append a (x ∷ xs) ys h = ground (arith, contains-append a xs ys)

contains_later :
    (a : Cell) (xs ys : List Cell) → contains a ys ≡ true → contains a (xs ++ ys) ≡ true
contains_later a [] ys h = h
contains_later a (x ∷ xs) ys h = ground (arith, contains_later a xs ys)

contains-row_from :
    (r c from n : ℕ) → from ≤ c → c < from + n → contains (r, c) (row_from r from n) ≡ true
contains-row_from r c from zero h k = ground arith
contains-row_from r c from (suc n) h k = ground (arith, contains-row_from r c (suc from) n)

contains-grid_from :
    (r c from n cols : ℕ)
    → from ≤ r
    → r < from + n
    → c < cols
    → contains (r, c) (grid_from from n cols) ≡ true
contains-grid_from r c from zero cols h k l = ground arith
contains-grid_from r c from (suc n) cols h k l = elim (Bool-cases (r == from)) [
  | inl here ↦
      contains-append (r, c) (row_from from 0 cols) (grid_from (suc from) n cols)
        (subst (λ q. contains (r, c) (row_from q 0 cols) ≡ true) ((==_iff r from).0 here)
          (contains-row_from r c 0 cols (omega arith) (ground arith)))
  | inr there ↦
      contains_later (r, c) (row_from from 0 cols) (grid_from (suc from) n cols)
        (contains-grid_from r c (suc from) n cols (ground arith) (ground arith) l)
]

pub contains-grid :
    (rows cols : ℕ) (a : Cell) → a.0 < rows → a.1 < cols → contains a (grid rows cols) ≡ true
contains-grid rows cols a h k =
    contains-grid_from a.0 a.1 0 rows cols (omega arith) (ground arith) k

length-row_from : (r c n : ℕ) → length (row_from r c n) ≡ n
length-row_from r c zero = refl
length-row_from r c (suc n) = ap suc (length-row_from r (suc c) n)

length-grid_from : (r n cols : ℕ) → length (grid_from r n cols) ≡ n * cols
length-grid_from r zero cols = ground arith
length-grid_from r (suc n) cols = ground (
  arith,
  length-append (row_from r 0 cols) (grid_from (suc r) n cols),
  length-row_from r 0 cols,
  length-grid_from (suc r) n cols,
)

-- how many cells of a list are not seen
abbrev pub unseen : List Cell → List Cell → ℕ
unseen seen cells = count_if (λ a. not (contains a seen)) cells

pub unseen-grid : (rows cols : ℕ) (seen : List Cell) → unseen seen (grid rows cols) ≤ rows * cols
unseen-grid rows cols seen =
    subst (λ n. unseen seen (grid rows cols) ≤ n) (length-grid_from 0 rows cols)
      (count_if-le (λ a. not (contains a seen)) (grid rows cols))

unseen_le : (n : Cell) (seen cells : List Cell) → unseen (n ∷ seen) cells ≤ unseen seen cells
unseen_le n seen [] = ground arith
unseen_le n seen (x ∷ cells) = ground (arith, unseen_le n seen cells)

-- a cell that is seen for the first time is one less
pub unseen_lt :
    (n : Cell) (seen cells : List Cell)
    → contains n cells ≡ true
    → contains n seen ≡ false
    → unseen (n ∷ seen) cells < unseen seen cells
unseen_lt n seen [] h k = ground arith
unseen_lt n seen (x ∷ cells) h k = elim (Bool-cases (same n x)) [
  | inl here ↦
      let e : n ≡ x = same-eq n x here in
      let back : same x n ≡ true = subst (λ y. same y n ≡ true) e (same_refl n) in
      let away : contains x seen ≡ false = subst (λ y. contains y seen ≡ false) e k in
      ground (arith, unseen_le n seen cells)
  | inr there ↦ ground (arith, unseen_lt n seen cells)
]
