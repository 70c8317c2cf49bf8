-- ===== src/TicTacToe/Board.antt =====
-- What a mark on the board changes: one cell, and the counts of the marks.
use archforge.Prelude.{
  ℕ, ◌+◌, ◌<◌, ◌≡◌, refl, Bool, true, false, ◌&&◌, ◌==◌, if◌then◌else◌, arith, not, Bool-cases, inl,
  inr,
}
use archforge.TicTacToe.{
  Cell, empty, x, o, cell_eq, Three, at, put, Board, cell, mark_cell, board_full, all_of,
}

at-put :
    {A : Type 0} (t : Three A) (i j : ℕ) (v : A)
    → i < 3
    → j < 3
    → at (put t i v) j ≡ (if i == j then v else at t j)
unfolding at put
at-put t i j v h k = ground arith

-- A mark changes the one cell it is put in.
pub cell-mark_cell :
    (b : Board) (r c : ℕ) (m : Cell) (i j : ℕ)
    → r < 3
    → c < 3
    → i < 3
    → j < 3
    → cell (mark_cell b r c m) i j ≡ (if (r == i) && (c == j) then m else cell b i j)
unfolding cell mark_cell
cell-mark_cell b r c m i j hr hc hi hj =
    ground (arith, at-put b r i (put (at b r) c m) hr hi, at-put (at b r) c j m hc hj)

abbrev one_if : Bool → ℕ
one_if true = 1
one_if false = 0

-- How many cells of a row, and of the board, hold `m`.
unfoldable pub in_row : Cell → Three Cell → ℕ
in_row m t = one_if (cell_eq t.at0 m) + one_if (cell_eq t.at1 m) + one_if (cell_eq t.at2 m)

unfoldable pub count : Cell → Board → ℕ
count m b = in_row m b.at0 + in_row m b.at1 + in_row m b.at2

in_row-put :
    (m : Cell) (t : Three Cell) (j : ℕ) (v : Cell)
    → j < 3
    → in_row m (put t j v) + one_if (cell_eq (at t j) m) ≡ in_row m t + one_if (cell_eq v m)
unfolding in_row put at
in_row-put m t j v h = ground arith

count-put :
    (m : Cell) (b : Board) (i : ℕ) (t : Three Cell)
    → i < 3
    → count m (put b i t) + in_row m (at b i) ≡ count m b + in_row m t
unfolding count put at
count-put m b i t h = ground arith

pub count-mark_cell :
    (m : Cell) (b : Board) (r c : ℕ) (v : Cell)
    → r < 3
    → c < 3
    → count m (mark_cell b r c v) + one_if (cell_eq (cell b r c) m)
      ≡ count m b + one_if (cell_eq v m)
unfolding mark_cell cell
count-mark_cell m b r c v hr hc =
    omega (arith, count-put m b r (put (at b r) c v) hr, in_row-put m (at b r) c v hc)

one_of : (c : Cell) → one_if (cell_eq c x) + one_if (cell_eq c o) + one_if (cell_eq c empty) ≡ 1
unfolding cell_eq
one_of empty = refl
one_of x = refl
one_of o = refl

total_in_row : (t : Three Cell) → in_row x t + in_row o t + in_row empty t ≡ 3
unfolding in_row
total_in_row t = omega (arith, one_of t.at0, one_of t.at1, one_of t.at2)

pub total : (b : Board) → count x b + count o b + count empty b ≡ 9
unfolding count
total b = omega (arith, total_in_row b.at0, total_in_row b.at1, total_in_row b.at2)

some_not : (f : ℕ → Bool) → all_of f ≡ false → (i : ℕ) × (i < 3) × (f i ≡ false)
some_not f h = elim (Bool-cases (f 0)) [
  | inr e ↦ (0, omega arith, e)
  | inl e0 ↦ elim (Bool-cases (f 1)) [
    | inr e ↦ (1, omega arith, e)
    | inl e1 ↦ (2, omega arith, ground (arith, e0, e1))
  ]
]

pub empty_inv : (c : Cell) → not (cell_eq c empty) ≡ false → c ≡ empty
unfolding cell_eq
empty_inv empty h = refl
empty_inv x h = ground arith
empty_inv o h = ground arith

-- A board that is not full has an empty cell.
pub free_cell :
    (b : Board)
    → board_full b ≡ false
    → (i : ℕ) × (j : ℕ) × (i < 3) × (j < 3) × (cell b i j ≡ empty)
unfolding board_full
free_cell b h =
    let (i, hi, e) = some_not (λ i. all_of (λ j. not (cell_eq (cell b i j) empty))) h in
    let (j, hj, e') = some_not (λ j. not (cell_eq (cell b i j) empty)) e in
    (i, j, hi, hj, empty_inv (cell b i j) e')
