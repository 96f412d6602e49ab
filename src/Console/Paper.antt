-- ===== src/Console/Paper.antt =====
-- demos/multiboot/main.c: the screen is a window on an endless roll of paper.
use os_kernel_from_scratch.Common.{
  ℕ, zero, suc, ◌+◌, ◌*◌, ◌≤◌, ◌<◌, ◌≡◌, refl, sym, ap, ◌∙◌, ◌≢◌, inl, inr, List, [], ◌∷◌, true,
  false, arith, ltb, leb, ◌==◌, if◌then◌else◌, Bool-cases,
}
use os_kernel_from_scratch.Console.{
  Screen, cell, blank, write_cell, copy_up, clear_cells, scroll, put, vga_putchar, print_str,
  next_line,
}

copy_up-cell :
    (vga : ℕ → ℕ) (i n j : ℕ)
    → copy_up vga i n j ≡ (if leb i j then if ltb j (i + n) then vga (j + 80) else vga j else vga j)
unfolding copy_up write_cell
copy_up-cell vga i zero j = ground arith
copy_up-cell vga i (suc n) j =
    ground (arith, copy_up-cell (write_cell vga i (vga (i + 80))) (i + 1) n j)

clear_cells-cell :
    (vga : ℕ → ℕ) (i n j : ℕ)
    → clear_cells vga i n j ≡ (if leb i j then if ltb j (i + n) then blank else vga j else vga j)
unfolding clear_cells write_cell
clear_cells-cell vga i zero j = ground arith
clear_cells-cell vga i (suc n) j =
    ground (arith, clear_cells-cell (write_cell vga i blank) (i + 1) n j)

-- The roll: what stands at a column of a line, and where the next character goes.
pub record Paper : Type 0 where
  pub page : ℕ → ℕ → ℕ
  pub line : ℕ
  pub column : ℕ

-- A typewriter with lines of 80 characters.
pub type_char : Paper → ℕ → ℕ → Paper
type_char p c attr = if c == 10 then record p { line = p.line + 1; column = 0 } else record {
  page =
      λ l k. if l == p.line then if k == p.column then cell c attr else p.page l k else p.page l k;
  line = if p.column == 79 then p.line + 1 else p.line;
  column = if p.column == 79 then 0 else p.column + 1;
}

unfoldable pub type_text : Paper → List ℕ → ℕ → Paper
type_text p [] attr = p
type_text p (c ∷ text) attr = type_text (type_char p c attr) text attr

-- The screen shows the 25 lines of the paper from `top` on, the cursor stands where the paper goes on,
-- and below the screen the paper is blank.
pub record Shows (p : Paper) (top : ℕ) (s : Screen) : Type 0 where
  pub row : top + s.y ≡ p.line
  pub column : s.x ≡ p.column
  pub inside : s.y < 25
  pub narrow : s.x < 80
  pub cells : (r k : ℕ) → r < 25 → k < 80 → s.vga (r * 80 + k) ≡ p.page (top + r) k
  pub below : (l k : ℕ) → top + 25 ≤ l → k < 80 → p.page l k ≡ blank

-- Two cells in rows of 80 are one only in the same row and column.
same_cell : (r k q j : ℕ) → k < 80 → j < 80 → r * 80 + k ≡ q * 80 + j → (r ≡ q) × (k ≡ j)
same_cell r k q j hk hj e = omega arith

module _ (p : Paper) (top : ℕ) (s : Screen) (h : Shows p top s) (c attr : ℕ) where
  put_cells :
      (r k : ℕ)
      → k < 80
      → r < 25
      → (put s c attr).vga (r * 80 + k) ≡ (type_char p c attr).page (top + r) k
  unfolding put type_char write_cell
  put_cells r k hk hr = ground (arith, h.cells r k hr hk, h.row, h.column, h.narrow)

  put_row : top + (put s c attr).y ≡ (type_char p c attr).line
  unfolding put type_char
  put_row = ground (arith, h.row, h.column, h.narrow)

  put_column : ((put s c attr).x ≡ (type_char p c attr).column) × ((put s c attr).x < 80)
  unfolding put type_char
  put_column = (ground (arith, h.column, h.narrow), ground (arith, h.narrow))

  put_below : (l k : ℕ) → top + 25 ≤ l → k < 80 → (type_char p c attr).page l k ≡ blank
  unfolding type_char
  put_below l k hl hk = ground (arith, h.below l k hl hk, h.row, h.inside)

  put_inside : (put s c attr).y ≤ 25
  unfolding put
  put_inside = ground (arith, h.inside)

-- One line further up.
abbrev pub next_top : ℕ → Screen → ℕ
next_top top s = if leb 25 s.y then top + 1 else top

-- What scrolling leaves in row `r` of the screen.
scroll_cells :
    (vga : ℕ → ℕ) (r k : ℕ)
    → k < 80
    → r < 25
    → clear_cells (copy_up vga 0 1920) 1920 80 (r * 80 + k)
      ≡ (if ltb r 24 then vga (r * 80 + k + 80) else blank)
scroll_cells vga r k hk hr =
    clear_cells-cell (copy_up vga 0 1920) 1920 80 (r * 80 + k)
    ∙ ground (arith, copy_up-cell vga 0 1920 (r * 80 + k))

-- A screen before the scrolling, with the cursor in row 25 at most.
module _ (p : Paper) (top : ℕ) (s : Screen) (row : top + s.y ≡ p.line) (column : s.x ≡ p.column)
    (inside : s.y ≤ 25) (narrow : s.x < 80)
    (cells : (r k : ℕ) → k < 80 → r < 25 → s.vga (r * 80 + k) ≡ p.page (top + r) k)
    (below : (l k : ℕ) → top + 25 ≤ l → k < 80 → p.page l k ≡ blank) where
  moved_up :
      (r k : ℕ)
      → k < 80
      → r < 25
      → (if ltb r 24 then s.vga (r * 80 + k + 80) else blank) ≡ p.page (top + 1 + r) k
  moved_up r k hk hr = elim (Bool-cases (ltb r 24)) [
    | inl e ↦ rw e (
        ap s.vga (omega arith)
        ∙ cells (r + 1) k hk (ground arith)
        ∙ ap (λ l. p.page l k) (omega arith))
    | inr e ↦ rw e (sym (below (top + 1 + r) k (ground arith) hk))
  ]

  scroll-Shows : Shows p (next_top top s) (scroll s)
  unfolding scroll
  scroll-Shows = elim (Bool-cases (leb 25 s.y)) [
    | inl e ↦ rw e (record {
      row = ground arith;
      column = column;
      inside = omega arith;
      narrow = narrow;
      cells = λ r k hr hk. scroll_cells s.vga r k hk hr ∙ moved_up r k hk hr;
      below = λ l k hl hk. below l k (omega arith) hk;
    })
    | inr e ↦ rw e (record {
      row = row;
      column = column;
      inside = ground arith;
      narrow = narrow;
      cells = λ r k hr hk. cells r k hk hr;
      below = below;
    })
  ]

-- `vga_putchar` implements a typewriter on a roll of paper: where the screen shows the last lines of a
-- paper, it shows those of the paper with the character typed, one line further up if the cursor left
-- the screen at the bottom. The cursor stays on the screen.
pub vga_putchar_refines :
    (p : Paper) (top : ℕ) (s : Screen) (c attr : ℕ)
    → Shows p top s
    → Shows (type_char p c attr) (next_top top (put s c attr)) (vga_putchar s c attr)
unfolding vga_putchar
vga_putchar_refines p top s c attr h =
    scroll-Shows (type_char p c attr) top (put s c attr) (put_row p top s h c attr)
      (put_column p top s h c attr).0 (put_inside p top s h c attr) (put_column p top s h c attr).1
      (put_cells p top s h c attr) (put_below p top s h c attr)

-- `print_str` types a text: the screen shows the paper with the text typed on it, from some line on
-- that is not above the one before.
pub print_str_refines :
    (p : Paper) (top : ℕ) (s : Screen) (text : List ℕ) (attr : ℕ)
    → Shows p top s
    → (top' : ℕ) × (top ≤ top') × Shows (type_text p text attr) top' (print_str s text attr)
unfolding print_str type_text
print_str_refines p top s [] attr h = (top, omega arith, h)
print_str_refines p top s (c ∷ text) attr h =
    let (top', le, shown) =
      print_str_refines (type_char p c attr) (next_top top (put s c attr)) (vga_putchar s c attr)
        text attr (vga_putchar_refines p top s c attr h) in
    (top', ground arith, shown)

-- kernel_main ends a line by `y++; x = 0`, which does not scroll. At the last row of the screen the
-- next character, unless it is a line feed, is written below the screen, and lost when the screen
-- scrolls then: the 25 rows are what a line feed alone leaves, and the cursor is one column further.
pub vga_putchar-next_line :
    (s : Screen) (c attr : ℕ)
    → s.y ≡ 24
    → c ≢ 10
    → let s' = vga_putchar (next_line s) c attr in
      let fed = vga_putchar s 10 attr in
      (s'.y ≡ 24)
      × (s'.x ≡ fed.x + 1)
      × ((r k : ℕ) → r < 25 → k < 80 → s'.vga (r * 80 + k) ≡ fed.vga (r * 80 + k))
unfolding vga_putchar scroll put next_line write_cell
vga_putchar-next_line s c attr last other =
    let no : (c == 10) ≡ false = ground arith in
    let low : leb 25 (s.y + 1) ≡ true = ground arith in
    rw (no, low)
      (
        refl,
        refl,
        λ r k hr hk.
            scroll_cells (write_cell s.vga ((s.y + 1) * 80 + 0) (cell c attr)) r k hk hr
            ∙ ground (arith, last)
            ∙ sym (scroll_cells s.vga r k hk hr),
      )
