-- ===== src/Console.antt =====
-- demos/multiboot/main.c: the text console of the boot demo, vga_putchar, print_str, print_hex and
-- print_int, and kernel_main. The memory of the screen is a function from cells to 16-bit words, the
-- cells behind the 25 rows included.
pub mod Paper
pub mod Numbers
pub mod Boot
use os_kernel_from_scratch.Common.{
  ℕ, zero, suc, ◌+◌, ◌-◌, ◌*◌, ◌/◌, ◌%◌, ◌^◌, Option, none, some, List, [], ◌∷◌, ◌++◌, Bool, true,
  false, ltb, leb, ◌==◌, if◌then◌else◌, get_or, set, bit_and,
}

-- The cursor is at column `x` of row `y`.
pub record Screen : Type 0 where
  pub vga : ℕ → ℕ
  pub x : ℕ
  pub y : ℕ

-- `(attr << 8) | c`: a `char` from 128 on is negative, and its sign covers the attribute.
unfoldable pub cell : ℕ → ℕ → ℕ
cell c attr = if ltb c 128 then attr * 2 ^ 8 + c else 0xFF00 + c

abbrev pub blank : ℕ
blank = 0x0720

unfoldable pub write_cell : (ℕ → ℕ) → ℕ → ℕ → ℕ → ℕ
write_cell vga i v j = if j == i then v else vga j

-- `for (...) dst[i] = src[i]` from `i` on for `n` rounds, with the source one row further.
unfoldable pub copy_up : (ℕ → ℕ) → ℕ → ℕ → ℕ → ℕ
copy_up vga i zero = vga
copy_up vga i (suc n) = copy_up (write_cell vga i (vga (i + 80))) (i + 1) n

-- `for (...) dst[i] = (7 << 8) | ' '` from `i` on for `n` rounds.
unfoldable pub clear_cells : (ℕ → ℕ) → ℕ → ℕ → ℕ → ℕ
clear_cells vga i zero = vga
clear_cells vga i (suc n) = clear_cells (write_cell vga i blank) (i + 1) n

-- What `vga_putchar` does at its end.
unfoldable pub scroll : Screen → Screen
scroll s =
    if leb 25 s.y
    then record { vga = clear_cells (copy_up s.vga 0 1920) 1920 80; x = s.x; y = 24 }
    else s

unfoldable pub put : Screen → ℕ → ℕ → Screen
put s c attr = if c == 10 then record s { x = 0; y = s.y + 1 } else record {
  vga = write_cell s.vga (s.y * 80 + s.x) (cell c attr);
  x = if leb 80 (s.x + 1) then 0 else s.x + 1;
  y = if leb 80 (s.x + 1) then s.y + 1 else s.y;
}

unfoldable pub vga_putchar : Screen → ℕ → ℕ → Screen
unfolding put scroll
vga_putchar s c attr = scroll (put s c attr)

unfoldable pub print_str : Screen → List ℕ → ℕ → Screen
print_str s [] attr = s
print_str s (c ∷ text) attr = print_str (vga_putchar s c attr) text attr

-- `y++; x = 0`.
unfoldable pub next_line : Screen → Screen
next_line s = record s { y = s.y + 1; x = 0 }

-- `hex[d]` of "0123456789ABCDEF".
unfoldable pub hex_char : ℕ → ℕ
hex_char d = if ltb d 10 then b'0' + d else b'A' + d - 10

-- The loop of `print_hex` from `i` on for `n` rounds: `buf[9 - i] = hex[(val >> (4 * i)) & 0xF]`.
unfoldable pub fill_hex : ℕ → List ℕ → ℕ → ℕ → List ℕ
unfolding hex_char
fill_hex val buf i zero = buf
fill_hex val buf i (suc n) =
    fill_hex val (set buf (9 - i) (hex_char (val / 2 ^ (4 * i) % 16))) (i + 1) n

-- The text in the buffer, without the zero behind it.
unfoldable pub hex_text : ℕ → List ℕ
unfolding fill_hex
hex_text val = fill_hex val (b'0' ∷ b'x' ∷ 0 ∷ 0 ∷ 0 ∷ 0 ∷ 0 ∷ 0 ∷ 0 ∷ 0 ∷ []) 0 8

unfoldable pub print_hex : Screen → ℕ → ℕ → Screen
unfolding hex_text
print_hex s val attr = print_str s (hex_text val) attr

-- One more digit in front, which stands at a lower place of the buffer.
unfoldable pub digit_before : ℕ → Option (List ℕ) → Option (List ℕ)
digit_before d none = none
digit_before d (some ds) = some (d ∷ ds)

-- The digits of a number as the loop of `print_int` leaves them in its buffer, in `room` places at
-- most, the last digit first; `none` where the loop writes behind the buffer.
unfoldable pub int_digits : ℕ → ℕ → Option (List ℕ)
unfolding digit_before
int_digits zero val = if val == 0 then some [] else none
int_digits (suc room) val =
    let rest = digit_before (b'0' + val % 10) (int_digits room (val / 10)) in
    if val == 0 then some [] else rest

-- `while (i--)`: the digits from the last place of the buffer back.
unfoldable pub print_back : Screen → List ℕ → ℕ → Screen
print_back s [] attr = s
print_back s (d ∷ ds) attr = vga_putchar (print_back s ds attr) d attr

unfoldable pub print_int : Screen → ℕ → ℕ → Option Screen
print_int s val attr =
    if val == 0
    then some (vga_putchar s b'0' attr)
    else elim (int_digits 16 val) [ none ↦ none | some ds ↦ some (print_back s ds attr) ]
