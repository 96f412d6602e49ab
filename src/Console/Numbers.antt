-- ===== src/Console/Numbers.antt =====
-- demos/multiboot/main.c: what print_hex and print_int print.
use os_kernel_from_scratch.Common.{
  ℕ, zero, suc, ◌+◌, ◌-◌, ◌*◌, ◌/◌, ◌%◌, ◌^◌, ◌≤◌, ◌<◌, ◌≡◌, refl, ap, inl, inr, some, List, [],
  ◌∷◌, ◌++◌, arith, ltb, ◌==◌, if◌then◌else◌, Bool-cases, length, length-append,
}
use native.Mathlib.Nat.{pow-suc}
use os_kernel_from_scratch.Console.{
  Screen, vga_putchar, print_str, hex_char, hex_text, digit_before, int_digits, print_back,
  print_int,
}

-- The value of a hexadecimal digit, and of a text of them.
unfoldable pub hex_value : ℕ → ℕ
hex_value c = if ltb c b'A' then c - b'0' else c + 10 - b'A'

abbrev pub read_hex : ℕ → List ℕ → ℕ
read_hex acc [] = acc
read_hex acc (c ∷ text) = read_hex (acc * 16 + hex_value c) text

hex_value-hex_char : (d : ℕ) → d < 16 → hex_value (hex_char d) ≡ d
unfolding hex_char hex_value
hex_value-hex_char d h = ground arith

-- `print_hex` prints 10 characters, `0x` and eight hexadecimal digits, whose value is the number.
pub read_hex-hex_text :
    (val : ℕ)
    → val < 2 ^ 32
    → (digits : List ℕ) × (hex_text val ≡ b'0' ∷ b'x' ∷ digits)
      × (length digits ≡ 8)
      × (read_hex 0 digits ≡ val)
unfolding hex_text
read_hex-hex_text val small = (
  hex_char (val / 2 ^ 28 % 16)
      ∷ hex_char (val / 2 ^ 24 % 16)
      ∷ hex_char (val / 2 ^ 20 % 16)
      ∷ hex_char (val / 2 ^ 16 % 16)
      ∷ hex_char (val / 2 ^ 12 % 16)
      ∷ hex_char (val / 2 ^ 8 % 16)
      ∷ hex_char (val / 2 ^ 4 % 16)
      ∷ hex_char (val / 2 ^ 0 % 16)
      ∷ [],
  refl,
  refl,
  omega (arith, hex_value-hex_char),
)

abbrev pub read_decimal : ℕ → List ℕ → ℕ
read_decimal acc [] = acc
read_decimal acc (c ∷ text) = read_decimal (acc * 10 + (c - b'0')) text

read_decimal-append :
    (text : List ℕ) (acc c : ℕ)
    → read_decimal acc (text ++ c ∷ []) ≡ read_decimal acc text * 10 + (c - b'0')
read_decimal-append [] acc c = refl
read_decimal-append (d ∷ text) acc c = read_decimal-append text (acc * 10 + (d - b'0')) c

-- The digits in the order in which they are printed.
abbrev back : List ℕ → List ℕ
back [] = []
back (d ∷ ds) = back ds ++ d ∷ []

print_str-append :
    (s : Screen) (text : List ℕ) (c attr : ℕ)
    → print_str s (text ++ c ∷ []) attr ≡ vga_putchar (print_str s text attr) c attr
unfolding print_str
print_str-append s [] c attr = refl
print_str-append s (d ∷ text) c attr = print_str-append (vga_putchar s d attr) text c attr

print_back-print_str :
    (s : Screen) (ds : List ℕ) (attr : ℕ) → print_back s ds attr ≡ print_str s (back ds) attr
unfolding print_back print_str
print_back-print_str s [] attr = refl
print_back-print_str s (d ∷ ds) attr =
    rw (print_str-append s (back ds) d attr, print_back-print_str s ds attr)

-- Only decimal digits.
abbrev pub AreDigits : List ℕ → Type 0
AreDigits [] = Unit {0}
AreDigits (c ∷ text) = (b'0' ≤ c) × (c ≤ b'9') × AreDigits text

AreDigits-append :
    (text : List ℕ) (c : ℕ) → AreDigits text → b'0' ≤ c → c ≤ b'9' → AreDigits (text ++ c ∷ [])
AreDigits-append [] c h low high = (low, high, tt)
AreDigits-append (d ∷ text) c h low high = (h.0, h.1, AreDigits-append text c h.2 low high)

-- With room for `b` digits, below 10 ^ b.
int_digits-some :
    (b room val : ℕ)
    → b ≤ room
    → val < 10 ^ b
    → (ds : List ℕ) × (int_digits room val ≡ some ds)
      × (length (back ds) ≤ b)
      × AreDigits (back ds)
      × (read_decimal 0 (back ds) ≡ val)
unfolding int_digits digit_before
int_digits-some zero zero val le small = ([], ground arith, omega arith, tt, omega arith)
int_digits-some zero (suc room) val le small = ([], ground arith, omega arith, tt, omega arith)
int_digits-some (suc b) zero val le small = absurd (omega arith)
int_digits-some (suc b) (suc room) val le small = elim (Bool-cases (val == 0)) [
  | inl e ↦ ([], rw e, omega arith, tt, ground arith)
  | inr e ↦
      let (ds, call, size, digits, value) =
        int_digits-some b room (val / 10) (omega arith) (omega (arith, pow-suc 10 b)) in
      (
        (b'0' + val % 10) ∷ ds,
        rw (e, call),
        omega (arith, length-append (back ds) ((b'0' + val % 10) ∷ []), size),
        AreDigits-append (back ds) (b'0' + val % 10) digits (omega arith) (omega arith),
        omega (arith, read_decimal-append (back ds) 0 (b'0' + val % 10), value),
      )
]

-- `print_int` never leaves its buffer of 16 characters: it prints at most 10 characters, all of them
-- decimal digits, whose value is the number.
pub print_int_lem :
    (s : Screen) (val attr : ℕ)
    → val < 2 ^ 32
    → (text : List ℕ) × (print_int s val attr ≡ some (print_str s text attr))
      × (length text ≤ 10)
      × AreDigits text
      × (read_decimal 0 text ≡ val)
unfolding print_int print_str
print_int_lem s val attr small = elim (Bool-cases (val == 0)) [
  | inl e ↦ (b'0' ∷ [], rw e, omega arith, (omega arith, omega arith, tt), ground arith)
  | inr e ↦
      let (ds, call, size, digits, value) = int_digits-some 10 16 val (omega arith) (omega arith) in
      (back ds, rw (e, call) (ap some (print_back-print_str s ds attr)), size, digits, value)
]
