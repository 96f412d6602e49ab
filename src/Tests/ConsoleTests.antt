-- ===== src/Tests/ConsoleTests.antt =====
-- demos/multiboot/main.c on a blank screen.
use os_kernel_from_scratch.Common.{
  ℕ, ◌≤◌, ◌≡◌, refl, some, List, arith, length, ◌⊎◌, inl, inr, ◌==◌, if◌then◌else◌, ◌<◌, ◌+◌,
}
use os_kernel_from_scratch.Console.{Screen, print_str, print_int}
use os_kernel_from_scratch.Console.Paper.{Paper, Shows, type_text, print_str_refines}
use os_kernel_from_scratch.Console.Numbers.{AreDigits, read_decimal, print_int_lem}
use os_kernel_from_scratch.Console.Boot.{codes, MultibootInfo, MultibootMmapEntry, kernel_main}
use os_kernel_from_scratch.Console.Boot.Ends.{IsEntry, first, next, IsLoaded, kernel_main_lem}

abbrev blank_screen : Screen
blank_screen = record { vga = λ j. 0x0720; x = 0; y = 0 }

abbrev blank_paper : Paper
blank_paper = record { page = λ l k. 0x0720; line = 0; column = 0 }

blank_paper-Shows : Shows blank_paper 0 blank_screen
blank_paper-Shows = record {
  row = refl;
  column = refl;
  inside = omega arith;
  narrow = omega arith;
  cells = λ r k hr hk. refl;
  below = λ l k hl hk. refl;
}

print_str_refines_example :
    (top' : ℕ) × (0 ≤ top')
    × Shows
        (type_text blank_paper (codes "two\nlines") 0x07)
        top'
        (print_str blank_screen (codes "two\nlines") 0x07)
print_str_refines_example =
    print_str_refines blank_paper 0 blank_screen (codes "two\nlines") 0x07 blank_paper-Shows

print_int_lem_example :
    (text : List ℕ) × (print_int blank_screen 4096 0x07 ≡ some (print_str blank_screen text 0x07))
    × (length text ≤ 10)
    × AreDigits text
    × (read_decimal 0 text ≡ 4096)
print_int_lem_example = print_int_lem blank_screen 4096 0x07 (omega arith)

-- All flags that are looked at, and a memory map of two entries.
abbrev info : MultibootInfo
info = record {
  flags = 0x24D;
  mem_lower = 639;
  mem_upper = 130048;
  cmdline = 100;
  mods_count = 1;
  mmap_length = 48;
  mmap_addr = 0x9000;
  boot_loader_name = 200;
}

-- A free region and a reserved one, whose entries fill the 48 bytes; what stands behind is 0.
abbrev entry_at : ℕ → MultibootMmapEntry
entry_at p =
    if p == 0x9000
    then record { size = 20; addr = 0x100000; len = 0x7F00000; kind = 1 }
    else if p == 0x9018
    then record { size = 20; addr = 0xFFFC0000; len = 0x40000; kind = 2 }
    else record { size = 0; addr = 0; len = 0; kind = 0 }

two_entries :
    (p : ℕ) → IsEntry entry_at 0x9000 0x9030 p → (p ≡ 0x9000) ⊎ (p ≡ 0x9018) ⊎ (0x9030 ≤ p)
two_entries p first = inl refl
two_entries p (next {p = q} e before) = elim (two_entries q e) [
  | inl a ↦ inr (inl (ground (arith, a)))
  | inr (inl b) ↦ inr (inr (ground (arith, b)))
  | inr (inr c) ↦ absurd (omega (arith, c, before))
]

inside :
    (p : ℕ)
    → (p ≡ 0x9000) ⊎ (p ≡ 0x9018) ⊎ (0x9030 ≤ p)
    → p < 0x9030
    → p + (entry_at p).size + 4 ≤ 0x9030
inside p h low = ground arith

abbrev string_at : ℕ → List ℕ
string_at p = codes "GRUB"

info-IsLoaded : IsLoaded entry_at info
info-IsLoaded = record {
  mem_lower = omega arith;
  mem_upper = omega arith;
  mods_count = omega arith;
  map_end = omega arith;
  filled = λ p e low. inside p (two_entries p e) low;
}

kernel_main_lem_example :
    (s : Screen) × (kernel_main string_at entry_at (λ j. 0) 0x2BADB002 info ≡ some s)
    × (s.y < 25)
    × (s.x < 80)
kernel_main_lem_example = kernel_main_lem entry_at info info-IsLoaded string_at (λ j. 0) 0x2BADB002
