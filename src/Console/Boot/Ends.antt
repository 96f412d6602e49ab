-- ===== src/Console/Boot/Ends.antt =====
-- demos/multiboot/main.c: kernel_main comes to its end.
use os_kernel_from_scratch.Common.{
  ℕ, zero, suc, ◌+◌, ◌-◌, ◌/◌, ◌%◌, ◌^◌, ◌≤◌, ◌<◌, ◌≡◌, refl, sym, ap, ◌∙◌, inl, inr, Option, some,
  List, [], ◌∷◌, ◌&&◌, arith, ltb, ◌==◌, Bool-cases,
}
use mathlib.Core.Path.{subst}
use os_kernel_from_scratch.Common.Bitmap.{test_word}
use os_kernel_from_scratch.Console.{
  Screen, clear_cells, scroll, put, vga_putchar, print_str, next_line, print_hex, print_int,
}
use os_kernel_from_scratch.Console.Numbers.{print_int_lem}
use os_kernel_from_scratch.Console.Boot.{
  codes, MultibootInfo, MultibootMmapEntry, on_flag, text_line, magic_line, mem_line, free_line,
  mmap_loop, mmap_lines, mods_line, kernel_main,
}

-- The cursor is in row `y` at most, and in one of the 80 columns.
abbrev pub On : ℕ → Screen → Type 0
On y s = (s.y ≤ y) × (s.x < 80)

-- A character brings a cursor in row 25, below the screen, back on it.
putchar-On : (s : Screen) (c attr : ℕ) → On 25 s → On 24 (vga_putchar s c attr)
unfolding vga_putchar scroll put
putchar-On s c attr h = ground (arith, h)

weaker : (s : Screen) → On 24 s → On 25 s
weaker s h = (omega (arith, h.0), h.1)

print_str-On : (s : Screen) (text : List ℕ) (attr : ℕ) → On 25 s → On 25 (print_str s text attr)
unfolding print_str
print_str-On s [] attr h = h
print_str-On s (c ∷ text) attr h =
    print_str-On (vga_putchar s c attr) text attr
      (weaker (vga_putchar s c attr) (putchar-On s c attr h))

-- A text with a character ends on the screen.
print_str-On_screen :
    (s : Screen) (text : List ℕ) (attr : ℕ) → On 24 s → On 24 (print_str s text attr)
unfolding print_str
print_str-On_screen s [] attr h = h
print_str-On_screen s (c ∷ text) attr h =
    print_str-On_screen (vga_putchar s c attr) text attr (putchar-On s c attr (weaker s h))

label-On :
    (s : Screen) (c : ℕ) (text : List ℕ) (attr : ℕ) → On 25 s → On 24 (print_str s (c ∷ text) attr)
unfolding print_str
label-On s c text attr h =
    print_str-On_screen (vga_putchar s c attr) text attr (putchar-On s c attr h)

print_hex-On : (s : Screen) (val attr : ℕ) → On 24 s → On 24 (print_hex s val attr)
unfolding print_hex
print_hex-On s val attr h = print_str-On_screen s _ attr h

print_int-On :
    (s : Screen) (val attr : ℕ)
    → val < 2 ^ 32
    → On 24 s
    → (s' : Screen) × (print_int s val attr ≡ some s') × On 24 s'
print_int-On s val attr small h =
    let (text, call, size, digits, value) = print_int_lem s val attr small in
    (print_str s text attr, call, print_str-On_screen s text attr h)

next_line-On : (s : Screen) → On 24 s → On 25 (next_line s)
unfolding next_line
next_line-On s h = (omega (arith, h.0), omega arith)

-- A part of the output that comes to its end, and needs no more than that the cursor is at most one
-- row below the screen.
abbrev Ends : (Screen → Option Screen) → Type 0
Ends part = (s : Screen) → On 25 s → (s' : Screen) × (part s ≡ some s') × On 25 s'

on_flag-Ends :
    (flags b : ℕ) (part : Screen → Option Screen) → Ends part → Ends (on_flag flags b part)
unfolding on_flag
on_flag-Ends flags b part h s on = elim (Bool-cases (test_word flags b)) [
  | inl e ↦ rw (e, on_flag) (h s on)
  | inr e ↦ (s, rw (on_flag, e), on)
]

text_line-Ends : (c : ℕ) (label text : List ℕ) (attr : ℕ) → Ends (text_line (c ∷ label) text attr)
unfolding text_line
text_line-Ends c label text attr s on = (
  next_line (print_str (print_str s (c ∷ label) 0x07) text attr),
  refl,
  next_line-On _ (print_str-On_screen _ text attr (label-On s c label 0x07 on)),
)

magic_line-On : (magic : ℕ) (s : Screen) → On 25 s → On 25 (magic_line magic s)
unfolding magic_line
magic_line-On magic s on = next_line-On _ (
    print_str-On_screen _ _ _
      (print_hex-On (print_str s (codes "Magic: ") 0x07) magic 0x0A (label-On s _ _ 0x07 on)))

mods_line-Ends : (info : MultibootInfo) → info.mods_count < 2 ^ 32 → Ends (mods_line info)
unfolding mods_line
mods_line-Ends info small s on =
    let (s₂, call, on₂) =
      print_int-On (print_str s (codes "Modules: ") 0x07) info.mods_count 0x0A small
        (label-On s _ _ 0x07 on) in
    (next_line s₂, rw (mods_line, call) refl, next_line-On s₂ on₂)

mem_line-Ends :
    (info : MultibootInfo)
    → info.mem_lower < 2 ^ 32
    → info.mem_upper < 2 ^ 32
    → Ends (mem_line info)
unfolding mem_line
mem_line-Ends info small₁ small₂ s on =
    let (s₂, call₂, on₂) =
      print_int-On (print_str s (codes "Low mem: ") 0x07) info.mem_lower 0x0A small₁
        (label-On s _ _ 0x07 on) in
    let (s₄, call₄, on₄) =
      print_int-On (print_str s₂ (codes " KB  High: ") 0x07) info.mem_upper 0x0A small₂
        (print_str-On_screen s₂ (codes " KB  High: ") 0x07 on₂) in
    (
      next_line (print_str s₄ (codes " KB") 0x07),
      rw (mem_line, call₂) (rw call₄ refl),
      next_line-On _ (print_str-On_screen s₄ (codes " KB") 0x07 on₄),
    )

free_line-Ends : (e : MultibootMmapEntry) → Ends (free_line e)
unfolding free_line
free_line-Ends e s on =
    let s₁ = print_hex (print_str s (codes "  [FREE] ") 0x0A) (e.addr % 2 ^ 32) 0x0E in
    let on₁ : On 24 s₁ = print_hex-On _ (e.addr % 2 ^ 32) 0x0E (label-On s _ _ 0x0A on) in
    let s₂ =
      print_hex (print_str s₁ (codes " - ") 0x07) ((e.addr + e.len) % 2 ^ 64 % 2 ^ 32) 0x0E in
    let on₂ : On 24 s₂ = print_hex-On _ _ 0x0E (print_str-On_screen s₁ (codes " - ") 0x07 on₁) in
    let (s₃, call, on₃) =
      print_int-On (print_str s₂ (codes " (") 0x07) (e.len / 1024 / 1024 % 2 ^ 32) 0x0A
        (omega arith) (print_str-On_screen s₂ (codes " (") 0x07 on₂) in
    (
      next_line (print_str s₃ (codes " MB)") 0x07),
      rw (free_line, call) refl,
      next_line-On _ (print_str-On_screen s₃ (codes " MB)") 0x07 on₃),
    )

-- The addresses of the entries of a memory map: each stands behind the one before.
pub data IsEntry (entry_at : ℕ → MultibootMmapEntry) (start end : ℕ) : ℕ → Type 0 where
  first : IsEntry entry_at start end start
  next :
      {p : ℕ}
      → IsEntry entry_at start end p
      → p < end
      → IsEntry entry_at start end (p + (entry_at p).size + 4)

-- What the Multiboot specification says of the information: fields of 32 bits, and a buffer below 2 ^ 32
-- of `mmap_length` bytes at `mmap_addr` that is filled by entries, each of `size` bytes behind the
-- 4 bytes of that field.
pub record IsLoaded (entry_at : ℕ → MultibootMmapEntry) (info : MultibootInfo) : Type 0 where
  pub mem_lower : info.mem_lower < 2 ^ 32
  pub mem_upper : info.mem_upper < 2 ^ 32
  pub mods_count : info.mods_count < 2 ^ 32
  pub map_end : info.mmap_addr + info.mmap_length < 2 ^ 32
  pub filled :
      (p : ℕ)
      → IsEntry entry_at info.mmap_addr (info.mmap_addr + info.mmap_length) p
      → p < info.mmap_addr + info.mmap_length
      → p + (entry_at p).size + 4 ≤ info.mmap_addr + info.mmap_length

module _ (entry_at : ℕ → MultibootMmapEntry) (info : MultibootInfo)
    (h : IsLoaded entry_at info) where
  map_end : ℕ
  map_end = info.mmap_addr + info.mmap_length

  mmap_loop-some :
      (fuel mmap count : ℕ) (s : Screen)
      → IsEntry entry_at info.mmap_addr map_end mmap
      → map_end - mmap < fuel
      → On 25 s
      → (s' : Screen) × (mmap_loop entry_at fuel map_end mmap count s ≡ some s') × On 25 s'
  unfolding mmap_loop map_end
  mmap_loop-some zero mmap count s entry enough on = absurd (omega arith)
  mmap_loop-some (suc fuel) mmap count s entry enough on =
      elim (Bool-cases (ltb mmap map_end && ltb count 4)) [
        | inr e ↦ (s, rw (mmap_loop, e) refl, on)
        | inl e ↦
            let before : mmap < map_end = ground arith in
            let inside : mmap + (entry_at mmap).size + 4 ≤ map_end = h.filled mmap entry before in
            let further : (mmap + (entry_at mmap).size + 4) % 2 ^ 32
                ≡ mmap + (entry_at mmap).size + 4 =
              omega (arith, inside, h.map_end) in
            let entry' : IsEntry entry_at info.mmap_addr map_end
                ((mmap + (entry_at mmap).size + 4) % 2 ^ 32) =
              subst (IsEntry entry_at info.mmap_addr map_end) (sym further) (next entry before) in
            let enough' : map_end - (mmap + (entry_at mmap).size + 4) % 2 ^ 32 < fuel =
              omega (arith, further) in
            elim (Bool-cases ((entry_at mmap).kind == 1)) [
              | inl k ↦
                  let (s₁, call₁, on₁) = free_line-Ends (entry_at mmap) s on in
                  let (s₂, call₂, on₂) =
                    mmap_loop-some fuel ((mmap + (entry_at mmap).size + 4) % 2 ^ 32) (count + 1) s₁
                      entry' enough' on₁ in
                  (s₂, rw (mmap_loop, e, k) (rw call₁ call₂), on₂)
              | inr k ↦
                  let (s₂, call₂, on₂) =
                    mmap_loop-some fuel ((mmap + (entry_at mmap).size + 4) % 2 ^ 32) count s entry'
                      enough' on in
                  (s₂, rw (mmap_loop, e, k) call₂, on₂)
            ]
      ]

  mmap_lines-Ends : Ends (mmap_lines entry_at info)
  unfolding mmap_lines map_end
  mmap_lines-Ends s on =
      let s₂ = next_line (print_str s (codes "Memory map:") 0x07) in
      let on₂ : On 25 s₂ = next_line-On _ (label-On s _ _ 0x07 on) in
      let whole : map_end % 2 ^ 32 ≡ map_end = omega (arith, h.map_end) in
      let (s₃, call, on₃) =
        mmap_loop-some (info.mmap_length + 1) info.mmap_addr 0 s₂ first (omega arith) on₂ in
      (
        s₃,
        ap (λ end. mmap_loop entry_at (info.mmap_length + 1) end info.mmap_addr 0 s₂) whole ∙ call,
        on₃,
      )

  -- With the information that the Multiboot specification describes, and whatever texts the loader passes,
  -- whatever the magic number is and whatever was on the screen, kernel_main comes to its end, and
  -- the cursor is on the screen then.
  pub kernel_main_lem :
      (string_at : ℕ → List ℕ) (vga : ℕ → ℕ) (magic : ℕ)
      → (s : Screen) × (kernel_main string_at entry_at vga magic info ≡ some s)
        × (s.y < 25)
        × (s.x < 80)
  unfolding kernel_main
  kernel_main_lem string_at vga magic =
      let cleared : Screen = record { vga = clear_cells vga 0 2000; x = 0; y = 0 } in
      let s₁ = next_line (print_str cleared (codes "=== Multiboot Kernel Demo ===") 0x0F) in
      let on₁ : On 25 s₁ = next_line-On _ (label-On cleared _ _ 0x0F (omega arith, omega arith)) in
      let on₂ : On 25 (magic_line magic s₁) = magic_line-On magic s₁ on₁ in
      let (s₃, call₃, on₃) =
        on_flag-Ends info.flags 9 _
          (text_line-Ends b'L' (codes "oader: ") (string_at info.boot_loader_name) 0x0A)
          (magic_line magic s₁) on₂ in
      let (s₄, call₄, on₄) =
        on_flag-Ends info.flags 2 _
          (text_line-Ends b'C' (codes "mdline: ") (string_at info.cmdline) 0x0E) s₃ on₃ in
      let (s₅, call₅, on₅) =
        on_flag-Ends info.flags 0 _ (mem_line-Ends info h.mem_lower h.mem_upper) s₄ on₄ in
      let (s₆, call₆, on₆) = on_flag-Ends info.flags 6 _ mmap_lines-Ends s₅ on₅ in
      let (s₇, call₇, on₇) =
        on_flag-Ends info.flags 3 _ (mods_line-Ends info h.mods_count) s₆ on₆ in
      let on₈ : On 24 (print_str s₇ (codes "Halted.") 0x07) = label-On s₇ _ _ 0x07 on₇ in
      (
        print_str s₇ (codes "Halted.") 0x07,
        rw (kernel_main, call₃) (rw call₄ (rw call₅ (rw call₆ (rw call₇ refl)))),
        omega (arith, on₈.0),
        on₈.1,
      )
