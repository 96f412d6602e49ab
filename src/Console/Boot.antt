-- ===== src/Console/Boot.antt =====
-- demos/multiboot/main.c: kernel_main. What the boot loader left in memory, texts and entries of the
-- memory map at their addresses, is a parameter; the endless `hlt` at the end is left out.
pub mod Ends
use Prim.Native.Char.{code}
use Prim.Native.String.{String}
use os_kernel_from_scratch.Common.{
  ℕ, zero, suc, ◌+◌, ◌-◌, ◌*◌, ◌/◌, ◌%◌, ◌^◌, Option, none, some, List, [], ◌∷◌, Bool, true, false,
  ltb, ◌==◌, if◌then◌else◌, ◌&&◌,
}
use os_kernel_from_scratch.Common.Bitmap.{test_word}
use os_kernel_from_scratch.Console.{Screen, clear_cells, print_str, print_hex, print_int, next_line}

-- The characters of a text.
abbrev pub codes : String → List ℕ
codes String.[] = []
codes (String.◌∷◌ c s) = code c ∷ codes s

pub record MultibootInfo : Type 0 where
  pub flags : ℕ
  pub mem_lower : ℕ
  pub mem_upper : ℕ
  pub cmdline : ℕ
  pub mods_count : ℕ
  pub mmap_length : ℕ
  pub mmap_addr : ℕ
  pub boot_loader_name : ℕ

-- `type` is `kind` here.
pub record MultibootMmapEntry : Type 0 where
  pub size : ℕ
  pub addr : ℕ
  pub len : ℕ
  pub kind : ℕ

infixl 5 ◌>>=◌
abbrev pub ◌>>=◌ : Option Screen → (Screen → Option Screen) → Option Screen
none >>= f = none
some s >>= f = f s

abbrev pub normal : ℕ
normal = 0x07

abbrev pub green : ℕ
green = 0x0A

abbrev pub yellow : ℕ
yellow = 0x0E

-- A part of the output that depends on bit `b` of the flags.
unfoldable pub on_flag : ℕ → ℕ → (Screen → Option Screen) → Screen → Option Screen
on_flag flags b part s = if test_word flags b then part s else some s

-- A line with a label and a text.
unfoldable pub text_line : List ℕ → List ℕ → ℕ → Screen → Option Screen
text_line label text attr s = some (next_line (print_str (print_str s label normal) text attr))

unfoldable pub magic_line : ℕ → Screen → Screen
magic_line magic s =
    let ok = magic == 0x2BADB002 in
    let s' = print_hex (print_str s (codes "Magic: ") normal) magic green in
    next_line
      (print_str s' (if ok then codes " (OK)" else codes " (BAD!)") (if ok then green else 0x0C))

unfoldable pub mem_line : MultibootInfo → Screen → Option Screen
mem_line info s = do
  s ← print_int (print_str s (codes "Low mem: ") normal) info.mem_lower green
  s ← print_int (print_str s (codes " KB  High: ") normal) info.mem_upper green
  some (next_line (print_str s (codes " KB") normal))

unfoldable pub free_line : MultibootMmapEntry → Screen → Option Screen
free_line e s = do
  let s₁ = print_hex (print_str s (codes "  [FREE] ") green) (e.addr % 2 ^ 32) yellow
  let s₂ = print_hex (print_str s₁ (codes " - ") normal) ((e.addr + e.len) % 2 ^ 64 % 2 ^ 32) yellow
  s₃ ← print_int (print_str s₂ (codes " (") normal) (e.len / 1024 / 1024 % 2 ^ 32) green
  some (next_line (print_str s₃ (codes " MB)") normal))

unfoldable pub mods_line : MultibootInfo → Screen → Option Screen
mods_line info s = do
  s ← print_int (print_str s (codes "Modules: ") normal) info.mods_count green
  some (next_line s)

module _ (entry_at : ℕ → MultibootMmapEntry) where
  -- The loop over the memory map from the entry at `mmap` on, with fuel, which prints four free
  -- regions at most. `none` if the fuel runs out.
  unfoldable pub mmap_loop : ℕ → ℕ → ℕ → ℕ → Screen → Option Screen
  mmap_loop zero end mmap count s = none
  mmap_loop (suc fuel) end mmap count s =
      let e = entry_at mmap in
      let rest =
        λ (count' : ℕ) (s' : Screen). mmap_loop fuel end ((mmap + e.size + 4) % 2 ^ 32) count' s' in
      let round = if e.kind == 1 then free_line e s >>= rest (count + 1) else rest count s in
      if ltb mmap end && ltb count 4 then round else some s

  unfoldable pub mmap_lines : MultibootInfo → Screen → Option Screen
  mmap_lines info s =
      mmap_loop (info.mmap_length + 1) ((info.mmap_addr + info.mmap_length) % 2 ^ 32) info.mmap_addr
        0 (next_line (print_str s (codes "Memory map:") normal))

-- The screen at the end, from the memory of the screen at the start.
unfoldable pub kernel_main :
    (ℕ → List ℕ) → (ℕ → MultibootMmapEntry) → (ℕ → ℕ) → ℕ → MultibootInfo → Option Screen
kernel_main string_at entry_at vga magic info = do
  let cleared : Screen = record { vga = clear_cells vga 0 2000; x = 0; y = 0 }
  let title = next_line (print_str cleared (codes "=== Multiboot Kernel Demo ===") 0x0F)
  s ←
      on_flag info.flags 9 (text_line (codes "Loader: ") (string_at info.boot_loader_name) green)
        (magic_line magic title)
  s ← on_flag info.flags 2 (text_line (codes "Cmdline: ") (string_at info.cmdline) yellow) s
  s ← on_flag info.flags 0 (mem_line info) s
  s ← on_flag info.flags 6 (mmap_lines entry_at info) s
  s ← on_flag info.flags 3 (mods_line info) s
  some (print_str s (codes "Halted.") normal)
