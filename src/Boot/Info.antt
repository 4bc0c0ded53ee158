-- ===== src/Boot/Info.antt =====
-- The part of `entry` that prints what the boot loader has left.
use mp.Prelude.{ℕ, zero, suc, ◌+◌, ◌-◌, ◌/◌, ◌%◌, ◌^◌, Bool, ltb, ◌==◌, if◌then◌else◌}
use mp.Prelude.{Option, none, some, List, [], ◌∷◌, Memory}
use Prim.Native.String.{String}
use mp.Strings.{Arg, printf, word, text, strlen}
use mp.FileSystem.{filesystem_init, ◌>>=◌}
use mp.FileSystem.Words.{load32}
use mp.Process.{Kernel, set_files, mem_of}

abbrev pub say : String → List Arg → Kernel → Kernel
say line args k =
    set_files (record k.devices.files { screen = printf line args k.devices.files.screen }) k

-- `CHECK_FLAG`.
abbrev pub has_flag : ℕ → ℕ → Bool
has_flag flags bit = flags / 2 ^ bit % 2 == 1

-- The bytes of a string.
unfoldable pub bytes_at : ℕ → ℕ → Memory → List ℕ
bytes_at zero s m = []
bytes_at (suc n) s m = m s ∷ bytes_at n (s + 1) m

-- A char as the int that is passed on.
abbrev pub char_word : ℕ → ℕ
char_word b = if ltb b 128 then b else b + (2 ^ 32 - 256)

-- The loop over the first bytes of a module, from `i` on.
unfoldable pub print_bytes : ℕ → ℕ → ℕ → Kernel → Kernel
print_bytes zero i start k = k
print_bytes (suc left) i start k =
    print_bytes left (i + 1) start
      (say "0x%x " (word (char_word (mem_of k ((start + i) % 2 ^ 32))) ∷ []) k)

-- The loop over the modules, from number `mod_count` at `module_at` on. A `module_t` has 16 bytes.
unfoldable pub print_modules : ℕ → ℕ → ℕ → Kernel → Kernel
print_modules zero mod_count module_at k = k
print_modules (suc left) mod_count module_at k =
    let mod_start = load32 (mem_of k) module_at in
    let mod_end = load32 (mem_of k) (module_at + 4) in
    let k₁ =
      say "Module %d ends at address: 0x%#x\n" (word mod_count ∷ word mod_end ∷ [])
        (say "Module %d loaded at address: 0x%#x\n" (word mod_count ∷ word mod_start ∷ []) k) in
    let k₂ = print_bytes 16 0 mod_start (say "First few bytes of module:\n" [] k₁) in
    print_modules left (mod_count + 1) (module_at + 16) (say "\n" [] k₂)

-- The fields of `multiboot_info_t`: flags at 0, mem_lower and mem_upper at 4 and 8, boot_device at
-- 12, cmdline at 16, mods_count and mods_addr at 20 and 24.
unfoldable pub print_memory : ℕ → Kernel → Kernel
print_memory addr k =
    let field = λ (o : ℕ). load32 (mem_of k) (addr + o) in
    let k₀ = say "flags = 0x%#x\n" (word (field 0) ∷ []) k in
    let k₁ =
      if has_flag (field 0) 0
      then say "mem_lower = %uKB, mem_upper = %uKB\n" (word (field 4) ∷ word (field 8) ∷ []) k₀
      else k₀ in
    if has_flag (field 0) 1 then say "boot_device = 0x%#x\n" (word (field 12) ∷ []) k₁ else k₁

unfoldable pub print_cmdline : ℕ → ℕ → Kernel → Option Kernel
print_cmdline fuel addr k =
    let cmdline = load32 (mem_of k) (addr + 16) in
    let line = strlen fuel (mem_of k) cmdline >>= λ n.
    some (say "cmdline = %s\n" (text (bytes_at n cmdline (mem_of k)) ∷ []) k) in
    if has_flag (load32 (mem_of k) addr) 2 then line else some k

-- The file system is the first module.
unfoldable pub load_modules : ℕ → Kernel → Kernel
load_modules addr k =
    let mods_addr = load32 (mem_of k) (addr + 24) in
    let started = set_files (filesystem_init (load32 (mem_of k) mods_addr) k.devices.files).1 k in
    let loaded = print_modules (load32 (mem_of k) (addr + 20)) 0 mods_addr started in
    if has_flag (load32 (mem_of k) addr) 3 then loaded else k

-- Up to the test of bits 4 and 5.
unfoldable pub print_info : ℕ → ℕ → Kernel → Option Kernel
print_info fuel addr k =
    print_cmdline fuel addr (print_memory addr k) >>= λ k₁. some (load_modules addr k₁)

-- The section header table: num, size, addr and shndx from 28 on.
unfoldable pub print_elf : ℕ → Kernel → Kernel
print_elf addr k =
    let field = λ (o : ℕ). load32 (mem_of k) (addr + o) in
    if has_flag (field 0) 5
    then say "elf_sec: num = %u, size = 0x%#x, addr = 0x%#x, shndx = 0x%#x\n"
        (word (field 28) ∷ word (field 32) ∷ word (field 36) ∷ word (field 40) ∷ []) k
    else k

-- The loop over the memory map, from `mmap` to `end`; the additions are of unsigned long.
unfoldable pub print_mmap : ℕ → ℕ → ℕ → Kernel → Option Kernel
print_mmap zero mmap end k = none
print_mmap (suc fuel) mmap end k =
    let field = λ (o : ℕ). load32 (mem_of k) (mmap + o) in
    let printed =
      say "    size = 0x%x, base_addr = 0x%#x%#x\n    type = 0x%x,  length    = 0x%#x%#x\n"
        (word (field 0)
          ∷ word (field 8)
          ∷ word (field 4)
          ∷ word (field 20)
          ∷ word (field 16)
          ∷ word (field 12)
          ∷ [])
        k in
    let rest = print_mmap fuel ((mmap + field 0 + 4) % 2 ^ 32) end printed in
    if ltb mmap end then rest else some k

-- From the test of bit 5 on; mmap_length at 44 and mmap_addr at 48.
unfoldable pub print_maps : ℕ → ℕ → Kernel → Option Kernel
print_maps fuel addr k₀ =
    let k = print_elf addr k₀ in
    let field = λ (o : ℕ). load32 (mem_of k) (addr + o) in
    let maps =
      print_mmap fuel (field 48) ((field 48 + field 44) % 2 ^ 32) (
        say "mmap_addr = 0x%#x, mmap_length = 0x%x\n" (word (field 48) ∷ word (field 44) ∷ []) k) in
    if has_flag (field 0) 6 then maps else some k
