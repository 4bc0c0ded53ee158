-- ===== src/Boot/Printing.antt =====
-- The steps of `entry` that print change nothing but the screen.
use mp.Prelude.{ℕ, zero, suc, ◌+◌, ◌%◌, ◌^◌, ◌≡◌, refl, ◌∙◌, ap, List, [], ◌∷◌, Bool, true, false}
use mp.Prelude.{if◌then◌else◌}
use Prim.Native.String.{String}
use mp.Screen.{Screen}
use mp.Strings.{Arg, word}
use mp.FileSystem.Words.{load32}
use mp.Process.{Kernel, set_files, mem_of}
use mp.Boot.Info.{say, has_flag, char_word, print_bytes, print_modules, print_memory, print_elf}

abbrev pub with_screen : Screen → Kernel → Kernel
with_screen s k = set_files (record k.devices.files { screen = s }) k

abbrev pub Printed : Kernel → Kernel → Type 0
Printed k k' = (s : Screen) × (k' ≡ with_screen s k)

pub Printed-refl : (k : Kernel) → Printed k k
Printed-refl k = (k.devices.files.screen, refl)

pub Printed-trans : (k k₁ k₂ : Kernel) → Printed k k₁ → Printed k₁ k₂ → Printed k k₂
Printed-trans k k₁ k₂ p q = (q.0, q.1 ∙ ap (with_screen q.0) p.1)

pub say-Printed : (line : String) (args : List Arg) (k : Kernel) → Printed k (say line args k)
say-Printed line args k = (_, refl)

pub Printed-if :
    (b : Bool) (k k₁ k₂ : Kernel) → Printed k k₁ → Printed k k₂ → Printed k (if b then k₁ else k₂)
Printed-if true k k₁ k₂ p q = p
Printed-if false k k₁ k₂ p q = q

pub print_bytes-Printed : (left i start : ℕ) (k : Kernel) → Printed k (print_bytes left i start k)
unfolding print_bytes
print_bytes-Printed zero i start k = Printed-refl k
print_bytes-Printed (suc left) i start k =
    let k₁ = say "0x%x " (word (char_word (mem_of k ((start + i) % 2 ^ 32))) ∷ []) k in
    Printed-trans k k₁ _ (say-Printed _ _ k) (print_bytes-Printed left (i + 1) start k₁)

pub print_modules-Printed :
    (left mod_count module_at : ℕ) (k : Kernel)
    → Printed k (print_modules left mod_count module_at k)
unfolding print_modules
print_modules-Printed zero mod_count module_at k = Printed-refl k
print_modules-Printed (suc left) mod_count module_at k =
    let mod_start = load32 (mem_of k) module_at in
    let mod_end = load32 (mem_of k) (module_at + 4) in
    let k₁ : Kernel = say "First few bytes of module:\n" [] (
      say "Module %d ends at address: 0x%#x\n" (word mod_count ∷ word mod_end ∷ [])
        (say "Module %d loaded at address: 0x%#x\n" (word mod_count ∷ word mod_start ∷ []) k)) in
    let k₂ = print_bytes 16 0 mod_start k₁ in
    Printed-trans k k₁ _ (_, refl)
      (Printed-trans k₁ k₂ _ (print_bytes-Printed 16 0 mod_start k₁) (
        Printed-trans k₂ (say "\n" [] k₂) _ (_, refl)
          (print_modules-Printed left (mod_count + 1) (module_at + 16) (say "\n" [] k₂))))

pub print_memory-Printed : (addr : ℕ) (k : Kernel) → Printed k (print_memory addr k)
unfolding print_memory
print_memory-Printed addr k =
    let flags = load32 (mem_of k) (addr + 0) in
    let k₀ = say "flags = 0x%#x\n" (word flags ∷ []) k in
    let k₁ : Kernel =
      if has_flag flags 0
      then say "mem_lower = %uKB, mem_upper = %uKB\n"
          (word (load32 (mem_of k) (addr + 4)) ∷ word (load32 (mem_of k) (addr + 8)) ∷ []) k₀
      else k₀ in
    let first : Printed k k₁ = Printed-if (has_flag flags 0) k _ k₀ (_, refl) (_, refl) in
    Printed-trans k k₁ _ first
      (Printed-if (has_flag flags 1) k₁ _ k₁ (say-Printed _ _ k₁) (Printed-refl k₁))

pub print_elf-Printed : (addr : ℕ) (k : Kernel) → Printed k (print_elf addr k)
unfolding print_elf
print_elf-Printed addr k =
    Printed-if (has_flag (load32 (mem_of k) (addr + 0)) 5) k _ k (_, refl) (Printed-refl k)
