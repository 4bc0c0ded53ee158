-- ===== src/Boot/InfoEnds.antt =====
-- The parts of `entry` that print come to an end.
use mp.Prelude.{ℕ, suc, ◌+◌, ◌%◌, ◌^◌, ◌≡◌, ◌≢◌, inl, inr, refl, ◌∙◌, sym, ap}
use mp.Prelude.{true, false, if◌then◌else◌, some, Bool-cases}
use mathlib.Core.Path.{subst}
use mp.Strings.{text, word}
use mp.Prelude.{[], ◌∷◌}
use mp.Strings.Lengths.{strlen-IsText}
use mp.FileSystem.{filesystem_init}
use mp.FileSystem.Words.{load32}
use mp.Process.{Kernel, mem_of, set_files}
use mp.Boot.{Setting}
use mp.Boot.Info.{
  has_flag, print_memory, print_cmdline, load_modules, print_info, print_mmap, print_elf,
  print_maps, bytes_at, say,
}
use mp.Boot.Printing.{
  with_screen, Printed, Printed-refl, Printed-trans, say-Printed, print_modules-Printed,
  print_memory-Printed, print_elf-Printed,
}
use mp.Boot.Ready.{print_mmap-ends}
use mp.Boot.Given.{IsShell, IsShell-screen, IsInfo, found, found-screen}

true-ne-false : true ≢ false
true-ne-false q = cc

print_cmdline-Printed :
    (fuel addr : ℕ) (k : Kernel)
    → IsInfo fuel addr (mem_of k)
    → (k' : Kernel) × (print_cmdline (suc fuel) addr k ≡ some k') × Printed k k'
unfolding print_cmdline
print_cmdline-Printed fuel addr k info = elim (Bool-cases (has_flag (load32 (mem_of k) addr) 2)) [
  | inr off ↦ (k, rw off refl, Printed-refl k)
  | inl on ↦ elim info.command_line [
    | inl off ↦ absurd (true-ne-false (sym on ∙ off))
    | inr (n, t, h) ↦
        let cmdline = load32 (mem_of k) (addr + 16) in
        (
          say "cmdline = %s\n" (text (bytes_at n cmdline (mem_of k)) ∷ []) k,
          rw (on, strlen-IsText (suc fuel) n (mem_of k) cmdline t h) refl,
          say-Printed _ _ k,
        )
  ]
]

-- What the maps and the shell need of a kernel.
abbrev pub IsPrepared : ℕ → ℕ → Setting → Kernel → Type 0
IsPrepared fuel addr s k = IsInfo fuel addr (mem_of k) × IsShell (suc fuel) s k.devices.files

pub IsPrepared-Printed :
    (fuel addr : ℕ) (s : Setting) (k k' : Kernel)
    → Printed k k'
    → IsPrepared fuel addr s k
    → IsPrepared fuel addr s k'
IsPrepared-Printed fuel addr s k k' p h =
    subst (IsPrepared fuel addr s) (sym p.1)
      (h.0, IsShell-screen (suc fuel) s k.devices.files p.0 h.1)

loaded :
    (fuel addr : ℕ) (s : Setting) (k : Kernel)
    → IsInfo fuel addr (mem_of k)
    → IsShell (suc fuel) s (found addr k.devices.files)
    → IsPrepared fuel addr s (load_modules addr k)
unfolding load_modules filesystem_init
loaded fuel addr s k info shell = elim (Bool-cases (has_flag (load32 (mem_of k) addr) 3)) [
  | inr off ↦ rw off (info, rw off at shell)
  | inl on ↦
      let modules = load32 (mem_of k) (addr + 24) in
      let started : Kernel =
        set_files (filesystem_init (load32 (mem_of k) modules) k.devices.files).1 k in
      rw on (
        IsPrepared-Printed fuel addr s started _
          (print_modules-Printed (load32 (mem_of k) (addr + 20)) 0 modules started)
          (info, rw on at shell))
]

pub read_maps-Printed :
    (fuel addr : ℕ) (s : Setting) (k : Kernel)
    → IsPrepared fuel addr s k
    → (k' : Kernel) × (print_maps (suc fuel) addr k ≡ some k') × Printed k k'
unfolding print_maps
read_maps-Printed fuel addr s k h =
    let k₁ = print_elf addr k in
    let p = print_elf-Printed addr k in
    let info = (IsPrepared-Printed fuel addr s k k₁ p h).0 in
    let (k₂, e, p₂) = maps_from fuel addr k₁ info in (k₂, e, Printed-trans k k₁ k₂ p p₂)
  where
    maps_from :
        (fuel addr : ℕ) (k : Kernel)
        → IsInfo fuel addr (mem_of k)
        → (k' : Kernel) × ((if has_flag (load32 (mem_of k) (addr + 0)) 6
              then print_mmap
                  (suc fuel)
                  (load32 (mem_of k) (addr + 48))
                  ((load32 (mem_of k) (addr + 48) + load32 (mem_of k) (addr + 44)) % 2 ^ 32)
                  (say "mmap_addr = 0x%#x, mmap_length = 0x%x\n"
                    (word (load32 (mem_of k) (addr + 48))
                      ∷ word (load32 (mem_of k) (addr + 44))
                      ∷ [])
                    k)
              else some k)
            ≡ some k')
          × Printed k k'
    maps_from fuel addr k info = elim (Bool-cases (has_flag (load32 (mem_of k) (addr + 0)) 6)) [
      | inr off ↦ (k, rw off refl, Printed-refl k)
      | inl on ↦ elim info.map_inside [
        | inl off ↦ absurd (true-ne-false (sym on ∙ off))
        | inr entries ↦
            let k₁ =
              say "mmap_addr = 0x%#x, mmap_length = 0x%x\n"
                (word (load32 (mem_of k) (addr + 48)) ∷ word (load32 (mem_of k) (addr + 44)) ∷ [])
                k in
            let (k₂, e, q) =
              print_mmap-ends fuel (load32 (mem_of k) (addr + 48))
                ((load32 (mem_of k) (addr + 48) + load32 (mem_of k) (addr + 44)) % 2 ^ 32) k₁
                entries in
            (k₂, rw on e, Printed-trans k k₁ k₂ (_, refl) q)
      ]
    ]

-- The part that prints ends, and keeps what the rest needs.
pub info_printed :
    (fuel addr : ℕ) (s : Setting) (k : Kernel)
    → IsInfo fuel addr (mem_of k)
    → IsShell (suc fuel) s (found addr k.devices.files)
    → (k' : Kernel) × (print_info (suc fuel) addr k ≡ some k') × IsPrepared fuel addr s k'
unfolding print_info
info_printed fuel addr s k info shell =
    let (x, same) = print_memory-Printed addr k in
    let k₁ = print_memory addr k in
    let info₁ : IsInfo fuel addr (mem_of k₁) =
      subst (λ (q : Kernel). IsInfo fuel addr (mem_of q)) (sym same) info in
    let (k₂, e, (y, same₂)) = print_cmdline-Printed fuel addr k₁ info₁ in
    let shell₂ : IsShell (suc fuel) s (found addr k₂.devices.files) =
      subst (λ (q : Kernel). IsShell (suc fuel) s (found addr q.devices.files))
        (sym (same₂ ∙ ap (with_screen y) same))
        (found-screen (suc fuel) addr s k.devices.files y shell) in
    let info₂ : IsInfo fuel addr (mem_of k₂) =
      subst (λ (q : Kernel). IsInfo fuel addr (mem_of q)) (sym same₂) info₁ in
    (load_modules addr k₂, rw e refl, loaded fuel addr s k₂ info₂ shell₂)
