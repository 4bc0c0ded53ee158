-- ===== src/Boot/Ready.antt =====
-- What `entry` has set up when it starts the shell, and that its loops end.
use mp.Prelude.{
  ℕ, zero, suc, ◌+◌, ◌*◌, ◌%◌, ◌^◌, ◌≤◌, ◌<◌, ◌≡◌, refl, ◌⊎◌, inl, inr, ◌∙◌, sym, ap, arith,
}
use mp.Prelude.{some, true, false, ◌==◌, ◌&&◌, not, if◌then◌else◌, Option-cases}
use mp.Prelude.{Bool, Memory, dec_lt, map, [], ◌∷◌}
use mp.Strings.{word}
use mathlib.Core.Path.{subst}
use mathlib.Core.Option.{some-injective, none-ne-some}
use mp.Prelude.Int.{ℤ, pos, success, failure}
use mp.Prelude.Runs.{Run, from_option, >>=-eq-ok, ok-injective, from_option-eq-ok}
use mp.Pic.{Pic, enable_irq, disable_irq, i8259_init}
use mp.Pic.Masks.{IsSynced}
use mp.Keyboard.{keyboard_init}
use mp.Rtc.{Rtc, rtc_init, get_rate}
use mp.Idt.{idt_init}
use mp.Paging.{Tables, paging_init}
use mp.FileSystem.Words.{load32}
use mp.Process.{Kernel, mem_of}
use mp.Process.Execute.{execute}
use mp.Process.Outcome.{execute-Ends}
use mp.Boot.{
  SegDesc, set_ldt_params, Machine, Setting, Booted, returned, executed, start_up, entry,
  set_segments, read_maps,
}
use mp.Boot.{clear_screen}
use mp.Boot.Devices.{init_first, init_devices}
use mp.Boot.Printing.{Printed, Printed-refl, Printed-trans}
use mp.Boot.Info.{print_mmap, print_info, print_maps, has_flag, say}

-- For a 32-bit address and a limit of 20 bits, the parts of the descriptor put together are the
-- address and the limit, and the access fields stay.
pub set_ldt_params_lem :
    (addr lim : ℕ) (str : SegDesc)
    → addr < 2 ^ 32
    → lim < 2 ^ 20
    → let d = set_ldt_params addr lim str in
      (d.base_31_24 * 2 ^ 24 + d.base_23_16 * 2 ^ 16 + d.base_15_00 ≡ addr)
      × (d.seg_lim_19_16 * 2 ^ 16 + d.seg_lim_15_00 ≡ lim)
      × (d.type ≡ str.type)
      × (d.present ≡ str.present)
      × (d.dpl ≡ str.dpl)
unfolding set_ldt_params
set_ldt_params_lem addr lim str ha hl = (omega arith, omega arith, refl, refl, refl)

-- The controllers after the three steps.
final_pic : Pic → Pic
final_pic p = enable_irq 8 (disable_irq 8 (enable_irq 1 (i8259_init p)))

final_masks :
    (p : Pic)
    → ((final_pic p).master_mask ≡ 0xF9) × ((final_pic p).slave_mask ≡ 0) × IsSynced (final_pic p)
unfolding final_pic enable_irq disable_irq i8259_init
final_masks p = ground arith

-- The kernel when `execute` is called: the controllers let through lines 1, 2 and 8 to 15 and know
-- it, the tables are those of `paging_init`, and interrupts are on.
pub record IsReady (k : Kernel) : Type 0 where
  pub master : k.devices.rtc.pic.master_mask ≡ 0xF9
  pub slave : k.devices.rtc.pic.slave_mask ≡ 0
  pub synced : IsSynced k.devices.rtc.pic
  pub tables : (t : Tables) × (k.tables ≡ paging_init t)
  pub stack : k.esp0 ≡ 0x800000
  pub on : k.interrupts ≡ true

rtc_init-pic :
    (fuel prev_b prev_a : ℕ) (r r' : Rtc)
    → rtc_init fuel prev_b prev_a r ≡ some r'
    → r'.pic ≡ enable_irq 8 (disable_irq 8 r.pic)
unfolding rtc_init
rtc_init-pic fuel prev_b prev_a r r' e = elim (Option-cases (get_rate fuel (pos 1024))) [
  | inl g ↦ absurd (none-ne-some r' (rw (g, rtc_init) at e))
  | inr (z, g) ↦ sym (ap (λ (x : Rtc). x.pic) (some-injective _ _ (rw (g, rtc_init) at e)))
]

init_devices-IsReady :
    (fuel prev_b prev_a : ℕ) (k₀ k : Kernel)
    → k₀.esp0 ≡ 0x800000
    → init_devices fuel prev_b prev_a k₀ ≡ some k
    → IsReady (record k { interrupts = true })
unfolding init_devices init_first keyboard_init final_pic
init_devices-IsReady fuel prev_b prev_a k₀ k stack e =
    elim (Option-cases (rtc_init fuel prev_b prev_a (init_first k₀).devices.rtc)) [
      | inl g ↦ absurd (none-ne-some k (rw g at e))
      | inr (r, g) ↦
          let pic = rtc_init-pic fuel prev_b prev_a (init_first k₀).devices.rtc r g in
          let masks = final_masks k₀.devices.rtc.pic in
          subst (λ (x : Kernel). IsReady (record x { interrupts = true }))
            (some-injective _ _ (rw g at e))
            (record {
              master = ap (λ (p : Pic). p.master_mask) pic ∙ masks.0;
              slave = ap (λ (p : Pic). p.slave_mask) pic ∙ masks.1;
              synced = subst IsSynced (sym pic) masks.2;
              tables = (k₀.tables, refl);
              stack = stack;
              on = refl;
            })
    ]

-- What is known when `execute` has come back.
abbrev Started : ℕ → Setting → Machine → ℤ → Machine → Type 0
Started fuel s m z m' =
    (k : Kernel) × IsReady k
    × (execute fuel s.frame s.seen s.shell k ≡ some (z, m'.kernel))
    × (m'.idt ≡ m.idt)

answer : Booted → ℤ
answer (returned m) = pos 0
answer (executed z m) = z

machine_of : Booted → Machine
machine_of (returned m) = m
machine_of (executed z m) = m

start_up-Started :
    (fuel : ℕ) (s : Setting) (m : Machine) (b : Booted)
    → start_up fuel s m ≡ Run.ok b
    → Started fuel s m (answer b) (machine_of b)
unfolding start_up set_segments answer machine_of
start_up-Started fuel s m b e =
    let (k, e₁, e₂) = >>=-eq-ok _ _ b e in
    let (r, e₃, e₄) = >>=-eq-ok _ _ b e₂ in
    subst (λ (x : Booted). Started fuel s m (answer x) (machine_of x)) (ok-injective _ _ e₄)
      (
        record k { interrupts = true },
        init_devices-IsReady fuel s.prev_b s.prev_a _ k refl (from_option-eq-ok _ k e₁),
        from_option-eq-ok _ r e₃,
        refl,
      )

-- Where `entry` does not return at once, the test did not hold.
passed :
    (b : Bool) (m : Machine) (g : Run Booted) (z : ℤ) (m' : Machine)
    → (if b then Run.ok (returned m) else g) ≡ Run.ok (executed z m')
    → b ≡ false
passed true m g z m' e = absurd (returned-ne-executed (ok-injective _ _ e))
  where
    returned-ne-executed : returned m ≡ executed z m' → ⊥
    returned-ne-executed q = cc
passed false m g z m' e = refl

entry-magic :
    (fuel : ℕ) (s : Setting) (magic addr : ℕ) (m : Machine) (z : ℤ) (m' : Machine)
    → entry fuel s magic addr m ≡ Run.ok (executed z m')
    → magic ≡ 0x2BADB002
unfolding entry
entry-magic fuel s magic addr m z m' e =
    let right = passed (not (magic == 0x2BADB002)) _ _ z m' e in ground (arith, right)

not_returned :
    (b : Bool) (m : Machine) (g : Run Booted) (z : ℤ) (m' : Machine)
    → (if b then Run.ok (returned m) else g) ≡ Run.ok (executed z m')
    → g ≡ Run.ok (executed z m')
not_returned true m g z m' e = absurd (returned-ne-executed (ok-injective _ _ e))
  where
    returned-ne-executed : returned m ≡ executed z m' → ⊥
    returned-ne-executed q = cc
not_returned false m g z m' e = e

entry-Started :
    (fuel : ℕ) (s : Setting) (magic addr : ℕ) (m : Machine) (z : ℤ) (m' : Machine)
    → entry fuel s magic addr m ≡ Run.ok (executed z m')
    → Started fuel s (record m { idt = idt_init s.handlers m.idt }) z m'
unfolding entry read_maps answer machine_of
entry-Started fuel s magic addr m z m' e =
    let idt = idt_init s.handlers m.idt in
    let m₁ : Machine = record m { idt = idt; kernel = clear_screen m.kernel } in
    let rest : Kernel → Run Booted = λ k. read_maps fuel s addr (record m₁ { kernel = k }) in
    let (k, _, e₁) =
      >>=-eq-ok (from_option (print_info fuel addr m₁.kernel)) rest (executed z m')
        (not_returned (not (magic == 0x2BADB002)) _ _ z m' e) in
    let start : Kernel → Run Booted = λ k. start_up fuel s (record m₁ { kernel = k }) in
    let (k₁, _, e₂) =
      >>=-eq-ok (from_option (print_maps fuel addr k)) start (executed z m')
        (not_returned (both k) _ _ z m' e₁) in
    start_up-Started fuel s (record m₁ { kernel = k₁ }) (executed z m') e₂
  where
    both : Kernel → Bool
    both k = has_flag (load32 (mem_of k) addr) 4 && has_flag (load32 (mem_of k) addr) 5

-- Whenever `entry` comes back from `execute`, the boot loader's number was right, the interrupt
-- table is that of `idt_init`, and a kernel that is ready was given to `execute`; the shell runs with
-- interrupts on, or the answer is -1 and the loop of `hlt` starts with interrupts off.
pub entry-starts :
    (fuel : ℕ) (s : Setting) (magic addr : ℕ) (m : Machine) (z : ℤ) (m' : Machine)
    → entry fuel s magic addr m ≡ Run.ok (executed z m')
    → (magic ≡ 0x2BADB002)
      × (m'.idt ≡ idt_init s.handlers m.idt)
      × ((k : Kernel) × IsReady k × (execute fuel s.frame s.seen s.shell k ≡ some (z, m'.kernel)))
      × (((z ≡ success) × (m'.kernel.interrupts ≡ true))
          ⊎ ((z ≡ failure) × (m'.kernel.interrupts ≡ false)))
entry-starts fuel s magic addr m z m' e =
    let (k, ready, ran, idt) = entry-Started fuel s magic addr m z m' e in
    (
      entry-magic fuel s magic addr m z m' e,
      idt,
      (k, ready, ran),
      elim (execute-Ends fuel s.frame s.seen s.shell k (z, m'.kernel) ran) [
        | inl (good, (on, _)) ↦ inl (good, on)
        | inr (bad, (off, _)) ↦ inr (bad, off)
      ],
    )

printed : ℕ → Kernel → Kernel
printed mmap k =
    say "    size = 0x%x, base_addr = 0x%#x%#x\n    type = 0x%x,  length    = 0x%#x%#x\n"
      (map (λ (o : ℕ). word (load32 (mem_of k) (mmap + o))) (0 ∷ 8 ∷ 4 ∷ 20 ∷ 16 ∷ 12 ∷ [])) k

mmap-stops :
    (fuel mmap end : ℕ) (k : Kernel) → end ≤ mmap → print_mmap (suc fuel) mmap end k ≡ some k
unfolding print_mmap
mmap-stops fuel mmap end k h = ground arith

-- A memory map of at most `n` entries from `mmap` to `end`: each entry's first word is the number of
-- bytes from behind that word to the next entry, which stands below 2^32.
unfoldable pub IsMap : ℕ → ℕ → ℕ → Memory → Type 0
IsMap zero mmap end m = end ≤ mmap
IsMap (suc n) mmap end m =
    (end ≤ mmap) ⊎ ((mmap + load32 m mmap + 4 < 2 ^ 32) × IsMap n (mmap + load32 m mmap + 4) end m)

-- The loop over a memory map ends within a round for every entry and one more, and it changes nothing
-- but the screen.
pub print_mmap-ends :
    (fuel mmap end : ℕ) (k : Kernel)
    → IsMap fuel mmap end (mem_of k)
    → (k' : Kernel) × (print_mmap (suc fuel) mmap end k ≡ some k') × Printed k k'
unfolding print_mmap printed IsMap
print_mmap-ends zero mmap end k w = (k, mmap-stops 0 mmap end k (omega arith), Printed-refl k)
print_mmap-ends (suc fuel) mmap end k (inl past) =
    (k, mmap-stops (suc fuel) mmap end k past, Printed-refl k)
print_mmap-ends (suc fuel) mmap end k (inr (small, w)) = elim (dec_lt mmap end) [
  | no past ↦ (k, mmap-stops (suc fuel) mmap end k (omega arith), Printed-refl k)
  | yes below ↦
      let same = ap (load32 (mem_of k)) {x = mmap + 0} {y = mmap} (omega arith) in
      let next : mmap + load32 (mem_of k) mmap + 4
          ≡ (mmap + load32 (mem_of k) (mmap + 0) + 4) % 2 ^ 32 =
        omega (arith, same) in
      let (k', e, p) =
        print_mmap-ends fuel ((mmap + load32 (mem_of k) (mmap + 0) + 4) % 2 ^ 32) end
          (printed mmap k) (subst (λ (a : ℕ). IsMap fuel a end (mem_of k)) next w) in
      (k', ground (arith, below, e), Printed-trans k (printed mmap k) k' (_, refl) p)
]
