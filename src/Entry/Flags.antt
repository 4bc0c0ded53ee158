-- ===== src/Entry/Flags.antt =====
-- The macros of lib.h that clear, save and restore the flag that lets interrupts through.
use mp.Prelude.{ℕ, ◌-◌, ◌^◌, ◌≡◌, ◌≤◌, ◌<◌, ◌∙◌, arith, if◌then◌else◌, false}
use mp.Entry.{Cpu, push, top, discard, has_interrupts}

unfoldable pub cli : Cpu → Cpu
cli c = if has_interrupts c then record c { eflags = c.eflags - 512 } else c

-- The flags that are saved, and the processor.
unfoldable pub cli_and_save : Cpu → ℕ × Cpu
cli_and_save c = let s : Cpu = push c.eflags c in (top s, cli (discard s))

unfoldable pub restore_flags : ℕ → Cpu → Cpu
restore_flags flags c = let s : Cpu = push flags c in record (discard s) { eflags = top s }

-- The stack pointer is the same, and so are the words from it on.
record KeepsStack (c d : Cpu) : Type 0 where
  esp : d.esp ≡ c.esp
  above : (a : ℕ) → c.esp ≤ a → d.words a ≡ c.words a

cli-has_interrupts : (c : Cpu) → has_interrupts (cli c) ≡ false
unfolding cli
cli-has_interrupts c = ground arith

cli-KeepsStack : (c d : Cpu) → KeepsStack c d → KeepsStack c (cli d)
unfolding cli
cli-KeepsStack c d k =
    let esp : ((cli d).esp ≡ d.esp) = ground arith in
    let words : (a : ℕ) → (cli d).words a ≡ d.words a = λ a. ground arith in
    record { esp = esp ∙ k.esp; above = λ a h. words a ∙ k.above a h }

cli_and_save-saves :
    (c : Cpu)
    → 4 ≤ c.esp
    → c.esp < 2 ^ 32
    → let r = cli_and_save c in (r.0 ≡ c.eflags) × KeepsStack c r.1 × (has_interrupts r.1 ≡ false)
unfolding cli_and_save
cli_and_save-saves c low high =
    let s : Cpu = discard (push c.eflags c) in
    let kept : KeepsStack c s = record { esp = omega arith; above = λ a h. ground arith } in
    (ground arith, cli-KeepsStack c s kept, cli-has_interrupts s)

restore_flags_lem :
    (flags : ℕ) (c : Cpu)
    → 4 ≤ c.esp
    → c.esp < 2 ^ 32
    → ((restore_flags flags c).eflags ≡ flags) × KeepsStack c (restore_flags flags c)
unfolding restore_flags
restore_flags_lem flags c low high =
    (ground arith, record { esp = omega arith; above = λ a h. ground arith })

-- After a section of code between the two macros that keeps to its stack, whatever it does to the
-- flags, they are as they were before it, and so are the stack's pointer and words.
restore_flags-cli_and_save :
    (c d : Cpu)
    → 4 ≤ c.esp
    → c.esp < 2 ^ 32
    → let r = cli_and_save c in
      KeepsStack r.1 d
      → ((restore_flags r.0 d).eflags ≡ c.eflags) × KeepsStack c (restore_flags r.0 d)
restore_flags-cli_and_save c d low high k =
    let saved = cli_and_save-saves c low high in
    let kept = saved.1 in
    let same = k.esp ∙ kept.esp in
    let r = restore_flags_lem (cli_and_save c).0 d (omega arith) (omega arith) in
    (
      r.0 ∙ saved.0,
      record {
        esp = r.1.esp ∙ same;
        above = λ a h. r.1.above a (omega arith) ∙ k.above a (omega arith) ∙ kept.above a h;
      },
    )
