-- ===== src/Entry/Resume.antt =====
-- The end of `halt` in process.c: the assembly that goes back to the parent.
use mp.Prelude.{ℕ, ◌+◌, ◌%◌, ◌^◌, ◌≡◌, ◌≤◌, ◌<◌, ◌↔◌, ◌∙◌, ap, arith}
use mp.Entry.{Cpu, top, discard}
use mp.Process.Closing.{halt_result}

-- `leave` and `ret`.
abbrev pub leave : Cpu → Cpu
leave c₀ = let c : Cpu = record c₀ { esp = c₀.ebp } in record (discard c) { ebp = top c }

abbrev pub ret : Cpu → Cpu
ret c = record (discard c) { eip = top c }

-- With the two pointers saved in the control block, and the 16-bit result: `xorl` clears the register
-- whose lower half `movw` sets. The flags that `xorl` sets are not looked at.
unfoldable pub resume : ℕ → ℕ → ℕ → Cpu → Cpu
resume esp ebp result c = ret (leave (record c { esp = esp; ebp = ebp; eax = result % 2 ^ 16 }))

-- The function entered at `c`, with its return address on top of the stack, has its frame at `ebp`,
-- and the words of `d` still hold what it was entered with.
record HasFrame (ebp : ℕ) (c d : Cpu) : Type 0 where
  room : c.esp + 4 < 2 ^ 32
  place : ebp + 4 ≡ c.esp
  old : d.words ebp ≡ c.ebp
  back : d.words c.esp ≡ top c

-- The processor back from the function entered at `c`, with a value.
record HasReturned (value : ℕ) (c d : Cpu) : Type 0 where
  eax : d.eax ≡ value
  eip : d.eip ≡ top c
  esp : d.esp ≡ c.esp + 4
  ebp : d.ebp ≡ c.ebp

halt_result-lt : (status : ℕ) → status ≤ 255 → halt_result status < 2 ^ 16
halt_result-lt status h = ground arith

-- The value tells an exception from every other status.
halt_result-exception : (status : ℕ) → status ≤ 255 → (halt_result status ≡ 256) ↔ (status ≡ 0x0F)
halt_result-exception status h = ((λ e. ground arith), λ e. ground arith)

-- As long as the frame still stands where the base pointer was saved, the assembly returns from the
-- function of that frame to its caller, with the result for the status, whatever stack pointer was
-- saved with it.
resume-HasReturned :
    (esp ebp status : ℕ) (c d : Cpu)
    → status ≤ 255
    → HasFrame ebp c d
    → HasReturned (halt_result status) c (resume esp ebp (halt_result status) d)
unfolding resume
resume-HasReturned esp ebp status c d h f =
    let room = f.room in
    let place = f.place in
    let above : ((ebp + 4) % 2 ^ 32 ≡ c.esp) = omega arith in
    let small = halt_result-lt status h in
    record { eax = omega arith; eip = ap d.words above ∙ f.back; esp = omega arith; ebp = f.old }
