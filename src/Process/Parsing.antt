-- ===== src/Process/Parsing.antt =====
-- What `execute` takes for the file's name.
use mp.Prelude.{
  ℕ, zero, suc, ◌+◌, ◌-◌, ◌≤◌, ◌<◌, ◌≡◌, ◌≢◌, ◌⊎◌, ◌∙◌, sym, ap, arith, Memory, update,
}
use mp.Prelude.{◌&&◌, leb, ltb, ◌==◌, if◌then◌else◌, some, ℕ_discrete}
use mp.Strings.Lengths.{IsText}
use mp.Process.{Frame}
use mp.Process.Execute.{skip_spaces, copy_name, copy_args, parse}

-- The memory with `n` bytes from `src` put at `dest`.
abbrev put : ℕ → ℕ → ℕ → Memory → Memory
put dest src n m = λ a. if leb dest a && ltb a (dest + n) then m (src + (a - dest)) else m a

abbrev Apart : ℕ → ℕ → ℕ → Type 0
Apart a b n = (a + n ≤ b) ⊎ (b + n ≤ a)

copy_name-go :
    (left command dest cur i f : ℕ) (m : Memory)
    → m (command + cur) ≢ b' '
    → copy_name (suc left) command dest cur i f m
      ≡ copy_name left command dest cur (i + 1) (f + 1) (update m (dest + f) (m (command + i)))
unfolding copy_name
copy_name-go left command dest cur i f m h = ground arith

-- Where the character at `cur` is not a space, every round copies a character.
copy_name-at :
    (left command dest cur i f n : ℕ) (m : Memory)
    → m (command + cur) ≢ b' '
    → cur ≤ i
    → i + left ≤ n
    → f + left ≤ n
    → Apart dest command (n + 1)
    → let r = copy_name left command dest cur i f m in
      (r.0 ≡ f + left) × ((a : ℕ) → r.1 a ≡ put (dest + f) (command + i) left m a)
copy_name-at zero command dest cur i f n m h lo hi hf d =
    unfold copy_name in (omega arith, λ a. ground arith)
copy_name-at (suc left) command dest cur i f n m h lo hi hf d =
    let m₁ = update m (dest + f) (m (command + i)) in
    let (count, bytes) =
      copy_name-at left command dest cur (i + 1) (f + 1) n m₁ (ground arith) (omega arith)
        (omega arith) (omega arith) d in
    rw (copy_name-go left command dest cur i f m h) (count ∙ omega arith, λ a. bytes a ∙ shifted a)
  where
    shifted :
        (a : ℕ)
        → put (dest + (f + 1)) (command + (i + 1)) left (update m (dest + f) (m (command + i))) a
          ≡ put (dest + f) (command + i) (suc left) m a
    shifted a = elim (ℕ_discrete a (dest + f)) [
      | yes e ↦ ground (arith, ap m {x = command + i} {y = command + i + (a - (dest + f))})
      | no ne ↦ ground (
        arith,
        ap m {x = command + (i + 1) + (a - (dest + (f + 1)))} {y = command + i + (a - (dest + f))},
      )
    ]

skip_spaces-go :
    (fuel command i : ℕ) (m : Memory)
    → m (command + i) ≡ b' '
    → skip_spaces (suc fuel) command i m ≡ skip_spaces fuel command (i + 1) m
unfolding skip_spaces
skip_spaces-go fuel command i m h = ground arith

skip_spaces-stop :
    (fuel command i : ℕ) (m : Memory)
    → m (command + i) ≢ b' '
    → skip_spaces (suc fuel) command i m ≡ some i
unfolding skip_spaces
skip_spaces-stop fuel command i m h = ground arith

-- With fuel, the first character from `i` on that is not a space is found.
skip_spaces-first :
    (fuel command i cur : ℕ) (m : Memory)
    → i ≤ cur
    → cur < i + fuel
    → ((j : ℕ) → i ≤ j → j < cur → m (command + j) ≡ b' ')
    → m (command + cur) ≢ b' '
    → skip_spaces fuel command i m ≡ some cur
skip_spaces-first zero command i cur m lo hi spaces stop = absurd (omega arith)
skip_spaces-first (suc fuel) command i cur m lo hi spaces stop = elim (ℕ_discrete i cur) [
  | yes e ↦
      skip_spaces-stop fuel command i m (λ s. stop (ap (λ (x : ℕ). m (command + x)) (sym e) ∙ s))
      ∙ ap (λ (x : ℕ). some x) e
  | no ne ↦
      skip_spaces-go fuel command i m (spaces i (omega arith) (omega arith))
      ∙ skip_spaces-first fuel command (i + 1) cur m (omega arith) (omega arith)
          (λ j a b. spaces j (omega arith) b) stop
]

-- At the end of the command the loop of the arguments is not entered.
copy_args-end :
    (fuel command dest arg_start cmd_length i : ℕ) (m : Memory)
    → cmd_length ≤ arg_start
    → copy_args (suc fuel) command dest arg_start cmd_length i m ≡ some m
unfolding copy_args
copy_args-end fuel command dest arg_start cmd_length i m h = ground arith

parse-stages :
    (fuel : ℕ) (f : Frame) (command n cur arg_start : ℕ) (m m' : Memory)
    → skip_spaces fuel command 0 m ≡ some cur
    → let (count, m₁) = copy_name (n - cur) command f.file_command cur cur 0 m in
      let m₂ = update m₁ (f.file_command + count) 0 in
      skip_spaces fuel command (cur + count) m₂ ≡ some arg_start
      → copy_args fuel command f.arg_command arg_start n 0 m₂ ≡ some m'
      → parse fuel f command n m ≡ some m'
unfolding parse
parse-stages fuel f command n cur arg_start m m' a b c = rw a (rw b c)

-- The memory with the characters of the command from `cur` to its end at `n` put at `dest`, and a 0
-- behind them.
abbrev pub named : ℕ → ℕ → ℕ → Memory → Memory
named dest src n m = λ a.
    if leb dest a && ltb a (dest + n)
    then m (src + (a - dest))
    else if a == dest + n
    then 0
    else m a

-- For a command of `n` characters, apart from `file_command`, whose first character that is not a
-- space is at `cur`, and with more fuel than `n`, the parser of `execute` ends: it takes all the
-- rest of the command for the file's name, the arguments and any spaces included, puts a 0 behind
-- it, and stores no arguments.
pub parse_lem :
    (fuel : ℕ) (f : Frame) (command n cur : ℕ) (m : Memory)
    → IsText m command n
    → n < fuel
    → cur < n
    → ((j : ℕ) → j < cur → m (command + j) ≡ b' ')
    → m (command + cur) ≢ b' '
    → (f.file_command + (n + 1) ≤ command) ⊎ (command + (n + 1) ≤ f.file_command)
    → (m' : Memory) × (parse fuel f command n m ≡ some m')
      × ((a : ℕ) → m' a ≡ named f.file_command (command + cur) (n - cur) m a)
parse_lem zero f command n cur m t h lt spaces stop d = elim h [ ]
parse_lem (suc fuel) f command n cur m t h lt spaces stop d =
    let r = copy_name (n - cur) command f.file_command cur cur 0 m in
    let (count, bytes) =
      copy_name-at (n - cur) command f.file_command cur cur 0 n m stop (omega arith) (omega arith)
        (omega arith) d in
    let m' = update r.1 (f.file_command + r.0) 0 in
    let at : (a : ℕ) → m' a ≡ named f.file_command (command + cur) (n - cur) m a = λ a. ground (
      arith,
      count,
      bytes a,
      ap m {x = command + cur + (a - (f.file_command + 0))}
          {y = command + cur + (a - f.file_command)},
    ) in
    let ended : m' (command + (cur + r.0)) ≢ b' ' = λ s. ground (
      arith,
      at (command + (cur + r.0)),
      count,
      t.ends,
      ap m {x = command + (cur + r.0)} {y = command + n},
    ) in
    (
      m',
      parse-stages (suc fuel) f command n cur (cur + r.0) m m'
          (skip_spaces-first (suc fuel) command 0 cur m (omega arith) (omega arith)
            (λ j a b. spaces j b) stop)
          (skip_spaces-stop fuel command (cur + r.0) m' ended)
          (copy_args-end fuel command f.arg_command (cur + r.0) n 0 m' (omega (arith, count))),
      at,
    )
