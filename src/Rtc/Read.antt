-- ===== src/Rtc/Read.antt =====
-- The virtual frequency, and how many interrupts `rtc_read` waits for.
use mp.Prelude.{ℕ, zero, suc, ◌+◌, ◌/◌, ◌≤◌, ◌≡◌, refl, ◌≢◌, ◌∙◌, arith}
use mp.Prelude.{Bool-cases, inl, inr, length, ◌==◌, List, [], ◌∷◌}
use mp.Prelude.Int.{ℤ, pos, negsuc, failure, success}
use mp.Rtc.{Rtc, Event, interrupt, look, Outcome, done, waiting, fault}
use mp.Rtc.{rtc_open, rtc_write, rtc_read, rtc_interrupt_handler, read_loop}

-- The frequency is one that `rtc_read` can divide by.
abbrev pub IsValid : Rtc → Type 0
IsValid r = (2 ≤ r.rtc_freq) × (r.rtc_freq ≤ 1024)

-- `rtc_open` establishes the range, and `rtc_write` and the handler keep it.
pub rtc_open-IsValid : (r : Rtc) → IsValid (rtc_open r).1
unfolding rtc_open
rtc_open-IsValid r = omega arith

pub rtc_write-IsValid : (freq : ℤ) (r : Rtc) → IsValid r → IsValid (rtc_write freq r).1
unfolding rtc_write
rtc_write-IsValid freq r v = ground arith

-- `rtc_write` sets a frequency from 2 to 1024 and answers 1; any other it refuses with -1 and
-- changes nothing.
pub rtc_write_lem :
    (freq : ℤ) (r : Rtc)
    → ((n : ℕ)
        → freq ≡ pos n
        → 2 ≤ n
        → n ≤ 1024
        → rtc_write freq r ≡ (pos 1, record r { rtc_freq = n }))
      × (((n : ℕ) → freq ≡ pos n → 2 ≤ n → n ≤ 1024 → ⊥) → rtc_write freq r ≡ (failure, r))
unfolding rtc_write
rtc_write_lem (pos m) r = (λ n e lo hi. ground arith, λ no. ground (arith, no m refl))
rtc_write_lem (negsuc m) r = (λ n e lo hi. ground arith, λ no. ground arith)

-- The interrupts among some events.
abbrev pub interrupts : List Event → ℕ
interrupts [] = 0
interrupts (interrupt ∷ es) = suc (interrupts es)
interrupts (look ∷ es) = interrupts es

-- A result after at least `n` interrupts, one that was pending included.
abbrev pub Waited : ℕ → ℕ → Outcome → Type 0
Waited n total (done v r rest) = (v ≡ success) × (n + interrupts rest ≤ total)
Waited n total _ = Unit {0}

Waited-mono : (n a b : ℕ) (o : Outcome) → a ≤ b → Waited n a o → Waited n b o
Waited-mono n a b (done v r rest) h w = (w.0, omega arith)
Waited-mono n a b (waiting r) h w = tt
Waited-mono n a b fault h w = tt

Waited-suc : (n a : ℕ) (o : Outcome) → Waited n a o → Waited (suc n) (suc a) o
Waited-suc n a (done v r rest) w = (w.0, omega arith)
Waited-suc n a (waiting r) w = tt
Waited-suc n a fault w = tt

read_loop-Waited :
    (es : List Event) (n : ℕ) (r : Rtc)
    → r.rtc_interrupt ≤ 1
    → Waited n (r.rtc_interrupt + interrupts es) (read_loop n r es)
unfolding read_loop rtc_interrupt_handler
read_loop-Waited [] zero r h = ground arith
read_loop-Waited (e ∷ es) zero r h = ground arith
read_loop-Waited [] (suc n) r h = tt
read_loop-Waited (interrupt ∷ es) (suc n) r h =
    Waited-mono (suc n) (1 + interrupts es) _ _ (omega arith)
      (read_loop-Waited es (suc n) (rtc_interrupt_handler r) (omega arith))
read_loop-Waited (look ∷ es) (suc n) r h = elim (Bool-cases (r.rtc_interrupt == 0)) [
  | inl idle ↦ rw idle (read_loop-Waited es (suc n) r h)
  | inr set ↦ rw set (
      Waited-mono (suc n) (suc (0 + interrupts es)) _ _ (ground arith) (
        Waited-suc n (0 + interrupts es) _
          (read_loop-Waited es n (record r { rtc_interrupt = 0 }) (omega arith))))
]

loop-ne-fault : (es : List Event) (n : ℕ) (r : Rtc) → read_loop n r es ≢ fault
unfolding read_loop
loop-ne-fault [] zero r = λ e. cc
loop-ne-fault (e ∷ es) zero r = λ e. cc
loop-ne-fault [] (suc n) r = λ e. cc
loop-ne-fault (interrupt ∷ es) (suc n) r = loop-ne-fault es (suc n) (rtc_interrupt_handler r)
loop-ne-fault (look ∷ es) (suc n) r =
    ground (arith, loop-ne-fault es (suc n) r, loop-ne-fault es n (record r { rtc_interrupt = 0 }))

-- When `rtc_read` returns it returns 0, after at least 1024 / rtc_freq interrupts, one that was
-- pending at the call included; and with a valid frequency it never divides by 0.
pub rtc_read-Waited :
    (freq : ℤ) (r : Rtc) (es : List Event)
    → IsValid r
    → r.rtc_interrupt ≤ 1
    → Waited (1024 / r.rtc_freq) (r.rtc_interrupt + interrupts es) (rtc_read freq r es)
      × (rtc_read freq r es ≢ fault)
unfolding rtc_read
rtc_read-Waited freq r es v h = elim (Bool-cases (r.rtc_freq == 0)) [
  | inl bad ↦ absurd (ground arith)
  | inr good ↦
      rw good (read_loop-Waited es (1024 / r.rtc_freq) r h, loop-ne-fault es (1024 / r.rtc_freq) r)
]

-- For each gap: looks that find nothing, then an interrupt and the look that sees it.
abbrev pub idle : ℕ → List Event → List Event
idle zero es = es
idle (suc d) es = look ∷ idle d es

abbrev pub spread : List ℕ → List Event → List Event
spread [] rest = rest
spread (d ∷ gaps) rest = idle d (interrupt ∷ look ∷ spread gaps rest)

read_loop-idle :
    (d n : ℕ) (r : Rtc) (es : List Event)
    → r.rtc_interrupt ≡ 0
    → read_loop (suc n) r (idle d es) ≡ read_loop (suc n) r es
unfolding read_loop
read_loop-idle zero n r es z = refl
read_loop-idle (suc d) n r es z = ground (arith, read_loop-idle d n r es z)

read_loop-spread :
    (gaps : List ℕ) (r : Rtc) (rest : List Event)
    → r.rtc_interrupt ≡ 0
    → (r' : Rtc) × (read_loop (length gaps) r (spread gaps rest) ≡ done success r' rest)
      × (r'.rtc_interrupt ≡ 0)
      × (r'.rtc_freq ≡ r.rtc_freq)
unfolding read_loop rtc_interrupt_handler
read_loop-spread [] r rest z = (r, refl, z, refl)
read_loop-spread (d ∷ gaps) r rest z =
    let (r', ih, z', f) =
      read_loop-spread gaps (record (rtc_interrupt_handler r) { rtc_interrupt = 0 }) rest refl in
    (r', read_loop-idle d (length gaps) r (interrupt ∷ look ∷ spread gaps rest) z ∙ ih, z', f)

-- The same, with the state that the next call finds: no interrupt pending, and the same frequency.
pub rtc_read-spread :
    (freq : ℤ) (r : Rtc) (gaps : List ℕ) (rest : List Event)
    → IsValid r
    → r.rtc_interrupt ≡ 0
    → length gaps ≡ 1024 / r.rtc_freq
    → (r' : Rtc) × (rtc_read freq r (spread gaps rest) ≡ done success r' rest)
      × (r'.rtc_interrupt ≡ 0)
      × (r'.rtc_freq ≡ r.rtc_freq)
unfolding rtc_read
rtc_read-spread freq r gaps rest v z e =
    let (r', h, z', f) = read_loop-spread gaps r rest z in (r', ground (arith, h), z', f)

-- With no interrupt pending, 1024 / rtc_freq interrupts, each seen before the next arrives and
-- however long the gaps between them, end the wait: `rtc_read` returns 0, and takes no further
-- event.
pub rtc_read_returns :
    (freq : ℤ) (r : Rtc) (gaps : List ℕ) (rest : List Event)
    → IsValid r
    → r.rtc_interrupt ≡ 0
    → length gaps ≡ 1024 / r.rtc_freq
    → (r' : Rtc) × (rtc_read freq r (spread gaps rest) ≡ done success r' rest)
rtc_read_returns freq r gaps rest v z e =
    let (r', h, _, _) = rtc_read-spread freq r gaps rest v z e in (r', h)
