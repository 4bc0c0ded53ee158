-- ===== src/Screen/Paper.antt =====
-- The screen as the last 25 rows of an endless paper.
use mp.Prelude.{ℕ, ◌+◌, ◌*◌, ◌/◌, ◌≤◌, ◌<◌, ◌≡◌, ◌≢◌, ◌⊎◌, inl, inr, refl, ◌∙◌, ap, arith}
use mp.Prelude.{
  List, [], ◌∷◌, ◌||◌, ◌==◌, leb, if◌then◌else◌, ℕ_discrete, dec_lt, true, false, Memory, update,
}
use mp.Screen.{Screen, putc, puts, clean_screen, attrib, write_cell}
use mp.Screen.Clearing.{clean_screen_lem}
use mp.Screen.Scroll.{scrolled}
use mp.Screen.Bounds.{IsValid, putc-IsValid}
use mp.Screen.Writing.{position, newline, printable, putc_newline, putc_printable}

-- Rows of 80 characters without end, the next place, and the first row that is shown.
pub record Paper : Type 0 where
  pub ink : ℕ → ℕ
  pub place : ℕ
  pub top : ℕ

-- The paper moves up by a row when the next place is below the 25 that are shown.
abbrev pub follow : Paper → Paper
follow p = if leb (80 * p.top + 2000) p.place then record p { top = p.top + 1 } else p

unfoldable pub type_char : ℕ → Paper → Paper
type_char c p = follow (
    if c == b'\n' || c == b'\r'
    then record p { place = 80 * (p.place / 80 + 1) }
    else record p { ink = update p.ink p.place c; place = p.place + 1 })

unfoldable pub type_text : List ℕ → Paper → Paper
type_text [] p = p
type_text (c ∷ cs) p = type_text cs (type_char c p)

-- The screen shows the 25 rows of the paper, with the attribute in each cell, the cursor at the
-- place, and the rows below are blank.
pub record Shows (s : Screen) (p : Paper) : Type 0 where
  pub valid : IsValid s
  pub place : p.place ≡ 80 * p.top + position s
  pub ink : (i : ℕ) → i < 2000 → s.video_mem (2 * i) ≡ p.ink (80 * p.top + i)
  pub colour : (i : ℕ) → i < 2000 → s.video_mem (2 * i + 1) ≡ attrib
  pub blank : (i : ℕ) → 80 * p.top + 2000 ≤ i → p.ink i ≡ b' '

-- The memory `m` before a scroll, beside the paper before it follows.
record Holds (m : Memory) (q : Paper) : Type 0 where
  ink : (i : ℕ) → i < 2000 → m (2 * i) ≡ q.ink (80 * q.top + i)
  colour : (i : ℕ) → i < 2000 → m (2 * i + 1) ≡ attrib
  blank : (i : ℕ) → 80 * q.top + 2000 ≤ i → q.ink i ≡ b' '

-- Whether it scrolls.
abbrev Scrolls : Memory → Paper → Screen → Type 0
Scrolls m q t =
    ((q.place < 80 * q.top + 2000) × (q.place ≡ 80 * q.top + position t) × (t.video_mem ≡ m))
    ⊎ ((q.place ≡ 80 * q.top + 2000) × (position t ≡ 1920) × (t.video_mem ≡ scrolled m))

scrolled-even :
    (m : Memory) (q : Paper) (i : ℕ)
    → Holds m q
    → i < 2000
    → scrolled m (2 * i) ≡ q.ink (80 * (q.top + 1) + i)
scrolled-even m q i h small = elim (dec_lt i 1920) [
  | yes l ↦ ground (
    arith,
    ap m {x = 2 * i + 160} {y = 2 * (i + 80)} (omega arith),
    h.ink (i + 80) (omega arith),
    ap q.ink {x = 80 * (q.top + 1) + i} {y = 80 * q.top + (i + 80)} (omega arith),
  )
  | no l ↦ ground (arith, h.blank (80 * (q.top + 1) + i) (omega arith))
]

scrolled-odd :
    (m : Memory) (q : Paper) (i : ℕ) → Holds m q → i < 2000 → scrolled m (2 * i + 1) ≡ attrib
scrolled-odd m q i h small = elim (dec_lt i 1920) [
  | yes l ↦ ground (
    arith,
    ap m {x = 2 * i + 1 + 160} {y = 2 * (i + 80) + 1} (omega arith),
    h.colour (i + 80) (omega arith),
  )
  | no l ↦ ground arith
]

follow-Shows :
    (m : Memory) (q : Paper) (t : Screen)
    → Holds m q
    → IsValid t
    → Scrolls m q t
    → Shows t (follow q)
follow-Shows m q t h v (inl (low, place, mem)) =
    let stays : leb (80 * q.top + 2000) q.place ≡ false = ground arith in
    rw stays (record {
      valid = v;
      place = place;
      ink = λ i l. ap (λ (n : Memory). n (2 * i)) mem ∙ h.ink i l;
      colour = λ i l. ap (λ (n : Memory). n (2 * i + 1)) mem ∙ h.colour i l;
      blank = h.blank;
    })
follow-Shows m q t h v (inr (high, place, mem)) =
    let moves : leb (80 * q.top + 2000) q.place ≡ true = ground arith in
    rw moves (record {
      valid = v;
      place = omega arith;
      ink = λ i l. ap (λ (n : Memory). n (2 * i)) mem ∙ scrolled-even m q i h l;
      colour = λ i l. ap (λ (n : Memory). n (2 * i + 1)) mem ∙ scrolled-odd m q i h l;
      blank = λ i l. h.blank i (omega arith);
    })

-- A character in the cell of the place.
written : ℕ → Screen → Memory
written c s = write_cell s.screen_y s.screen_x c s.video_mem

written-Holds :
    (c : ℕ) (s : Screen) (p : Paper)
    → Shows s p
    → Holds (written c s) (record p { ink = update p.ink p.place c; place = p.place + 1 })
unfolding written
written-Holds c s p w = record {
  ink = λ i l. ground (arith, w.ink i l, w.place);
  colour = λ i l. ground (arith, w.colour i l);
  blank = λ i l.
      let column = w.valid.column in let row = w.valid.row in ground (arith, w.blank i l, w.place);
}

putc-newline-Shows :
    (c : ℕ) (s : Screen) (p : Paper)
    → (c ≡ b'\n') ⊎ (c ≡ b'\r')
    → Shows s p
    → Shows (putc c s) (type_char c p)
unfolding type_char
putc-newline-Shows c s p h w =
    let (at, mem) = putc_newline c s w.valid h in
    let column = w.valid.column in
    let row = w.valid.row in
    let place = w.place in
    rw (newline c h) (
      follow-Shows s.video_mem (record p { place = 80 * (p.place / 80 + 1) }) (putc c s)
        (record { ink = w.ink; colour = w.colour; blank = w.blank }) (putc-IsValid c s w.valid).0
        (ground arith))

putc-printable-Shows :
    (c : ℕ) (s : Screen) (p : Paper)
    → c ≢ b'\n'
    → c ≢ b'\r'
    → Shows s p
    → Shows (putc c s) (type_char c p)
unfolding type_char written
putc-printable-Shows c s p hn hr w =
    let (at, mem) = putc_printable c s w.valid hn hr in
    let column = w.valid.column in
    let row = w.valid.row in
    let place = w.place in
    rw (printable c hn hr) (
      follow-Shows (written c s) (record p { ink = update p.ink p.place c; place = p.place + 1 })
        (putc c s) (written-Holds c s p w) (putc-IsValid c s w.valid).0 (ground arith))

is_line_end : (c : ℕ) → ((c ≡ b'\n') ⊎ (c ≡ b'\r')) ⊎ ((c ≢ b'\n') × (c ≢ b'\r'))
is_line_end c = elim (ℕ_discrete c b'\n') [
  | yes e ↦ inl (inl e)
  | no n ↦ elim (ℕ_discrete c b'\r') [ yes e ↦ inl (inr e) | no r ↦ inr (n, r) ]
]

pub putc-Shows : (c : ℕ) (s : Screen) (p : Paper) → Shows s p → Shows (putc c s) (type_char c p)
putc-Shows c s p w = elim (is_line_end c) [
  | inl h ↦ putc-newline-Shows c s p h w
  | inr (n, r) ↦ putc-printable-Shows c s p n r w
]

-- While the screen shows the last 25 rows of the paper, it does so after any text: `puts` scrolls,
-- wraps and ends lines as the paper does, on which every character stays where it was typed.
pub puts-Shows :
    (cs : List ℕ) (s : Screen) (p : Paper) → Shows s p → Shows (puts cs s) (type_text cs p)
unfolding puts type_text
puts-Shows [] s p w = w
puts-Shows (c ∷ cs) s p w = puts-Shows cs (putc c s) (type_char c p) (putc-Shows c s p w)

-- A paper with nothing on it.
abbrev pub empty_paper : Paper
empty_paper = record { ink = λ i. b' '; place = 0; top = 0 }

-- A cleared screen shows an empty paper.
pub clean_screen-Shows : (s : Screen) → Shows (clean_screen s) empty_paper
clean_screen-Shows s =
    let (x, y, mem) = clean_screen_lem s in
    record {
      valid = record { column = omega arith; row = omega arith };
      place = omega arith;
      ink = λ i l. ap (λ (m : Memory). m (2 * i)) mem ∙ ground arith;
      colour = λ i l. ap (λ (m : Memory). m (2 * i + 1)) mem ∙ ground arith;
      blank = λ i l. refl;
    }
