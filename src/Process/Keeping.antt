-- ===== src/Process/Keeping.antt =====
-- `open`, `write` and `read` leave the processes as they are.
use mp.Prelude.{ℕ, zero, suc, ◌+◌, ◌≡◌, refl, ◌⊎◌, inl, inr, arith, List}
use mp.Prelude.{Bool, true, false, ◌==◌, if◌then◌else◌, some, none, Option-cases}
use mp.Prelude.Int.{ℤ, failure, pos, ltb_ℤ}
use mp.Prelude.{Option, leb, ◌||◌}
use mp.Prelude.Runs.{Run, page_fault, from_option, >>=-eq-ok, ok-injective}
use mathlib.Core.Path.{subst}
use mathlib.Core.Option.{some-injective, none-ne-some}
use mp.Rtc.{Event}
use mp.FileOps.{Devices, write_of, read_of, open_of, file_operation_table}
use mp.FileSystem.{is_zero, file_type, inode_index, read_dentry_by_name, as_unsigned}
use mp.Paging.Access.{translate}
use mp.Process.{Kernel, FdEntry, mem_of, set_files, user_mem, user_end}
use mp.Process.Globals.{SameRun}
use mp.Process.Outcome.{bind-inverse}
use mp.Process.Calls.{
  fds_of, set_fd, open_loop, open_file, write_file, write_through, as_signed, end_of,
}
use mp.Process.Reading.{
  stray_access, read_named, read_open, read_file, read_through, find_inode, print_name,
}

-- An `if` has the value of one of its branches.
pub if-inverse {ℓ} :
    {A : Type ℓ} (b : Bool) (x y z : A) → (if b then x else y) ≡ z → (x ≡ z) ⊎ (y ≡ z)
if-inverse true x y z e = inl e
if-inverse false x y z e = inr e

-- Three tests with the same value.
tests-inverse {ℓ} :
    {A : Type ℓ} (a b c : Bool) (x y z : A)
    → (if a then x else if b then x else if c then x else y) ≡ z
    → (x ≡ z) ⊎ (y ≡ z)
tests-inverse true b c x y z e = inl e
tests-inverse false true c x y z e = inl e
tests-inverse false false true x y z e = inl e
tests-inverse false false false x y z e = inr e

pub same_devices : (k : Kernel) (d : Devices) → SameRun k (record k { devices = d })
same_devices k d = (refl, refl, refl, refl, refl, refl, λ j. (refl, refl, refl))

set_fd-SameRun :
    (p fd : ℕ) (e : FdEntry) (k : Kernel) (d : Devices)
    → SameRun k (set_fd p fd e (record k { devices = d }))
set_fd-SameRun p fd e k d =
    (refl, refl, refl, refl, refl, refl, λ j. (ground arith, ground arith, ground arith))

-- A result that does not change the kernel.
unchanged : (k : Kernel) (z : ℤ) (r : ℤ × Kernel) → some (z, k) ≡ some r → SameRun k r.1
unchanged k z r q =
    subst (λ (x : ℤ × Kernel). SameRun k x.1) (some-injective _ _ q) (same_devices k k.devices)

either-SameRun :
    (b : Bool) (x y : ℤ) (k k' : Kernel)
    → SameRun k k'
    → let r : ℤ × Kernel = if b then (x, k') else (y, k') in SameRun k r.1
either-SameRun true x y k k' s = s
either-SameRun false x y k k' s = s

open_loop-SameRun :
    (left fd fuel p filename ty inode : ℕ) (k : Kernel) (r : ℤ × Kernel)
    → open_loop left fd fuel p filename ty inode k ≡ some r
    → SameRun k r.1
unfolding open_loop
open_loop-SameRun zero fd fuel p filename ty inode k r e =
    subst (λ (q : ℤ × Kernel). SameRun k q.1) (some-injective _ _ e) (same_devices k k.devices)
open_loop-SameRun (suc left) fd fuel p filename ty inode k r e =
    let rest = open_loop-SameRun left (fd + 1) fuel p filename ty inode k r in
    elim (if-inverse ((fds_of p k fd).flags == 0) _ _ (some r) e) [
      | inl taken ↦
          let (ops, _, e₁) = bind-inverse (file_operation_table ty) _ r taken in
          let (o, _, e₂) = bind-inverse (open_of ops fuel filename k.devices) _ r e₁ in
          subst (λ (q : ℤ × Kernel). SameRun k q.1) (some-injective _ _ e₂)
            (either-SameRun _ _ _ k _ (set_fd-SameRun p fd _ k o.1))
      | inr next ↦ rest next
    ]

-- Whatever `open` returns, the processes are as before.
pub open_file-SameRun :
    (fuel current filename : ℕ) (k : Kernel) (r : ℤ × Kernel)
    → open_file fuel current filename k ≡ some r
    → SameRun k r.1
unfolding open_file
open_file-SameRun fuel current filename k r e = elim (Option-cases k.filed_array) [
  | inl z ↦ unchanged k failure r (rw (z, open_file) at e)
  | inr (p, z) ↦ elim (if-inverse (filename == 0) _ _ (some r) (rw (z, open_file) at e)) [
    | inl null ↦ unchanged k failure r null
    | inr found ↦
        let (q, _, e₁) =
          bind-inverse (read_dentry_by_name fuel filename current k.devices.files) _ r found in
        elim (if-inverse (is_zero q.0) _ _ (some r) e₁) [
          | inl opened ↦
              open_loop-SameRun 8 0 fuel p filename (file_type (mem_of (set_files q.1 k)) current)
                (inode_index (mem_of (set_files q.1 k)) current) (set_files q.1 k) r opened
          | inr missing ↦
              subst (λ (x : ℤ × Kernel). SameRun k x.1) (some-injective _ _ missing)
                (same_devices k (set_files q.1 k).devices)
        ]
  ]
]

write_through-SameRun :
    (fd buf : ℕ) (n : ℤ) (k : Kernel) (o : Option ℕ) (r : ℤ × Kernel)
    → write_through fd buf n k o ≡ some r
    → SameRun k r.1
unfolding write_through
write_through-SameRun fd buf n k none r e = absurd (none-ne-some r e)
write_through-SameRun fd buf n k (some p) r e =
    elim (if-inverse ((fds_of p k fd).flags == 0) _ _ (some r) e) [
      | inl unused ↦ unchanged k failure r unused
      | inr goes ↦
          subst (λ (x : ℤ × Kernel). SameRun k x.1) (some-injective _ _ goes)
            (same_devices k (write_of (fds_of p k fd).fileot_pointer buf n k.devices).1)
    ]

low : ℕ → Bool
low buf = ltb_ℤ (as_signed buf) (pos user_mem)

high : ℕ → ℤ → Bool
high buf n = ltb_ℤ (pos user_end) (end_of buf n)

-- Whatever `write` returns, the processes are as before.
pub write_file-SameRun :
    (fd buf : ℕ) (n : ℤ) (k : Kernel) (r : ℤ × Kernel)
    → write_file fd buf n k ≡ some r
    → SameRun k r.1
unfolding write_file low high
write_file-SameRun fd buf n k r e =
    elim (tests-inverse (low buf) (high buf n) (leb 7 fd || fd == 0) _ _ (some r) e) [
      | inl refused ↦ unchanged k failure r refused
      | inr goes ↦ write_through-SameRun fd buf n k k.filed_array r goes
    ]

-- The use of a pointer to no object does not come back.
pub stray_access-ne-ok {ℓ} :
    {A : Type ℓ} (address : ℕ) (k : Kernel) (a : A) → stray_access address k ≡ Run.ok a → ⊥
unfolding stray_access
stray_access-ne-ok address k a e = elim (Option-cases (translate k.tables address)) [
  | inl z ↦ bad (rw (z, stray_access) at e)
  | inr (b, z) ↦ worse (rw (z, stray_access) at e)
]
  where
    bad : Run.exception page_fault ≡ Run.ok a → ⊥
    bad q = cc

    worse : Run.unknown ≡ Run.ok a → ⊥
    worse q = cc

read_named-SameRun :
    (fuel tem : ℕ) (d : FdEntry) (buf : ℕ) (n : ℤ) (k : Kernel) (es : List Event)
    (r : ℤ × Kernel × List Event)
    → read_named fuel tem d buf n k es ≡ Run.ok r
    → SameRun k r.1
unfolding read_named
read_named-SameRun fuel tem d buf n k es r e =
    let (f, _, e₁) =
      >>=-eq-ok (from_option (find_inode fuel 63 0 tem (as_unsigned d.inode) k.devices.files)) _ r
        e in
    elim (if-inverse f.0 _ _ (Run.ok r) e₁) [
      | inl found ↦
          let (fs, _, e₂) = >>=-eq-ok (from_option (print_name fuel tem f.1)) _ r found in
          let (q, _, e₃) =
            >>=-eq-ok
              (read_of d.fileot_pointer fuel tem d.position buf n (record k.devices { files = fs })
                es)
              _ r e₂ in
          subst (λ (x : ℤ × Kernel × List Event). SameRun k x.1) (ok-injective _ _ e₃)
            (same_devices k q.1)
      | inr missing ↦ absurd (stray_access-ne-ok 0 (set_files f.1 k) r missing)
    ]

read_open-SameRun :
    (fuel tem filename : ℕ) (d : FdEntry) (fd buf : ℕ) (n : ℤ) (k : Kernel) (es : List Event)
    (r : ℤ × Kernel × List Event)
    → read_open fuel tem filename d fd buf n k es ≡ Run.ok r
    → SameRun k r.1
unfolding read_open
read_open-SameRun fuel tem filename d fd buf n k es r e =
    let (q, _, e₁) =
      >>=-eq-ok (read_of d.fileot_pointer fuel filename fd buf n k.devices es) _ r e in
    elim (if-inverse (is_zero q.0) _ _ (Run.ok r) e₁) [
      | inl none_read ↦
          subst (λ (x : ℤ × Kernel × List Event). SameRun k x.1) (ok-injective _ _ none_read)
            (same_devices k q.1)
      | inr named ↦ read_named-SameRun fuel tem d buf n (record k { devices = q.1 }) q.2 r named
    ]

unread :
    (k : Kernel) (es : List Event) (r : ℤ × Kernel × List Event)
    → Run.ok (failure, k, es) ≡ Run.ok r
    → SameRun k r.1
unread k es r q =
    subst (λ (x : ℤ × Kernel × List Event). SameRun k x.1) (ok-injective _ _ q)
      (same_devices k k.devices)

read_through-SameRun :
    (fuel tem filename fd buf : ℕ) (n : ℤ) (k : Kernel) (es : List Event) (o : Option ℕ)
    (r : ℤ × Kernel × List Event)
    → read_through fuel tem filename fd buf n k es o ≡ Run.ok r
    → SameRun k r.1
unfolding read_through
read_through-SameRun fuel tem filename fd buf n k es none r e = absurd (unknown-ne-ok e)
  where
    unknown-ne-ok : Run.unknown ≡ Run.ok r → ⊥
    unknown-ne-ok q = cc
read_through-SameRun fuel tem filename fd buf n k es (some p) r e =
    elim (if-inverse ((fds_of p k fd).flags == 0) _ _ (Run.ok r) e) [
      | inl unused ↦ unread k es r unused
      | inr goes ↦ read_open-SameRun fuel tem filename (fds_of p k fd) fd buf n k es r goes
    ]

-- Whatever `read` returns, the processes are as before.
pub read_file-SameRun :
    (fuel tem filename fd buf : ℕ) (n : ℤ) (k : Kernel) (es : List Event)
    (r : ℤ × Kernel × List Event)
    → read_file fuel tem filename fd buf n k es ≡ Run.ok r
    → SameRun k r.1
unfolding read_file low high
read_file-SameRun fuel tem filename fd buf n k es r e =
    elim (tests-inverse (low buf) (high buf n) (leb 7 fd || fd == 1) _ _ (Run.ok r) e) [
      | inl refused ↦ unread k es r refused
      | inr goes ↦ read_through-SameRun fuel tem filename fd buf n k es k.filed_array r goes
    ]
