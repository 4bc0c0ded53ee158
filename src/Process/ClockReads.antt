-- ===== src/Process/ClockReads.antt =====
-- `read` on the clock's descriptor.
use mp.Prelude.{ℕ, ◌+◌, ◌/◌, ◌≤◌, ◌<◌, ◌≡◌, ◌≢◌, ◌∙◌, arith, some, List, length, refl}
use mp.Prelude.Int.{pos, failure}
use mp.Prelude.Runs.{Run}
use mp.Rtc.{Event, Rtc}
use mp.Rtc.Read.{IsValid, spread, rtc_read-spread}
use mp.FileOps.{rtc_fot, Devices, rtcread, read_of}
use mp.Process.{Kernel, user_mem, user_end, FdEntry}
use mp.Process.Calls.{fds_of}
use mp.Process.Reading.{read_file, read_through, read_open}

-- Behind the tests on the arguments.
pub read_file-goes :
    (fuel tem filename fd buf n p : ℕ) (k : Kernel) (es : List Event)
    → k.filed_array ≡ some p
    → user_mem ≤ buf
    → buf + n ≤ user_end
    → fd < 7
    → fd ≢ 1
    → (fds_of p k fd).flags ≢ 0
    → read_file fuel tem filename fd buf (pos n) k es
      ≡ read_open fuel tem filename (fds_of p k fd) fd buf (pos n) k es
unfolding read_file read_through
read_file-goes fuel tem filename fd buf n p k es e lo hi f7 f1 fl = ground (arith, e)

rtcread-spread :
    (d : Devices) (gaps : List ℕ) (rest : List Event)
    → IsValid d.rtc
    → d.rtc.rtc_interrupt ≡ 0
    → length gaps ≡ 1024 / d.rtc.rtc_freq
    → (r : Rtc) × (rtcread d (spread gaps rest) ≡ Run.ok (pos 0, record d { rtc = r }, rest))
      × (r.rtc_interrupt ≡ 0)
      × (r.rtc_freq ≡ d.rtc.rtc_freq)
unfolding rtcread
rtcread-spread d gaps rest v z e =
    let (r, eq, z', f) = rtc_read-spread (pos 2) d.rtc gaps rest v z e in
    (r, rw (rtcread, eq) refl, z', f)

clock_fails :
    (fuel tem filename fd buf n : ℕ) (k : Kernel) (d : Devices) (es rest : List Event) (e : FdEntry)
    → e.fileot_pointer ≡ rtc_fot
    → rtcread k.devices es ≡ Run.ok (pos 0, d, rest)
    → read_open fuel tem filename e fd buf (pos n) k es
      ≡ Run.ok (failure, record k { devices = d }, rest)
unfolding read_open read_of
clock_fails fuel tem filename fd buf n k d es rest e o r = ground (arith, o, r)

-- `read` on a clock's descriptor in use, one of 0 and 2 to 6, with a buffer in the program's page, a
-- valid frequency and no interrupt pending: after 1024 / rtc_freq interrupts, each seen before the
-- next arrives, it ends, and with -1: it takes the 0 of the clock's own read for a missing one. The
-- frequency stays, no interrupt is pending, and only the clock has changed.
pub read_file-clock :
    (fuel tem filename fd buf n p : ℕ) (k : Kernel) (gaps : List ℕ) (rest : List Event)
    → k.filed_array ≡ some p
    → user_mem ≤ buf
    → buf + n ≤ user_end
    → fd < 7
    → fd ≢ 1
    → (fds_of p k fd).flags ≢ 0
    → (fds_of p k fd).fileot_pointer ≡ rtc_fot
    → IsValid k.devices.rtc
    → k.devices.rtc.rtc_interrupt ≡ 0
    → length gaps ≡ 1024 / k.devices.rtc.rtc_freq
    → (r : Rtc) × (read_file fuel tem filename fd buf (pos n) k (spread gaps rest)
        ≡ Run.ok (failure, record k { devices = record k.devices { rtc = r } }, rest))
      × (r.rtc_interrupt ≡ 0)
      × (r.rtc_freq ≡ k.devices.rtc.rtc_freq)
read_file-clock fuel tem filename fd buf n p k gaps rest e lo hi f7 f1 fl o v z len =
    let (r, eq, z', f) = rtcread-spread k.devices gaps rest v z len in
    (
      r,
      read_file-goes fuel tem filename fd buf n p k (spread gaps rest) e lo hi f7 f1 fl
          ∙ clock_fails fuel tem filename fd buf n k _ (spread gaps rest) rest (fds_of p k fd) o eq,
      z',
      f,
    )
