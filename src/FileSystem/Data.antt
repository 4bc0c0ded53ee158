-- ===== src/FileSystem/Data.antt =====
-- Which bytes of the image `read_data` puts into the buffer.
use mp.Prelude.{
  ℕ, zero, suc, ◌+◌, ◌-◌, ◌*◌, ◌/◌, ◌%◌, ◌^◌, ◌≤◌, ◌<◌, ◌≡◌, ◌≢◌, inr, ◌∙◌, sym, ap, ap₂, arith,
  min,
}
use mp.Prelude.{◌&&◌, leb, ltb, if◌then◌else◌, Memory, dec_lt}
use mp.FileSystem.{as_signed}
use mp.Strings.{memcpy}
use mp.Strings.Copies.{memcpy_lem}
use mp.FileSystem.{FileSystem, read_blocks, read_data, clipped, indexnode, file_length, inodes_num}
use mp.FileSystem.Words.{load32, load32-same}

-- The blocks of a file, by its index node and the address of the data blocks.
module _ (node blocks : ℕ) where
  abbrev pub block_address : Memory → ℕ → ℕ
  block_address m i = blocks + 4096 * load32 m (node + 4 + 4 * i)

  -- Byte `p` of the file.
  abbrev pub file_byte : Memory → ℕ → ℕ
  file_byte m p = m (block_address m (p / 4096) + p % 4096)

  -- The index node's first `count` block numbers, and those blocks, lie below the buffer.
  pub record IsBelow (buf count : ℕ) (m : Memory) : Type 0 where
    pub node_below : node + 4 + 4 * count ≤ buf
    pub block_below : (i : ℕ) → i < count → block_address m i + 4096 ≤ buf

  -- Nothing below the buffer differs.
  abbrev pub Agree : ℕ → Memory → Memory → Type 0
  Agree buf m m' = (a : ℕ) → a < buf → m' a ≡ m a

  block-Agree :
      (buf count : ℕ) (m m' : Memory) (i : ℕ)
      → IsBelow buf count m
      → Agree buf m m'
      → i < count
      → block_address m' i ≡ block_address m i
  block-Agree buf count m m' i w g h =
      ap (λ (k : ℕ). blocks + 4096 * k)
        (load32-same m' m (node + 4 + 4 * i) (λ b lo hi. g b (omega (arith, w.node_below))))

  file_byte-Agree :
      (buf count : ℕ) (m m' : Memory) (p : ℕ)
      → IsBelow buf count m
      → Agree buf m m'
      → p / 4096 < count
      → file_byte m' p ≡ file_byte m p
  file_byte-Agree buf count m m' p w g h =
      ap (λ (k : ℕ). m' (k + p % 4096)) (block-Agree buf count m m' (p / 4096) w g h)
      ∙ g (block_address m (p / 4096) + p % 4096) (omega (arith, w.block_below (p / 4096) h))

  IsBelow-Agree :
      (buf count : ℕ) (m m' : Memory) → IsBelow buf count m → Agree buf m m' → IsBelow buf count m'
  IsBelow-Agree buf count m m' w g = record {
    node_below = w.node_below;
    block_below = λ i h. omega (arith, w.block_below i h, block-Agree buf count m m' i w g h);
  }

  byte_here :
      (m : Memory) (i r p : ℕ)
      → p / 4096 ≡ i
      → p % 4096 ≡ r
      → m (block_address m i + r) ≡ file_byte m p
  byte_here m i r p e f = ap₂ (λ (j k : ℕ). m (block_address m j + k)) (sym e) (sym f)

  module _ (buf n start count : ℕ) (fits : 4096 * start + n ≤ 4096 * count) where
    -- The bytes of the file from block `start` on, put at `buf + lo` up to `buf + hi`.
    abbrev pub filled : ℕ → ℕ → Memory → Memory
    filled lo hi m = λ a.
        if leb (buf + lo) a && ltb a (buf + hi) then file_byte m (4096 * start + (a - buf)) else m a

    -- The bytes copied in the round of block `start + k`.
    abbrev pub chunk : ℕ → ℕ
    chunk done = if ltb (n - done) 4096 then n - done else 4096

    one_round :
        (k done : ℕ) (m : Memory) (a : ℕ)
        → done ≡ min n (4096 * k)
        → IsBelow buf count m
        → memcpy (buf + done) (block_address m (start + k)) (chunk done) m a
          ≡ filled done (done + chunk done) m a
    one_round k done m a e w = elim (dec_lt done n) [
      | no p ↦ empty (chunk done) (ground arith)
      | yes p ↦
          memcpy_lem (chunk done) (buf + done) (block_address m (start + k)) m a (inr (apart p))
          ∙ ground (arith, here p)
    ]
      where
        empty :
            (c : ℕ)
            → c ≡ 0
            → memcpy (buf + done) (block_address m (start + k)) c m a ≡ filled done (done + c) m a
        empty c z = rw z (unfold memcpy in ground arith)

        apart : done < n → block_address m (start + k) + chunk done ≤ buf + done
        apart p = ground (arith, w.block_below (start + k) (omega arith))

        here :
            done < n
            → buf + done ≤ a
            → a < buf + (done + chunk done)
            → m (block_address m (start + k) + (a - (buf + done)))
              ≡ file_byte m (4096 * start + (a - buf))
        here p lo hi =
            byte_here m (start + k) (a - (buf + done)) (4096 * start + (a - buf)) (ground arith)
              (ground arith)

    round_Agree :
        (k done : ℕ) (m : Memory)
        → done ≡ min n (4096 * k)
        → IsBelow buf count m
        → Agree buf m (memcpy (buf + done) (block_address m (start + k)) (chunk done) m)
    round_Agree k done m e w a h = ground (arith, one_round k done m a e w)

    join :
        (done c : ℕ) (m m₁ : Memory) (a : ℕ)
        → IsBelow buf count m
        → Agree buf m m₁
        → m₁ a ≡ filled done (done + c) m a
        → done + c ≤ n
        → filled (done + c) n m₁ a ≡ filled done n m a
    join done c m m₁ a w g here le =
        ground (arith, file_byte-Agree buf count m m₁ (4096 * start + (a - buf)) w g)

    read_blocks-filled :
        (left k i done : ℕ) (m : Memory)
        → i ≡ start + k
        → done ≡ min n (4096 * k)
        → n ≤ 4096 * (k + left)
        → IsBelow buf count m
        → let r = read_blocks node blocks buf n left i done m in
          (r.0 ≡ n) × ((a : ℕ) → r.1 a ≡ filled done n m a)
    unfolding read_blocks
    read_blocks-filled zero k i done m ei e h w = (omega arith, λ a. ground arith)
    read_blocks-filled (suc left) k i done m ei e h w =
        let m₁ = memcpy (buf + done) (block_address m i) (chunk done) m in
        let g : Agree buf m m₁ = rw ei (round_Agree k done m e w) in
        let (count_ok, bytes) =
          read_blocks-filled left (k + 1) (i + 1) (done + chunk done) m₁ (omega arith)
            (ground arith) (omega arith) (IsBelow-Agree buf count m m₁ w g) in
        (
          count_ok,
          λ a.
              bytes a
              ∙ join done (chunk done) m m₁ a w g (rw ei (one_round k done m a e w)) (ground arith),
        )

-- Byte `p` of the file of an index node.
abbrev pub byte_of : FileSystem → ℕ → ℕ → ℕ
byte_of fs inode p = file_byte (indexnode fs inode) fs.datablock_ptr fs.mem p

-- The image's parts that a read of `n` bytes at `offset` uses lie below the buffer.
abbrev pub IsBelowBuffer : FileSystem → ℕ → ℕ → ℕ → Type 0
IsBelowBuffer fs inode size buf =
    IsBelow (indexnode fs inode) fs.datablock_ptr buf ((size + 4095) / 4096) fs.mem

-- The result of `read_data` behind its guards.
abbrev blocks_read : FileSystem → ℕ → ℕ → ℕ → ℕ → ℕ × Memory
blocks_read fs inode offset buf n =
    read_blocks (indexnode fs inode) fs.datablock_ptr buf n
      ((offset + n) % 2 ^ 32 / 4096 + 1 - offset / 4096) (offset / 4096) 0 fs.mem

read_data-guards :
    (inode offset buf length : ℕ) (fs : FileSystem)
    → fs.bootblock_head ≢ 0
    → inode ≤ inodes_num fs
    → offset ≤ file_length fs inode
    → let (count, m) =
        blocks_read fs inode offset buf (clipped length offset (file_length fs inode)) in
      read_data inode offset buf length fs ≡ (as_signed count, record fs { mem = m })
unfolding read_data
read_data-guards inode offset buf length fs hb hi ho = ground arith

blocks_read-filled :
    (inode offset buf n a : ℕ) (fs : FileSystem)
    → offset + n ≤ file_length fs inode
    → offset + n < 2 ^ 32
    → IsBelowBuffer fs inode (file_length fs inode) buf
    → let r = blocks_read fs inode offset buf n in
      (r.0 ≡ n)
      × (r.1 a ≡ (
          if leb buf a && ltb a (buf + n)
          then byte_of fs inode (offset / 4096 * 4096 + (a - buf))
          else fs.mem a))
blocks_read-filled inode offset buf n a fs fit small w =
    let size = file_length fs inode in
    let (count, bytes) =
      read_blocks-filled (indexnode fs inode) fs.datablock_ptr buf n (offset / 4096)
        ((size + 4095) / 4096) (omega arith) ((offset + n) % 2 ^ 32 / 4096 + 1 - offset / 4096) 0
        (offset / 4096) 0 fs.mem (omega arith) (omega arith) (omega arith) w in
    (count, bytes a ∙ ground (arith, swap_factor (offset / 4096) (a - buf)))
  where
    swap_factor : (q d : ℕ) → byte_of fs inode (4096 * q + d) ≡ byte_of fs inode (q * 4096 + d)
    swap_factor q d = ap (byte_of fs inode) (omega arith)

-- With an image loaded, and the index node and blocks of the file below the buffer: for an
-- existing inode, an offset in the file, and a length that does not wrap, `read_data` returns, as
-- an int32_t, the number of bytes up to the end of the file, at most `length`. It fills that much of the buffer
-- with the file's bytes from the start of the block of `offset`, and changes no other byte.
pub read_data_lem :
    (inode offset buf length a : ℕ) (fs : FileSystem)
    → fs.bootblock_head ≢ 0
    → inode ≤ inodes_num fs
    → offset ≤ file_length fs inode
    → length + offset < 2 ^ 32
    → IsBelowBuffer fs inode (file_length fs inode) buf
    → let n = min length (file_length fs inode - offset) in
      let r = read_data inode offset buf length fs in
      (r.0 ≡ as_signed n)
      × (r.1.mem a ≡ (
          if leb buf a && ltb a (buf + n)
          then byte_of fs inode (offset / 4096 * 4096 + (a - buf))
          else fs.mem a))
read_data_lem inode offset buf length a fs hb hi ho hl w =
    let n = clipped length offset (file_length fs inode) in
    let e : n ≡ min length (file_length fs inode - offset) = ground arith in
    let (count, bytes) =
      blocks_read-filled inode offset buf n a fs (ground arith) (ground arith) w in
    rw (read_data-guards inode offset buf length fs hb hi ho)
      (ap (λ (c : ℕ). as_signed c) (count ∙ e), bytes ∙ ap (λ (k : ℕ). upto k) e)
  where
    upto : ℕ → ℕ
    upto k =
        if leb buf a && ltb a (buf + k)
        then byte_of fs inode (offset / 4096 * 4096 + (a - buf))
        else fs.mem a
