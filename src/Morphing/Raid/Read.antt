-- ===== src/Morphing/Raid/Read.antt =====
-- `RaidRead` returns the bytes of the striped image.
use native.Mathlib.Nat.{
  suc-mul, le-div_iff_mul-le, mod-eq_of_lt, mod-lt, div-lt_iff_lt-mul, div-mul-le_self, mul-pos,
  mul-le-mul_right,
}
use xmount.Base.{
  ℕ, zero, suc, ◌+◌, ◌-◌, ◌*◌, ◌/◌, ◌%◌, ◌^◌, ◌≤◌, ◌<◌, ◌≡◌, refl, ap, ◌∙◌, inl, inr, ◌⊎◌,
}
use xmount.Base.{List, [], ◌∷◌, arith, length, slice, slice_split, length-slice, ok, some}
use xmount.Base.{
  leb, ◌&&◌, err, ltb, if◌then◌else◌, add64, sub64, mul64, Bool-cases, tests, ltb→lt, ltb→le,
  block-lt, block_end, block_bounds,
}
use xmount.Morphing.Images.{InputFunctions, Image, ServesFrom, Serves, total}
use xmount.Morphing.Raid.Capacity.{
  Usable, Attained, count_chunks_fresh, count_chunks_too_small, count_chunks_one,
}
use xmount.Morphing.Raid.{
  RaidHandle, count_chunks, morph, read_chunks, read, size, read_beyond_end_of_image,
}
use xmount.Morphing.Raid.Content.{striped, slice-striped, image_at, read-image_at, Hold, Hold-at}

-- Set up over `imgs` in chunks of `c` bytes, `chunks` of them on each.
pub record Striped (io : InputFunctions) (c chunks : ℕ) (imgs : List Image) : Type 0 where
  pub serves : ServesFrom io 0 imgs
  pub pos : 0 < c
  pub held : Hold imgs c chunks
  pub small : chunks * length imgs * c < 2 ^ 64

module _ {io : InputFunctions} {c chunks : ℕ} {imgs : List Image}
    (r : Striped io c chunks imgs) where
  abbrev n : ℕ
  n = length imgs

  -- What a stretch of chunk `chunk` needs of the image that holds it.
  chunk_fits :
      (chunk o count : ℕ)
      → chunk < chunks * n
      → o + count ≤ c
      → (chunk % n < n)
        × (chunk / n * c + o + count ≤ (image_at imgs (chunk % n)).size)
        × (chunk / n * c + o < 2 ^ 64)
  chunk_fits chunk o count lt fits =
      let some_image : 0 < n = grind arith in
      let row : chunk / n < chunks = (div-lt_iff_lt-mul some_image).1 lt in
      let last = block_end (chunk / n) chunks c row in
      let image = Hold-at imgs c chunks (chunk % n) r.held (mod-lt chunk some_image) in
      let whole : chunks * c ≤ chunks * n * c = mul-le-mul_right c (grind arith) in
      (mod-lt chunk some_image, omega (arith, last, image), omega (arith, last, whole, r.small))

  -- One round of `cur` bytes, given that the later rounds read the rest.
  read_chunks-suc :
      (fuel chunk o count cur : ℕ)
      → (if ltb c (add64 o count) then c - o else count) ≡ cur
      → 0 < count
      → chunk < chunks * n
      → o + cur ≤ c
      → cur ≤ count
      → (count - cur ≡ 0) ⊎ (o + cur ≡ c)
      → read_chunks io c n fuel (chunk + 1) 0 (count - cur)
        ≡ ok (slice (striped imgs c) ((chunk + 1) * c + 0) (count - cur))
      → read_chunks io c n (suc fuel) chunk o count
        ≡ ok (slice (striped imgs c) (chunk * c + o) count)
  unfolding read_chunks
  read_chunks-suc fuel chunk o count cur e more lt fits le at_end ih =
      let f = chunk_fits chunk o cur lt fits in
      let image_offset : add64 (mul64 (chunk / n) c) o ≡ chunk / n * c + o = omega (arith, f.2) in
      ground (
        arith,
        image_offset,
        read-image_at io 0 (chunk % n) imgs (chunk / n * c + o) cur r.serves f.0 f.1,
        length-slice (image_at imgs (chunk % n)).byte (chunk / n * c + o) cur,
        slice-striped imgs c chunk o cur fits,
        slice_split (striped imgs c) (chunk * c + o) ((chunk + 1) * c + 0) cur count le
            (next at_end),
      )
    where
      next :
          (count - cur ≡ 0) ⊎ (o + cur ≡ c)
          → (count - cur ≡ 0) ⊎ (chunk * c + o + cur ≡ (chunk + 1) * c + 0)
      next (inl z) = inl z
      next (inr z) = inr (omega arith)

  read_chunks_lem :
      (fuel chunk o count : ℕ)
      → o < c
      → count ≤ fuel
      → chunk * c + o + count ≤ chunks * n * c
      → read_chunks io c n fuel chunk o count ≡ ok (slice (striped imgs c) (chunk * c + o) count)
  unfolding read_chunks slice
  read_chunks_lem zero chunk o count lt enough fits = ground arith
  read_chunks_lem (suc fuel) chunk o zero lt enough fits = refl
  read_chunks_lem (suc fuel) chunk o (suc k) lt enough fits =
      let here : chunk < chunks * n =
        block-lt chunk (chunks * n) c (chunk * c + o) (omega arith) (omega arith) in
      let last = block_end chunk (chunks * n) c here in
      elim (Bool-cases (ltb c (add64 o (suc k)))) [
        | inl beyond ↦
            read_chunks-suc fuel chunk o (suc k) (c - o) (ground arith) (omega arith) here
              (omega arith) (omega (tests, ltb→lt _ _ beyond)) (inr (omega arith))
              (read_chunks_lem fuel (chunk + 1) 0 (suc k - (c - o)) r.pos (omega arith)
                (omega (tests, ltb→lt _ _ beyond)))
        | inr within ↦
            read_chunks-suc fuel chunk o (suc k) (suc k) (ground arith) (omega arith) here
              (omega (tests, ltb→le _ _ within, r.small)) (omega arith) (inl (omega arith))
              (read_chunks_lem fuel (chunk + 1) 0 (suc k - suc k) r.pos (omega arith)
                (omega (arith, last)))
      ]

-- The handle of a successful `RaidMorph` over the images.
pub record IsRaid (imgs : List Image) (chunks : ℕ) (h : RaidHandle) : Type 0 where
  pub io : InputFunctions
  pub functions : h.input_functions ≡ some io
  pub striped_over : Striped io h.chunk_size chunks imgs
  pub counted : h.input_images_count ≡ length imgs
  pub sized : h.morphed_image_size ≡ chunks * length imgs * h.chunk_size

pub Hold-total :
    (imgs : List Image) (c chunks : ℕ) → Hold imgs c chunks → chunks * length imgs * c ≤ total imgs
Hold-total [] c chunks h = omega arith
Hold-total (m ∷ ms) c chunks h =
    let e : chunks * suc (length ms) * c ≡ chunks * c + chunks * length ms * c = omega arith in
    omega (arith, e, h, Hold-total ms c chunks h.1)

-- On a handle with a chunk size that counts no chunks yet, `RaidMorph` over at least one image, each
-- of at least one chunk, whose sizes add up below 2 ^ 64, succeeds. The handle is then set up with
-- as many chunks as some image has room for and every image holds, and `RaidSize` is that number
-- times the images times the chunk size.
pub morph-IsRaid :
    (h : RaidHandle) (io : InputFunctions) (m : Image) (ms : List Image)
    → Serves io (m ∷ ms)
    → h.chunks_per_image ≡ 0
    → 0 < h.chunk_size
    → Usable h.chunk_size (m ∷ ms)
    → total (m ∷ ms) < 2 ^ 64
    → (h' : RaidHandle) × (chunks : ℕ) × (morph h io ≡ ok h')
      × IsRaid (m ∷ ms) chunks h'
      × Hold (m ∷ ms) h.chunk_size chunks
      × Attained h.chunk_size (m ∷ ms) chunks
      × (size h' ≡ chunks * length (m ∷ ms) * h.chunk_size)
unfolding morph size
morph-IsRaid h io m ms s fresh pos usable small =
    let (chunks, e, one, held, attained) =
      count_chunks_fresh io h.chunk_size m ms s.served pos usable in
    let n = suc (length ms) in
    let fits = Hold-total (m ∷ ms) h.chunk_size chunks held in
    let row : chunks * h.chunk_size ≤ chunks * n * h.chunk_size =
      mul-le-mul_right h.chunk_size (grind arith) in
    let capacity : mul64 (mul64 chunks h.chunk_size) n ≡ chunks * n * h.chunk_size =
      capacity_lem chunks h.chunk_size n (omega (arith, fits)) (omega (arith, row, fits)) in
    (
      record h {
        input_images_count = n;
        input_functions = some io;
        chunks_per_image = chunks;
        morphed_image_size = mul64 (mul64 chunks h.chunk_size) n;
      },
      chunks,
      ground (arith, s.counted, ap (count_chunks io h.chunk_size n 0) fresh, e),
      record {
        io = io;
        functions = refl;
        striped_over = record {
          serves = s.served;
          pos = pos;
          held = held;
          small = omega (arith, fits);
        };
        counted = refl;
        sized = capacity;
      },
      held,
      attained,
      capacity,
    )
  where
    capacity_lem :
        (a b n : ℕ) → a * n * b < 2 ^ 64 → a * b < 2 ^ 64 → mul64 (mul64 a b) n ≡ a * n * b
    capacity_lem a b n small1 small2 =
        let e : a * b * n ≡ a * n * b = omega arith in
        let e1 : mul64 a b ≡ a * b = mod-eq_of_lt small2 in rw e1 (rw e (mod-eq_of_lt small1))

-- For offsets and counts whose sum does not wrap, `RaidRead` returns the bytes of the striped image
-- if they lie inside the capacity, and its error code for a read beyond the end otherwise.
pub read-striped :
    {imgs : List Image} {chunks : ℕ} (h : RaidHandle) (offset count : ℕ)
    → IsRaid imgs chunks h
    → offset + count < 2 ^ 64
    → read h offset count ≡ (
        if ltb offset (size h) && leb (offset + count) (size h)
        then ok (slice (striped imgs h.chunk_size) offset count)
        else err read_beyond_end_of_image)
unfolding read size
read-striped {imgs} {chunks} h offset count s small =
    elim (Bool-cases
      (ltb offset h.morphed_image_size && leb (offset + count) h.morphed_image_size)) [
        | inl inside ↦
            let within : (offset < h.morphed_image_size) × (offset + count ≤ h.morphed_image_size) =
              ground arith in
            let split = block_bounds offset h.chunk_size s.striped_over.pos in
            let start : sub64 offset (mul64 (offset / h.chunk_size) h.chunk_size)
                ≡ offset % h.chunk_size =
              omega (arith, split) in
            let pieces =
              read_chunks_lem s.striped_over count (offset / h.chunk_size) (offset % h.chunk_size)
                count split.1 (omega arith) (omega (arith, split, s.sized, within)) in
            ground (arith, s.functions, s.counted, start, pieces, split.0)
        | inr outside ↦ ground arith
      ]

-- When the first of two images is too small for a chunk and the second, of less than 2 ^ 32 bytes, is
-- not, `RaidMorph` on a handle that counts no chunks yet succeeds with a size that is not 0, though
-- the number of chunks that both images hold is 0.
pub morph_small_first :
    (h : RaidHandle) (io : InputFunctions) (m m' : Image) (chunks : ℕ)
    → Serves io (m ∷ m' ∷ [])
    → h.chunks_per_image ≡ 0
    → m.size < h.chunk_size
    → h.chunk_size ≤ m'.size
    → m'.size < 2 ^ 32
    → Hold (m ∷ m' ∷ []) h.chunk_size chunks
    → (h' : RaidHandle) × (morph h io ≡ ok h') × (0 < size h') × (chunks ≡ 0)
unfolding morph size
morph_small_first h io m m' chunks s fresh small big bound held =
    let c = h.chunk_size in
    let k = m'.size / c in
    let one : 1 ≤ k = (le-div_iff_mul-le (omega arith)).1 (omega arith) in
    let fits : k * c ≤ m'.size = div-mul-le_self m'.size c in
    let some_bytes : 0 < k * c = mul-pos one (omega arith) in
    let counted : count_chunks io c 2 0 h.chunks_per_image ≡ ok k =
      ap (count_chunks io c 2 0) fresh
      ∙ count_chunks_too_small io c 1 0 m s.served.0 small
      ∙ count_chunks_one io c 1 m'.size s.served.2.0 in
    (
      record h {
        input_images_count = 2;
        input_functions = some io;
        chunks_per_image = k;
        morphed_image_size = mul64 (mul64 k c) 2;
      },
      ground (arith, s.counted, counted),
      omega arith,
      none_held chunks c m.size held.0 small,
    )
  where
    none_held : (chunks c z : ℕ) → chunks * c ≤ z → z < c → chunks ≡ 0
    none_held zero c z le lt = refl
    none_held (suc n) c z le lt = absurd (omega (arith, suc-mul n c))
