-- ===== src/Morphing/Unallocated/Read.antt =====
-- What `UnallocatedRead` returns.
use xmount.Base.{
  ℕ, zero, suc, ◌+◌, ◌-◌, ◌*◌, ◌/◌, ◌%◌, ◌^◌, ◌≤◌, ◌<◌, ◌≡◌, refl, ap, sym, ◌∙◌, inl, inr, some,
  List, [], ◌∷◌, ◌++◌, arith, tests, Bool-cases,
}
use xmount.Base.{
  ltb, leb, ltb→lt, ltb→le, if◌then◌else◌, ◌&&◌, add64, sub64, mul64, length, get_or,
  get_elem?-eq-get_or, slice, slice_ext, slice_split, length-slice, ok, err,
}
use xmount.Base.{block-div, block-mod, block_end, block-lt}
use xmount.Morphing.Images.{InputFunctions, Image}
use xmount.Morphing.Unallocated.{
  UnallocatedHandle, read_beyond_end_of_image, size, read_blocks, read,
}

-- The free blocks one behind the other.
unfoldable pub free_byte : List ℕ → ℕ → (ℕ → ℕ) → ℕ → ℕ
free_byte free_block_map block_size byte p =
    byte (get_or free_block_map (p / block_size) 0 + p % block_size)

-- What `UnallocatedMorph` is to leave in the handle: a map of blocks that lie inside the image.
pub record IsUnallocated (img : Image) (h : UnallocatedHandle) : Type 0 where
  pub io : InputFunctions
  pub functions : h.input_functions ≡ some io
  pub serves : (o n : ℕ) → o + n ≤ img.size → io.read 0 o n ≡ some (slice img.byte o n)
  pub pos : 0 < h.block_size
  pub inside :
      (b : ℕ) → b < length h.free_block_map → get_or h.free_block_map b 0 + h.block_size ≤ img.size
  pub sized : h.morphed_image_size ≡ length h.free_block_map * h.block_size
  pub small : img.size < 2 ^ 63
  pub short : h.morphed_image_size < 2 ^ 63

append-nil : (xs : List ℕ) → xs ++ [] ≡ xs
append-nil [] = refl
append-nil (x ∷ xs) = ap (◌∷◌ x) (append-nil xs)

module _ {img : Image} {h : UnallocatedHandle} (u : IsUnallocated img h) where
  abbrev content : ℕ → ℕ
  content = free_byte h.free_block_map h.block_size img.byte

  -- A stretch inside one block.
  slice-free_byte :
      (b n : ℕ)
      → n ≤ h.block_size
      → slice content (b * h.block_size) n ≡ slice img.byte (get_or h.free_block_map b 0) n
  unfolding free_byte
  slice-free_byte b n le =
      slice_ext content img.byte (b * h.block_size) (get_or h.free_block_map b 0) n (λ i lt.
        rw (block-div b h.block_size i (omega arith), block-mod b h.block_size i (omega arith))
          refl)

  -- One round of `cur` bytes from the start of a block, and the rest.
  round :
      (fuel b count cur : ℕ) (rest : List ℕ)
      → (if ltb h.block_size (add64 0 count) then sub64 h.block_size 0 else count) ≡ cur
      → 0 < count
      → cur ≤ h.block_size
      → b < length h.free_block_map
      → read_blocks h u.io fuel (b + 1) 0 (count - cur) ≡ ok rest
      → read_blocks h u.io (suc fuel) b 0 count ≡ ok (slice content (b * h.block_size) cur ++ rest)
  unfolding read_blocks
  round fuel b count cur rest e more le lt done =
      let base = get_or h.free_block_map b 0 in
      let inside = u.inside b lt in
      let at : add64 (add64 base 0) 0 ≡ base = omega (arith, inside, u.small) in
      let whole = u.serves base cur (omega (arith, inside)) in
      ground (
        arith,
        get_elem?-eq-get_or h.free_block_map b 0 lt,
        e,
        at,
        whole,
        length-slice img.byte base cur,
        done,
        slice-free_byte b cur le,
      )

  read_blocks_lem :
      (fuel b count : ℕ)
      → count ≤ fuel
      → b * h.block_size + count ≤ length h.free_block_map * h.block_size
      → read_blocks h u.io fuel b 0 count ≡ ok (slice content (b * h.block_size) count)
  unfolding read_blocks slice
  read_blocks_lem zero b zero enough inside = refl
  read_blocks_lem zero b (suc k) enough inside = absurd (omega arith)
  read_blocks_lem (suc fuel) b zero enough inside = refl
  read_blocks_lem (suc fuel) b (suc k) enough inside =
      let bs : ℕ = h.block_size in
      let lt : b < length h.free_block_map =
        block-lt b (length h.free_block_map) bs (b * bs) (omega arith) (omega arith) in
      let next : (b + 1) * bs ≡ b * bs + bs = omega arith in
      elim (Bool-cases (ltb bs (add64 0 (suc k)))) [
        | inl beyond ↦
            let long : bs < suc k = omega (tests, u.sized, u.short, ltb→lt _ _ beyond) in
            round fuel b (suc k) bs (slice content ((b + 1) * bs) (suc k - bs))
              (ground (arith, u.pos, long, u.sized, u.short)) (omega arith) (omega arith) lt
              (read_blocks_lem fuel (b + 1) (suc k - bs) (omega (arith, u.pos))
                (omega (arith, next, long)))
            ∙ ap ok (
                ap (λ p. slice content (b * bs) bs ++ slice content p (suc k - bs)) next
                ∙ sym (
                    slice_split content (b * bs) (b * bs + bs) bs (suc k) (omega arith) (inr refl)))
        | inr within ↦
            let short : suc k ≤ bs = omega (tests, u.sized, u.short, ltb→le _ _ within) in
            round fuel b (suc k) (suc k) [] (rw within refl) (omega arith) short lt (
              let e : suc k - suc k ≡ 0 = omega arith in
              rw e (
                read_blocks_lem fuel (b + 1) 0 (omega arith)
                  (omega (arith, block_end b (length h.free_block_map) bs lt, next))))
            ∙ ap ok (append-nil (slice content (b * bs) (suc k)))
      ]

  nothing : (fuel b : ℕ) → read_blocks h u.io fuel b 0 0 ≡ ok []
  unfolding read_blocks
  nothing zero b = refl
  nothing (suc fuel) b = refl

  one_round :
      (block o n : ℕ)
      → block < length h.free_block_map
      → 0 < n
      → o + n ≤ h.block_size
      → get_or h.free_block_map block 0 + 2 * o + n ≤ img.size
      → read_blocks h u.io n block o n
        ≡ ok (slice img.byte (get_or h.free_block_map block 0 + 2 * o) n)
  unfolding read_blocks
  one_round block o zero lt more le inside = absurd (omega arith)
  one_round block o (suc k) lt more le inside =
      let base = get_or h.free_block_map block 0 in
      let end = block_end block (length h.free_block_map) h.block_size lt in
      let at : add64 (add64 base o) o ≡ base + 2 * o = omega (arith, inside, u.small) in
      let none_left : suc k - suc k ≡ 0 = omega arith in
      let cut : (if ltb h.block_size (add64 o (suc k)) then sub64 h.block_size o else suc k)
          ≡ suc k =
        ground (arith, u.sized, u.short, end) in
      ground (
        arith,
        get_elem?-eq-get_or h.free_block_map block 0 lt,
        cut,
        at,
        u.serves (base + 2 * o) (suc k) (omega arith),
        length-slice img.byte (base + 2 * o) (suc k),
        none_left,
        nothing k (block + 1),
        append-nil (slice img.byte (base + 2 * o) (suc k)),
      )

-- On a handle with a map of blocks that lie inside an image, and for a stretch that begins at the
-- start of a block of the image of free blocks and whose end does not wrap, `UnallocatedRead`
-- returns its bytes if it begins and ends inside that image, and its error code for a read beyond
-- the end otherwise.
pub read-free_byte :
    {img : Image} (h : UnallocatedHandle) (block count : ℕ)
    → IsUnallocated img h
    → block * h.block_size + count < 2 ^ 64
    → read h (block * h.block_size) count ≡ (
        if ltb (block * h.block_size) (size h) && leb (block * h.block_size + count) (size h)
        then ok
            (slice (free_byte h.free_block_map h.block_size img.byte) (block * h.block_size) count)
        else err read_beyond_end_of_image)
unfolding read size
read-free_byte {img} h block count u small =
    let bs : ℕ = h.block_size in
    let at : block * bs / bs ≡ block =
      ap (λ p. p / bs) (omega arith) ∙ block-div block bs 0 u.pos in
    let start : sub64 (block * bs) (mul64 block bs) ≡ 0 = omega (arith, small) in
    elim (Bool-cases
      (ltb (block * bs) h.morphed_image_size && leb (block * bs + count) h.morphed_image_size)) [
        | inl inside ↦
            let within : block * bs + count ≤ h.morphed_image_size = ground arith in
            ground (
              arith,
              u.functions,
              at,
              start,
              read_blocks_lem u count block count (omega arith) (omega (arith, within, u.sized)),
            )
        | inr outside ↦ ground arith
      ]

-- Inside a block, the offset in the block counts twice: a stretch that begins at `o` in a block is
-- read from `2 * o` of it on, as long as that lies inside the image.
pub read_inside_block :
    {img : Image} (h : UnallocatedHandle) (block o count : ℕ)
    → IsUnallocated img h
    → block < length h.free_block_map
    → 0 < count
    → o + count ≤ h.block_size
    → get_or h.free_block_map block 0 + 2 * o + count ≤ img.size
    → read h (block * h.block_size + o) count
      ≡ ok (slice img.byte (get_or h.free_block_map block 0 + 2 * o) count)
unfolding read
read_inside_block {img} h block o count u lt more le inside =
    let bs : ℕ = h.block_size in
    let end = block_end block (length h.free_block_map) bs lt in
    let at = block-div block bs o (omega arith) in
    let start : sub64 (block * bs + o) (mul64 block bs) ≡ o =
      omega (arith, u.sized, u.short, end) in
    ground (
      arith,
      u.functions,
      u.sized,
      u.short,
      end,
      at,
      start,
      one_round u block o count lt more le inside,
    )
