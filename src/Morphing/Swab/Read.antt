-- ===== src/Morphing/Swab/Read.antt =====
-- What `SwabRead` returns.
use xmount.Base.{
  ℕ, zero, suc, ◌+◌, ◌-◌, ◌*◌, ◌/◌, ◌%◌, ◌^◌, ◌≤◌, ◌<◌, ◌≡◌, refl, ap, ◌⊎◌, inl, inr, some, [], ◌∷◌,
  arith, Bool, true, false, Bool-cases,
}
use xmount.Base.{
  ltb, leb, ◌==◌, if◌then◌else◌, ◌||◌, ◌&&◌, add64, length, slice, length-slice, ok, err, fault,
}
use xmount.Morphing.Images.{InputFunctions, Image, Serves}
use xmount.Morphing.Swab.{
  SwabHandle, read_beyond_end_of_image, create_handle, add_sizes, morph, size, swap_pairs, read,
}

-- The bytes with each pair exchanged.
unfoldable pub swabbed : (ℕ → ℕ) → ℕ → ℕ
swabbed byte p = if p % 2 == 0 then byte (p + 1) else byte (p - 1)

swabbed-low : (byte : ℕ → ℕ) (o : ℕ) → o % 2 ≡ 0 → swabbed byte o ≡ byte (o + 1)
unfolding swabbed
swabbed-low byte o even = ground (arith, even)

swabbed-high : (byte : ℕ → ℕ) (o : ℕ) → o % 2 ≡ 0 → swabbed byte (o + 1) ≡ byte o
unfolding swabbed
swabbed-high byte o even = let e : o + 1 - 1 ≡ o = omega arith in ground (arith, even, ap byte e)

swap_pairs-even :
    (byte : ℕ → ℕ) (k o i count : ℕ)
    → o % 2 ≡ 0
    → (count ≡ i + 2 * k) ⊎ (count + 1 ≡ i + 2 * k)
    → swap_pairs i count (slice byte o (2 * k)) ≡ ok (slice (swabbed byte) o (count - i))
unfolding swap_pairs slice
swap_pairs-even byte zero o i count even at = let e : count - i ≡ 0 = omega (arith, at) in rw e refl
swap_pairs-even byte (suc k) o i count even at =
    let e : 2 * suc k ≡ suc (suc (2 * k)) = omega arith in
    let ih = swap_pairs-even byte k (o + 1 + 1) (i + 2) count (omega (arith, even)) (later at) in
    let low = swabbed-low byte o even in
    let high = swabbed-high byte o even in
    rw e (elim (Bool-cases (ltb (i + 1) count)) [
      | inl both ↦
          let more : ltb i count ≡ true = ground arith in
          let n : count - i ≡ suc (suc (count - (i + 2))) = ground arith in
          rw (n, more, swap_pairs, both, ih, low, high) refl
      | inr one ↦
          let more : ltb i count ≡ true = ground (arith, at) in
          let n : count - i ≡ 1 = ground (arith, at) in
          let none : count - (i + 2) ≡ 0 = ground (arith, at) in
          rw (n, more, swap_pairs, one, ih, none, low) refl
    ])
  where
    later :
        (count ≡ i + 2 * suc k) ⊎ (count + 1 ≡ i + 2 * suc k)
        → (count ≡ i + 2 + 2 * k) ⊎ (count + 1 ≡ i + 2 + 2 * k)
    later (inl a) = inl (omega arith)
    later (inr a) = inr (omega arith)

swap_pairs-odd :
    (byte : ℕ → ℕ) (k o i count : ℕ) → swap_pairs i count (slice byte o (2 * k + 1)) ≡ fault
unfolding swap_pairs slice
swap_pairs-odd byte zero o i count = refl
swap_pairs-odd byte (suc k) o i count =
    let e : 2 * suc k + 1 ≡ suc (suc (2 * k + 1)) = omega arith in
    rw e (ground (arith, swap_pairs-odd byte k (o + 1 + 1) (i + 2) count))

-- What `SwabMorph` leaves in the handle over one image.
pub record IsSwab (img : Image) (h : SwabHandle) : Type 0 where
  pub io : InputFunctions
  pub functions : h.input_functions ≡ some io
  pub serves : (o n : ℕ) → o + n ≤ img.size → io.read 0 o n ≡ some (slice img.byte o n)
  pub sized : h.morphed_image_size ≡ img.size
  pub small : img.size < 2 ^ 64

-- On a fresh handle, `SwabMorph` over one image of a size below 2 ^ 64 succeeds, and the handle is
-- set up for it: `SwabSize` then returns its size.
pub morph-IsSwab :
    (debug : Bool) (io : InputFunctions) (img : Image)
    → Serves io (img ∷ [])
    → img.size < 2 ^ 64
    → (h : SwabHandle) × (morph (create_handle debug) io ≡ ok h)
      × IsSwab img h
      × (size h ≡ img.size)
unfolding morph create_handle size add_sizes
morph-IsSwab debug io img s small = (
  record {
    debug = debug;
    input_images_count = 1;
    input_functions = some io;
    morphed_image_size = img.size;
  },
  (let e : add64 0 img.size ≡ img.size = omega (arith, small) in
      ground (arith, s.counted, s.served.0, e)),
  record { io = io; functions = refl; serves = s.served.1; sized = refl; small = small },
  refl,
)

-- For offsets and counts whose sum does not wrap, `SwabRead` on a handle that is set up over one
-- image returns its error code for a read beyond the end, unless the stretch begins and ends inside
-- the image. If it does, and the last byte that is asked for is the second one of a pair, `SwabRead`
-- returns `count` bytes of the image with the pairs exchanged, from the first byte of the pair on
-- that `offset` lies in; otherwise it accesses memory behind the end of its buffer.
pub read-swabbed :
    {img : Image} (h : SwabHandle) (offset count : ℕ)
    → IsSwab img h
    → offset + count < 2 ^ 64
    → read h offset count ≡ (
        if ltb offset img.size && leb (offset + count) img.size
        then (if (offset + count) % 2 == 0
            then ok (slice (swabbed img.byte) (offset - offset % 2) count)
            else fault)
        else err read_beyond_end_of_image)
unfolding read
read-swabbed {img} h offset count s small =
    let odd : ℕ = offset % 2 in
    let n : ℕ = count + odd in
    let start : ℕ = offset - odd in
    let even_start : start % 2 ≡ 0 = omega arith in
    let half : ℕ = n / 2 in
    elim (Bool-cases (ltb offset img.size && leb (offset + count) img.size)) [
      | inl inside ↦
          let within : (offset < img.size) × (offset + count ≤ img.size) = ground arith in
          let whole = s.serves start n (omega (arith, within.0, within.1)) in
          let outside : (leb h.morphed_image_size offset
                || ltb h.morphed_image_size (add64 offset count))
              ≡ false =
            ground (arith, within.0, within.1, s.sized, small) in
          let full : (length (slice img.byte start n) == n) ≡ true =
            ground (arith, length-slice img.byte start n) in
          elim (Bool-cases ((offset + count) % 2 == 0)) [
            | inl paired ↦
                let pairs : n ≡ 2 * half = ground (arith, paired) in
                rw (inside, paired, outside, read, s.functions, whole, full, pairs)
                  (let z : count - 0 ≡ count = omega arith in
                    rw z at (swap_pairs-even img.byte half start 0 count even_start (ends paired)))
            | inr unpaired ↦
                let pairs : n ≡ 2 * half + 1 = ground (arith, unpaired) in
                rw (inside, unpaired, outside, read, s.functions, whole, full, pairs)
                  (swap_pairs-odd img.byte half start 0 count)
          ]
      | inr outside ↦ ground (arith, s.sized)
    ]
  where
    ends :
        ((offset + count) % 2 == 0) ≡ true
        → (count ≡ 0 + 2 * ((count + offset % 2) / 2))
          ⊎ (count + 1 ≡ 0 + 2 * ((count + offset % 2) / 2))
    ends paired = elim (Bool-cases (offset % 2 == 0)) [
      | inl even ↦ inl (ground arith)
      | inr odd ↦ inr (ground arith)
    ]
