-- ===== src/VirtImage/Set/Footed.antt =====
-- `SetVirtImageData` into a VHD file: the image, and the footer behind it.
pub mod Whole
mod Tests
use mathlib.Core.Path.{subst}
use xmount.Base.{
  ℕ, zero, suc, ◌+◌, ◌-◌, ◌*◌, ◌/◌, ◌%◌, ◌^◌, ◌≤◌, ◌<◌, ◌≡◌, refl, ap, sym, ◌∙◌, ◌⊎◌, true, false,
  inl, inr, some, List, [], ok, arith, Bool-cases, min, joined, joined-lt, joined-le,
}
use xmount.Base.{
  length, get_or, take, drop, length-take, length-drop, get_or-take, get_or-drop, ◌==◌,
  if◌then◌else◌, ltb, leb, leb→le, leb→lt, ltb→lt, ltb→le, add64, sub64, ◌>>=◌,
}
use xmount.VirtImage.State.{
  XmountData, Cache, CacheFileHeader, cache_block_size, sizeof_vhd_header, vhd, vhd_cached, vhd_pos,
}
use xmount.VirtImage.Morphed.{IsMorphed}
use xmount.VirtImage.Get.Content.{image_byte, header_byte, vhd_byte, virt_byte}
use xmount.VirtImage.Set.{write_image, write_blocks, Step}
use xmount.VirtImage.Set.Store.{set_vhd_file_header_data, set_vhd}
use xmount.VirtImage.Set.Patch.{patched, patched-inside, patched-outside, patched_cases, patched_ap}
use xmount.VirtImage.Set.Invariant.{Writable, Reserved}
use xmount.VirtImage.Set.Written.{Stops, Written, Written-nil, Outcome}
use xmount.VirtImage.Set.Parts.{joined-patched, header_byte-Written}
use xmount.VirtImage.Set.Loop.{write_image_lem}
use xmount.VirtImage.CacheFile.Bytes.{HeaderFields}
use xmount.VirtImage.Set.Header.Write.{
  HeaderWritten, header_byte-cached, header_byte-uncached, set_vhd_file_header_data_lem,
}

-- The second part of the call, from the state behind the first one.
abbrev footer_part : XmountData → Cache → ℕ → ℕ → List ℕ → Step
footer_part g c1 later at bytes =
    if later == 0 then ok c1 else (set_vhd_file_header_data g c1 at bytes >>= λ (c2, ret). ok c2)

set_vhd-step :
    (g : XmountData) (c c1 : Cache) (size o later now : ℕ) (bytes : List ℕ)
    → (if leb size o
        then length bytes
        else (if ltb size (add64 o (length bytes)) then sub64 (add64 o (length bytes)) size else 0))
      ≡ later
    → length bytes - later ≡ now
    → write_image g size c o (take now bytes) ≡ ok c1
    → set_vhd g c size o bytes ≡ footer_part g c1 later (o + now - size) (drop now bytes)
unfolding set_vhd
set_vhd-step g c c1 size o later now bytes cut back done = rw (cut, back, done) refl

footer_part-step :
    (g : XmountData) (c1 c2 : Cache) (later at n : ℕ) (bytes : List ℕ)
    → 0 < later
    → set_vhd_file_header_data g c1 at bytes ≡ ok (c2, n)
    → footer_part g c1 later at bytes ≡ ok c2
footer_part-step g c1 c2 later at n bytes p done =
    let test : (later == 0) ≡ false = ground arith in rw (test, done) refl

module _ (g : XmountData) {size : ℕ} (full : length g.vhd_header ≡ sizeof_vhd_header) where
  footer_part_lem :
      (c1 : Cache) (later at : ℕ) (bytes : List ℕ)
      → length bytes ≡ later
      → Writable c1 size
      → HeaderFields c1.header
      → (vhd_cached c1.header ≡ 1 → Reserved c1 (vhd_pos c1.header) (length g.vhd_header))
      → at + length bytes ≤ sizeof_vhd_header
      → c1.file.size + sizeof_vhd_header ≤ c1.file.room
      → (c' : Cache) × (footer_part g c1 later at bytes ≡ ok c')
        × Writable c' size
        × (vhd_cached c'.header ≡ 1 → Reserved c' (vhd_pos c'.header) (length g.vhd_header))
        × ((byte : ℕ → ℕ) (q : ℕ) → image_byte (some c') byte q ≡ image_byte (some c1) byte q)
        × ((i : ℕ)
            → i < length g.vhd_header
            → header_byte (some c') vhd_cached vhd_pos g.vhd_header i
              ≡ patched at bytes (header_byte (some c1) vhd_cached vhd_pos g.vhd_header) i)
  footer_part_lem c1 later at bytes e w fields r le room = elim (Bool-cases (later == 0)) [
    | inl none ↦ (
      c1,
      rw none refl,
      w,
      r,
      λ byte q. refl,
      λ i lt. sym (patched-outside at bytes _ i (grind (arith, e, none))),
    )
    | inr more ↦
        let p : 0 < later = ground arith in
        let (c2, done, h) =
          set_vhd_file_header_data_lem g c1 at bytes w fields r full (omega arith) le room in
        (
          c2,
          footer_part-step g c1 c2 later at (length bytes) bytes p done,
          h.writable,
          λ here. h.reserved,
          h.image,
          h.header,
        )
  ]

-- What a write into a VHD file needs: a writable cache whose header is one, with room for the blocks
-- and the footer that are written and a reserved stretch for a cached footer, and a request that
-- ends in the file.
pub record FootedRequest (footer : List ℕ) (c : Cache) (size rounds o n : ℕ) : Type 0 where
  pub in_memory : length footer ≡ sizeof_vhd_header
  pub writable : Writable c size
  pub fields : HeaderFields c.header
  pub in_file : vhd_cached c.header ≡ 1 → Reserved c (vhd_pos c.header) (length footer)
  pub inside : o + n ≤ size + sizeof_vhd_header
  pub fits : o % cache_block_size + min n (size - o) ≤ rounds * cache_block_size
  pub room : c.file.size + rounds * cache_block_size + sizeof_vhd_header ≤ c.file.room
  pub stops : o < size → Stops c size (o + min n (size - o))

module _ (g : XmountData) {size : ℕ} {byte : ℕ → ℕ} (m : IsMorphed g.morphing size byte)
    (small : size < 2 ^ 51) where
  image_part_lem :
      (rounds : ℕ) (c : Cache) (o : ℕ) (bytes : List ℕ)
      → FootedRequest g.vhd_header c size rounds o (length bytes)
      → Outcome size byte c rounds o
          (take (min (length bytes) (size - o)) bytes)
          (write_image g size c o (take (min (length bytes) (size - o)) bytes))
  unfolding write_image write_blocks
  image_part_lem rounds c o bytes r =
      let now : List ℕ = take (min (length bytes) (size - o)) bytes in
      let e : length now ≡ min (length bytes) (size - o) =
        omega (arith, length-take (min (length bytes) (size - o)) bytes) in
      elim (Bool-cases (leb size o)) [
        | inl behind ↦
            let none : length now ≡ 0 = omega (arith, e, leb→le _ _ behind) in
            (c, rw (none, write_image, none) refl, Written-nil c rounds o now none r.writable)
        | inr before ↦
            let lt : o < size = leb→lt _ _ before in
            write_image_lem g m small rounds c o now (omega (arith, e, r.fits))
              (omega (arith, e, lt)) r.writable (omega (arith, r.room)) (rw e (r.stops lt))
      ]

  -- A write of at least one byte into a VHD file succeeds, puts the bytes at their place in the file,
  -- whose footer is behind the image, and keeps the cache writable.
  pub set_vhd_lem :
      (rounds : ℕ) (c : Cache) (o : ℕ) (bytes : List ℕ)
      → FootedRequest g.vhd_header c size rounds o (length bytes)
      → (c' : Cache) × (set_vhd g c size o bytes ≡ ok c')
        × Writable c' size
        × (vhd_cached c'.header ≡ 1 → Reserved c' (vhd_pos c'.header) (length g.vhd_header))
        × ((q : ℕ)
            → q < size + sizeof_vhd_header
            → joined size
                (image_byte (some c') byte)
                (header_byte (some c') vhd_cached vhd_pos g.vhd_header)
                q
              ≡ patched o bytes
                  (joined size
                    (image_byte (some c) byte)
                    (header_byte (some c) vhd_cached vhd_pos g.vhd_header))
                  q)
  set_vhd_lem rounds c o bytes r =
      let n : ℕ = length bytes in
      let now : ℕ = min n (size - o) in
      let cut : (if leb size o
            then n
            else (if ltb size (add64 o n) then sub64 (add64 o n) size else 0))
          ≡ n - now =
        cut_lem in
      let back : n - (n - now) ≡ now = omega arith in
      let (c1, done, w) = image_part_lem rounds c o bytes r in
      let (c', done', w', later_file, same, footer) =
        footer_part_lem g r.in_memory c1 (n - now) (o + now - size) (drop now bytes)
          (length-drop now bytes) w.writable (rw w.same_header r.fields) (later_in_file c1 w)
          (omega (arith, length-drop now bytes, r.inside))
          (omega (arith, w.bounded, w.same_room, r.room)) in
      (
        c',
        set_vhd-step g c c1 size o (n - now) now bytes cut back done ∙ done',
        w',
        later_file,
        joined-patched size o now sizeof_vhd_header bytes (image_byte (some c) byte) _
            (header_byte (some c) vhd_cached vhd_pos g.vhd_header) _ refl r.inside
            (λ q lt. same byte q ∙ w.image q lt)
            (λ i lt.
              footer i (omega (arith, r.in_memory))
              ∙ patched_ap (o + now - size) (drop now bytes) _ _ i (
                  header_byte-Written vhd_cached vhd_pos g.vhd_header i w r.in_file
                    (omega (arith, r.in_memory)))),
      )
    where
      cut_lem :
          (if leb size o
            then length bytes
            else (if ltb size (add64 o (length bytes))
                then sub64 (add64 o (length bytes)) size
                else 0))
          ≡ length bytes - min (length bytes) (size - o)
      cut_lem = ground (arith, r.inside, small)

      later_in_file :
          (c1 : Cache)
          → Written c c1 size byte rounds o (take (min (length bytes) (size - o)) bytes)
          → vhd_cached c1.header ≡ 1
          → Reserved c1 (vhd_pos c1.header) (length g.vhd_header)
      later_in_file c1 w here =
          subst (λ p. Reserved c1 p (length g.vhd_header)) (sym (ap vhd_pos w.same_header))
            (w.reserved (vhd_pos c.header) (length g.vhd_header)
              (r.in_file (sym (ap vhd_cached w.same_header) ∙ here))).0
