-- ===== src/Morphing/Unallocated/Hfs/Map.antt =====
-- The map that `BuildHfsBlockMap` builds.
use xmount.Base.{
  ℕ, zero, suc, ◌+◌, ◌*◌, ◌/◌, ◌%◌, ◌^◌, ◌≤◌, ◌<◌, ◌≡◌, refl, ap, ◌∙◌, inl, inr, Bool, true, false,
  Bool-cases, List, [], ◌∷◌, arith,
}
use xmount.Base.{u32, ◌==◌, not, ◌-◌, length, get_or, get_elem?-eq-get_or, ok, block_end}
use xmount.Morphing.Unallocated.FreeMap.{IsFreeMap, none_left, one_free, one_used}
use xmount.Morphing.Unallocated.Hfs.{HfsHandle, is_free, free_blocks, build_hfs_block_map}

abbrev pub bit : Bool → ℕ
bit true = 1
bit false = 0

-- The allocation file has one bit for a block, 1 for one in use, the most significant bit of a byte
-- for the first one.
pub record IsAllocFile (in_use : ℕ → Bool) (alloc_file : List ℕ) : Type 0 where
  pub bytes :
      (i : ℕ)
      → i < length alloc_file
      → get_or alloc_file i 0
        ≡ bit (in_use (8 * i + 0)) * 128
          + bit (in_use (8 * i + 1)) * 64
          + bit (in_use (8 * i + 2)) * 32
          + bit (in_use (8 * i + 3)) * 16
          + bit (in_use (8 * i + 4)) * 8
          + bit (in_use (8 * i + 5)) * 4
          + bit (in_use (8 * i + 6)) * 2
          + bit (in_use (8 * i + 7))

bit-le : (b : Bool) → bit b ≤ 1
bit-le true = omega arith
bit-le false = omega arith

-- One of eight bits.
bit_at :
    (w : ℕ → ℕ) (byte k : ℕ)
    → ((j : ℕ) → w j ≤ 1)
    → byte ≡ w 0 * 128 + w 1 * 64 + w 2 * 32 + w 3 * 16 + w 4 * 8 + w 5 * 4 + w 6 * 2 + w 7
    → k < 8
    → byte / 2 ^ (7 - k) % 2 ≡ w k
bit_at w byte zero le e lt = omega (arith, e, le 0, le 1, le 2, le 3, le 4, le 5, le 6, le 7)
bit_at w byte (suc zero) le e lt = omega (arith, e, le 0, le 1, le 2, le 3, le 4, le 5, le 6, le 7)
bit_at w byte (suc (suc zero)) le e lt =
    omega (arith, e, le 0, le 1, le 2, le 3, le 4, le 5, le 6, le 7)
bit_at w byte (suc (suc (suc zero))) le e lt =
    omega (arith, e, le 0, le 1, le 2, le 3, le 4, le 5, le 6, le 7)
bit_at w byte (suc (suc (suc (suc zero)))) le e lt =
    omega (arith, e, le 0, le 1, le 2, le 3, le 4, le 5, le 6, le 7)
bit_at w byte (suc (suc (suc (suc (suc zero))))) le e lt =
    omega (arith, e, le 0, le 1, le 2, le 3, le 4, le 5, le 6, le 7)
bit_at w byte (suc (suc (suc (suc (suc (suc zero)))))) le e lt =
    omega (arith, e, le 0, le 1, le 2, le 3, le 4, le 5, le 6, le 7)
bit_at w byte (suc (suc (suc (suc (suc (suc (suc zero))))))) le e lt =
    omega (arith, e, le 0, le 1, le 2, le 3, le 4, le 5, le 6, le 7)
bit_at w byte (suc (suc (suc (suc (suc (suc (suc (suc k)))))))) le e lt = absurd (omega arith)

module _ (h : HfsHandle) (in_use : ℕ → Bool) (file : IsAllocFile in_use h.alloc_file) where
  is_free-in_use :
      (b : ℕ)
      → b < 8 * length h.alloc_file
      → is_free (get_or h.alloc_file (b / 8) 0) b ≡ not (in_use b)
  unfolding is_free
  is_free-in_use b lt =
      let at : 8 * (b / 8) + b % 8 ≡ b = omega arith in
      let e =
        bit_at (λ k. bit (in_use (8 * (b / 8) + k))) (get_or h.alloc_file (b / 8) 0) (b % 8)
          (λ j. bit-le (in_use (8 * (b / 8) + j))) (file.bytes (b / 8) (omega arith))
          (omega arith) in
      rw (e, at) (bit-not (in_use b))
    where
      bit-not : (u : Bool) → (bit u == 0) ≡ not u
      bit-not true = refl
      bit-not false = refl

module _ (h : HfsHandle) (in_use : ℕ → Bool) (file : IsAllocFile in_use h.alloc_file)
    (short : h.total_blocks * h.block_size < 2 ^ 32) where
  free_blocks_lem :
      (left first : ℕ)
      → first + left ≡ h.total_blocks
      → h.total_blocks ≤ 8 * length h.alloc_file
      → (map : List ℕ) × (free_blocks h left first ≡ ok map)
        × IsFreeMap h.total_blocks (λ b. in_use b ≡ false) (λ b. b * h.block_size) first map
  unfolding free_blocks
  free_blocks_lem zero first e covered = ([], refl, none_left first (omega arith))
  free_blocks_lem (suc left) first e covered =
      let (map, done, m) = free_blocks_lem left (first + 1) (omega arith) covered in
      let byte = get_elem?-eq-get_or h.alloc_file (first / 8) 0 (omega arith) in
      let same = is_free-in_use h in_use file first (omega arith) in
      elim (Bool-cases (in_use first)) [
        | inl used ↦
            let test : is_free (get_or h.alloc_file (first / 8) 0) first ≡ false =
              same ∙ ap not used in
            (
              map,
              rw (byte, free_blocks, done, test) refl,
              one_used first map (λ free. absurd (ground (arith, used, free))) m,
            )
        | inr free ↦
            let test : is_free (get_or h.alloc_file (first / 8) 0) first ≡ true =
              same ∙ ap not free in
            (
              u32 (first * h.block_size) ∷ map,
              rw (byte, free_blocks, done, test) refl,
              one_free first (u32 (first * h.block_size)) map
                  (omega (arith, block_end first h.total_blocks h.block_size (omega arith), short))
                  (omega arith) free m,
            )
      ]

-- On a volume of less than 2 ^ 32 bytes whose allocation file has a bit for every block, most
-- significant bit first and 1 for a block in use, `BuildHfsBlockMap` succeeds with the block size and
-- a map of the positions of just the blocks that are not in use.
pub build_hfs_block_map_lem :
    (h : HfsHandle) (in_use : ℕ → Bool)
    → IsAllocFile in_use h.alloc_file
    → h.total_blocks * h.block_size < 2 ^ 32
    → h.total_blocks ≤ 8 * length h.alloc_file
    → (map : List ℕ) × (build_hfs_block_map h ≡ ok (map, h.block_size))
      × IsFreeMap h.total_blocks (λ b. in_use b ≡ false) (λ b. b * h.block_size) 0 map
unfolding build_hfs_block_map
build_hfs_block_map_lem h in_use file short covered =
    let (map, done, m) =
      free_blocks_lem h in_use file short h.total_blocks 0 (omega arith) covered in
    (map, rw (done, build_hfs_block_map) refl, m)
