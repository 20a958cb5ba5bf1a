-- ===== src/VirtImage/Set/Round.antt =====
-- What a round of the block loop does to the image.
use native.Mathlib.Decide.{ℕ_discrete}
use xmount.Base.{
  ℕ, ◌+◌, ◌*◌, ◌/◌, ◌%◌, ◌≤◌, ◌<◌, ◌≡◌, ◌≢◌, refl, ap, sym, ◌∙◌, ◌⊎◌, inl, inr, some, List, arith,
  Bool-cases,
}
use xmount.Base.{length, ◌==◌, if◌then◌else◌, block_bounds, ltb, ltb→lt, ltb→le, tests}
use xmount.VirtImage.State.{Cache, cache_block_size}
use xmount.VirtImage.Get.Content.{image_byte, image_byte-block}
use xmount.VirtImage.Set.Patch.{patched, patched-inside, patched-outside, patched_cases}
use xmount.VirtImage.Set.Block.{Stored, entry}
use xmount.VirtImage.Set.Invariant.{Writable, other_block}

module _ {c c' : Cache} {size : ℕ} {byte : ℕ → ℕ} {block o : ℕ} {bytes : List ℕ}
    (s : Stored c c' size byte block o bytes) (short : o + length bytes ≤ cache_block_size) where
  -- A byte of the block.
  this_block :
      (i : ℕ)
      → i < cache_block_size
      → block * cache_block_size + i < size
      → image_byte (some c') byte (block * cache_block_size + i)
        ≡ patched
            (block * cache_block_size + o)
            bytes
            (image_byte (some c) byte)
            (block * cache_block_size + i)
  this_block i lt inside =
      image_byte-block (some c') byte block i lt ∙ here ∙ elim (patched_cases o (length bytes) i) [
        | inl (j, e, lt') ↦
            ap (λ k. c'.file.byte ((entry c' block).off_data + k)) e
            ∙ s.written j lt'
            ∙ sym (
                patched-inside (block * cache_block_size + o) bytes (image_byte (some c) byte)
                  (block * cache_block_size + i) j (omega arith) lt')
        | inr out ↦
            s.around i lt out inside
            ∙ sym (
                patched-outside (block * cache_block_size + o) bytes (image_byte (some c) byte)
                  (block * cache_block_size + i) (grind arith))
      ]
    where
      here :
          (if (entry c' block).assigned == 1
            then c'.file.byte ((entry c' block).off_data + i)
            else byte (block * cache_block_size + i))
          ≡ c'.file.byte ((entry c' block).off_data + i)
      here = ground (arith, s.assigned)

  -- A byte of another block.
  that_block :
      (b i : ℕ)
      → Writable c size
      → b ≢ block
      → i < cache_block_size
      → image_byte (some c') byte (b * cache_block_size + i)
        ≡ image_byte (some c) byte (b * cache_block_size + i)
  that_block b i w ne lt =
      image_byte-block (some c') byte b i lt
      ∙ rw (s.others b ne) (elim (Bool-cases ((entry c b).assigned == 1)) [
        | inl here ↦ rw here (same (ground arith))
        | inr free ↦ rw free refl
      ])
      ∙ sym (image_byte-block (some c) byte b i lt)
    where
      same :
          (entry c b).assigned ≡ 1
          → c'.file.byte ((entry c b).off_data + i) ≡ c.file.byte ((entry c b).off_data + i)
      same here =
          s.kept ((entry c b).off_data + i) (omega (arith, w.above b here))
            (omega (arith, w.cached.inside b here))
            (elim (other_block s b w ne here) [
              | inl a ↦ inl (omega arith)
              | inr a ↦ inr (omega arith)
            ])

  pub Stored-image :
      (q : ℕ)
      → Writable c size
      → q < size
      → image_byte (some c') byte q
        ≡ patched (block * cache_block_size + o) bytes (image_byte (some c) byte) q
  Stored-image q w inside =
      let (e, lt) = block_bounds q cache_block_size (omega arith) in
      elim (ℕ_discrete (q / cache_block_size) block) [
        | yes at ↦
            let e' : q ≡ block * cache_block_size + q % cache_block_size =
              sym (ap (λ b. b * cache_block_size + q % cache_block_size) (sym at) ∙ e) in
            rw e' (this_block (q % cache_block_size) lt (omega arith))
        | no ne ↦
            ap (image_byte (some c') byte) (sym e)
            ∙ that_block (q / cache_block_size) (q % cache_block_size) w ne lt
            ∙ ap (image_byte (some c) byte) e
            ∙ sym (
                patched-outside (block * cache_block_size + o) bytes (image_byte (some c) byte) q
                  (elsewhere ne))
      ]
    where
      elsewhere :
          q / cache_block_size ≢ block
          → (q < block * cache_block_size + o) ⊎ (block * cache_block_size + o + length bytes ≤ q)
      elsewhere ne = elim (Bool-cases (ltb q (block * cache_block_size))) [
        | inl before ↦ inl (omega (arith, ltb→lt _ _ before))
        | inr behind ↦ inr (omega (tests, ne, short, ltb→le _ _ behind))
      ]
