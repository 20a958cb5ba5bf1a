-- ===== src/VirtImage/Set/Loop.antt =====
-- The whole block loop: `write_image` of `Set`.
use native.Mathlib.Decide.{ℕ_discrete}
use xmount.Base.{
  ℕ, zero, suc, ◌+◌, ◌-◌, ◌*◌, ◌/◌, ◌%◌, ◌^◌, ◌≤◌, ◌<◌, ◌≡◌, refl, sym, ◌⊎◌, inl, inr, List, arith,
  tests, false, Bool-cases,
}
use xmount.Base.{
  length, ◌==◌, if◌then◌else◌, block_bounds, ltb, ltb→lt, ltb→le, take, drop, length-take,
  length-drop, add64, ok,
}
use xmount.VirtImage.State.{XmountData, Cache, cache_block_size}
use xmount.VirtImage.Morphed.{IsMorphed}
use xmount.VirtImage.Set.{write_block, write_blocks, write_image, Step}
use xmount.VirtImage.Set.Block.{Stored, entry}
use xmount.VirtImage.Set.Block.Cached.{write_block_lem}
use xmount.VirtImage.Set.Invariant.{Writable, Stored-Writable}
use xmount.VirtImage.Set.Written.{Stops, Written-nil, Written-Stored, Stops-Stored, Outcome}

module _ (g : XmountData) {size : ℕ} {byte : ℕ → ℕ} (m : IsMorphed g.morphing size byte)
    (small : size < 2 ^ 51) where
  round-Stops :
      (c : Cache) (b o n : ℕ)
      → 0 < n
      → o + n ≤ cache_block_size
      → Stops c size (b * cache_block_size + o + n)
      → ((entry c b).assigned ≡ 1)
        ⊎ ((o + n ≡ cache_block_size) ⊎ (b * cache_block_size + o + n < size))
  round-Stops c b o n p short (inl lt) = inr (inr lt)
  round-Stops c b o n p short (inr (inl e)) = inr (inl (omega arith))
  round-Stops c b o n p short (inr (inr here)) = elim (ℕ_discrete (o + n) cache_block_size) [
    | yes e ↦ inr (inl e)
    | no ne ↦
        let at : (b * cache_block_size + o + n) / cache_block_size ≡ b = omega arith in
        inl (rw at at here)
  ]

  write_blocks-next :
      (fuel : ℕ) (c c1 : Cache) (b o p now : ℕ) (bytes : List ℕ) {r : Step}
      → 0 < length bytes
      → (if ltb cache_block_size (add64 o (length bytes))
          then cache_block_size - o
          else length bytes)
        ≡ now
      → write_block g size c b o p (take now bytes) ≡ ok c1
      → write_blocks g size fuel c1 (b + 1) 0 (p + now) (drop now bytes) ≡ r
      → write_blocks g size (suc fuel) c b o p bytes ≡ r
  unfolding write_blocks
  write_blocks-next fuel c c1 b o p now bytes some_bytes e done rest =
      let more : (length bytes == 0) ≡ false = ground arith in rw (more, write_blocks, e, done) rest

  -- One round of `now` bytes, given what the later rounds do.
  write_blocks-suc :
      (fuel k : ℕ) (c : Cache) (b o now : ℕ) (bytes : List ℕ)
      → 0 < k
      → (if ltb cache_block_size (add64 o (length bytes))
          then cache_block_size - o
          else length bytes)
        ≡ now
      → 0 < now
      → now ≤ length bytes
      → o + now ≤ cache_block_size
      → b * cache_block_size + o + length bytes ≤ size
      → Writable c size
      → c.file.size + cache_block_size ≤ c.file.room
      → ((entry c b).assigned ≡ 1)
        ⊎ ((o + now ≡ cache_block_size) ⊎ (b * cache_block_size + o + now < size))
      → ((c1 : Cache)
          → Stored c c1 size byte b o (take now bytes)
          → Outcome size byte c1 (k - 1) (b * cache_block_size + o + now) (drop now bytes) (
              write_blocks g size fuel c1
                (b + 1)
                0
                (b * cache_block_size + o + now)
                (drop now bytes)))
      → Outcome size byte c k
          (b * cache_block_size + o)
          bytes
          (write_blocks g size (suc fuel) c b o (b * cache_block_size + o) bytes)
  write_blocks-suc fuel k c b o now bytes p e some_bytes le short inside w room stop ih =
      let n : length (take now bytes) ≡ now = omega (arith, length-take now bytes) in
      let (c1, done, s) =
        write_block_lem g {byte = byte} c b o (take now bytes) m small w.cached w.index room
          (omega (arith, n)) (omega (arith, n)) (omega (arith, n)) (rw n stop) in
      let (c2, done', rest) = ih c1 s in
      (
        c2,
        write_blocks-next fuel c c1 b o _ now bytes (omega arith) e done done',
        Written-Stored k b o now bytes p le short w s rest,
      )

  write_blocks_lem :
      (fuel k : ℕ) (c : Cache) (b o p : ℕ) (bytes : List ℕ)
      → o < cache_block_size
      → length bytes ≤ fuel
      → o + length bytes ≤ k * cache_block_size
      → (p ≡ b * cache_block_size + o) ⊎ (length bytes ≡ 0)
      → p + length bytes ≤ size
      → Writable c size
      → c.file.size + k * cache_block_size ≤ c.file.room
      → Stops c size (p + length bytes)
      → Outcome size byte c k p bytes (write_blocks g size fuel c b o p bytes)
  unfolding write_blocks
  write_blocks_lem zero k c b o p bytes lt enough rounds at inside w room stop =
      (c, ground arith, Written-nil c k p bytes (omega arith) w)
  write_blocks_lem (suc fuel) k c b o p bytes lt enough rounds at inside w room stop =
      elim (Bool-cases (length bytes == 0)) [
        | inl done ↦ (c, rw (done, write_blocks) refl, Written-nil c k p bytes (ground arith) w)
        | inr more ↦
            let some_bytes : 0 < length bytes = ground arith in
            let e : p ≡ b * cache_block_size + o = first at some_bytes in
            let e' : (length (drop (cache_block_size - o) bytes))
                ≡ length bytes - (cache_block_size - o) =
              length-drop (cache_block_size - o) bytes in
            rw e (elim (Bool-cases (ltb cache_block_size (add64 o (length bytes)))) [
              | inl beyond ↦
                  let long : cache_block_size - o < length bytes =
                    omega (tests, small, e, ltb→lt _ _ beyond) in
                  write_blocks-suc fuel k c b o (cache_block_size - o) bytes (omega arith)
                    (rw beyond refl) (omega arith) (omega arith) (omega arith) (omega (arith, e)) w
                    (omega arith) (inr (inl (omega arith)))
                    (λ c1 s.
                      write_blocks_lem fuel (k - 1) c1 (b + 1) 0
                        (b * cache_block_size + o + (cache_block_size - o))
                        (drop (cache_block_size - o) bytes) (omega arith) (omega (arith, e'))
                        (omega (arith, e')) (inl (omega arith)) (omega (arith, e, e'))
                        (Stored-Writable s w (omega arith)) (omega (arith, s.bounded, s.same_room))
                        (Stops-Stored b o _ (p + length bytes) _ (omega (arith, e, e')) s stop))
              | inr within ↦
                  let e'' : length (drop (length bytes) bytes) ≡ 0 =
                    omega (arith, length-drop (length bytes) bytes) in
                  write_blocks-suc fuel k c b o (length bytes) bytes (omega arith) (rw within refl)
                    some_bytes (omega arith) (omega (tests, small, e, ltb→le _ _ within))
                    (omega (arith, e)) w (omega arith)
                    (round-Stops c b o (length bytes) some_bytes
                      (omega (tests, small, e, ltb→le _ _ within)) (rw e at stop))
                    (λ c1 s.
                      write_blocks_lem fuel (k - 1) c1 (b + 1) 0
                        (b * cache_block_size + o + length bytes) (drop (length bytes) bytes)
                        (omega arith) (omega (arith, e'')) (omega (arith, e'')) (inr e'')
                        (omega (arith, e, e'')) (Stored-Writable s w (omega arith))
                        (omega (arith, s.bounded, s.same_room))
                        (Stops-Stored b o _ (p + length bytes) _ (omega (arith, e, e'')) s stop))
            ])
      ]
    where
      first :
          (p ≡ b * cache_block_size + o) ⊎ (length bytes ≡ 0)
          → 0 < length bytes
          → p ≡ b * cache_block_size + o
      first (inl e) some_bytes = e
      first (inr none) some_bytes = absurd (omega arith)

  -- Over a morphed image of less than 2 ^ 51 bytes and a writable cache with room for the blocks that
  -- are touched, the loop succeeds for a stretch inside the image that ends before the end of the
  -- image, at the end of a block, or in a cached block. Then the image is the former one with the
  -- bytes at their place; the cache is writable, and loadable if it was; its header, the length of its index and every
  -- reserved stretch are as before.
  pub write_image_lem :
      (k : ℕ) (c : Cache) (p : ℕ) (bytes : List ℕ)
      → p % cache_block_size + length bytes ≤ k * cache_block_size
      → p + length bytes ≤ size
      → Writable c size
      → c.file.size + k * cache_block_size ≤ c.file.room
      → Stops c size (p + length bytes)
      → Outcome size byte c k p bytes (write_image g size c p bytes)
  unfolding write_image
  write_image_lem k c p bytes rounds inside w room stop =
      let (e, lt) = block_bounds p cache_block_size (omega arith) in
      write_blocks_lem (length bytes) k c (p / cache_block_size) (p % cache_block_size) p bytes lt
        (omega arith) rounds (inl (sym e)) inside w room stop
