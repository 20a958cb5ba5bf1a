-- ===== src/VirtImage/Set/Written.antt =====
-- What the block loop is meant to do to the cache.
use native.Mathlib.Decide.{ℕ_discrete}
use xmount.Base.{
  ℕ, ◌+◌, ◌-◌, ◌*◌, ◌/◌, ◌%◌, ◌≤◌, ◌<◌, ◌≡◌, refl, sym, ◌∙◌, ◌⊎◌, inl, inr, some, List, arith,
}
use xmount.Base.{length, take, drop, length-take, ok}
use xmount.VirtImage.State.{Cache, cache_block_size}
use xmount.VirtImage.Get.Content.{image_byte}
use xmount.VirtImage.Set.{Step}
use xmount.VirtImage.CacheFile.Synced.{Loadable}
use xmount.VirtImage.Set.Patch.{patched, patched-outside, patched-patched, patched_ap}
use xmount.VirtImage.Set.Block.{Stored, entry}
use xmount.VirtImage.Set.Invariant.{Writable, Stored-Loadable, Reserved, Stored-Reserved}
use xmount.VirtImage.Set.Round.{Stored-image}

-- A write up to `end` has old data to put behind its last block, or needs none.
abbrev pub Stops : Cache → ℕ → ℕ → Type 0
Stops c size end =
    (end < size)
    ⊎ ((end % cache_block_size ≡ 0) ⊎ ((entry c (end / cache_block_size)).assigned ≡ 1))

-- The image of `c'` is that of `c` with `bytes` at `p`, no reserved stretch has changed, the file
-- has grown by at most one block in a round, and can be loaded if it could before.
pub record Written (c c' : Cache) (size : ℕ) (byte : ℕ → ℕ) (rounds p : ℕ) (bytes : List ℕ)
    : Type 0 where
  pub same_header : c'.header ≡ c.header
  pub same_index : length c'.blkidx ≡ length c.blkidx
  pub same_room : c'.file.room ≡ c.file.room
  pub bounded : c'.file.size ≤ c.file.size + rounds * cache_block_size
  pub writable : Writable c' size
  pub loadable : Loadable c → Loadable c'
  pub image :
      (q : ℕ)
      → q < size
      → image_byte (some c') byte q ≡ patched p bytes (image_byte (some c) byte) q
  pub reserved :
      (pos n : ℕ)
      → Reserved c pos n
      → Reserved c' pos n × ((i : ℕ) → i < n → c'.file.byte (pos + i) ≡ c.file.byte (pos + i))

pub Written-nil :
    (c : Cache) {size : ℕ} {byte : ℕ → ℕ} (rounds p : ℕ) (bytes : List ℕ)
    → length bytes ≡ 0
    → Writable c size
    → Written c c size byte rounds p bytes
Written-nil c {size} {byte} rounds p bytes none w = record {
  same_header = refl;
  same_index = refl;
  same_room = refl;
  bounded = omega arith;
  writable = w;
  loadable = λ l. l;
  image = λ q lt. sym (patched-outside p bytes (image_byte (some c) byte) q (grind (arith, none)));
  reserved = λ pos n r. (r, λ i lt. refl);
}

-- A round and the rounds behind it.
pub Written-Stored :
    {c c1 c2 : Cache} {size : ℕ} {byte : ℕ → ℕ} (rounds block o now : ℕ) (bytes : List ℕ)
    → 0 < rounds
    → now ≤ length bytes
    → o + now ≤ cache_block_size
    → Writable c size
    → Stored c c1 size byte block o (take now bytes)
    → Written c1 c2 size byte (rounds - 1) (block * cache_block_size + o + now) (drop now bytes)
    → Written c c2 size byte rounds (block * cache_block_size + o) bytes
Written-Stored {c} {c1} {c2} {size} {byte} rounds block o now bytes p le short w s rest = record {
  same_header = rest.same_header ∙ s.same_header;
  same_index = rest.same_index ∙ s.same_index;
  same_room = rest.same_room ∙ s.same_room;
  bounded = omega (arith, rest.bounded, s.bounded);
  writable = rest.writable;
  loadable = λ l. rest.loadable (Stored-Loadable s w l);
  image = λ q lt.
      rest.image q lt
      ∙ patched_ap (block * cache_block_size + o + now) (drop now bytes) _ _ q
          (Stored-image s (omega (arith, length-take now bytes)) q w lt)
      ∙ patched-patched (block * cache_block_size + o) now bytes (image_byte (some c) byte) q le;
  reserved = λ pos n r.
      let (r1, kept) = Stored-Reserved s pos n r in
      let (r2, kept') = rest.reserved pos n r1 in (r2, λ i lt. kept' i lt ∙ kept i lt);
}

pub Stops-Stored :
    {c c1 : Cache} {size : ℕ} {byte : ℕ → ℕ} (block o : ℕ) (bytes : List ℕ) (end end' : ℕ)
    → end ≡ end'
    → Stored c c1 size byte block o bytes
    → Stops c size end
    → Stops c1 size end'
Stops-Stored block o bytes end end' same s (inl lt) = inl (omega arith)
Stops-Stored block o bytes end end' same s (inr (inl e)) = inr (inl (rw same at e))
Stops-Stored block o bytes end end' same s (inr (inr here)) =
    rw (← same) (elim (ℕ_discrete (end / cache_block_size) block) [
      | yes e ↦ inr (inr (rw e s.assigned))
      | no ne ↦ inr (inr (rw (s.others _ ne) here))
    ])

abbrev pub Outcome : ℕ → (ℕ → ℕ) → Cache → ℕ → ℕ → List ℕ → Step → Type 0
Outcome size byte c rounds p bytes result =
    (c' : Cache) × (result ≡ ok c') × Written c c' size byte rounds p bytes
