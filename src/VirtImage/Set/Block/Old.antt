-- ===== src/VirtImage/Set/Block/Old.antt =====
-- The old data around the bytes that are written to a new block.
use xmount.Base.{
  ℕ, zero, suc, ◌+◌, ◌-◌, ◌^◌, ◌≤◌, ◌<◌, ◌≡◌, ◌≢◌, refl, ◌∙◌, List, [], ◌++◌, ok, arith, ◌⊎◌, inl,
  inr, true, false,
}
use mathlib.Core.List.{append-nil}
use native.Mathlib.Decide.{ℕ_discrete, dec_lt}
use xmount.Base.{
  length, get_or, length-append, get_or-append_left, ltb, ◌==◌, replicate, length-replicate, slice,
  length-slice, get_or-slice, sub64, add64,
}
use xmount.Stdio.{File}
use xmount.VirtImage.State.{XmountData, Cache, cache_block_size}
use xmount.VirtImage.Morphed.{IsMorphed, get_morphed_image_data-inside}
use xmount.VirtImage.Set.{read_old, prepend_old, append_old}
use xmount.VirtImage.Set.Append.{Extends, Extends-nil, write_file-Extends}

-- The bytes behind the written ones, from position `q` of the image to the end of the block.
pub record Behind (size : ℕ) (byte : ℕ → ℕ) (q rest : ℕ) (ys : List ℕ) : Type 0 where
  pub full : length ys ≡ rest
  pub old : (i : ℕ) → i < rest → q + i < size → get_or ys i 0 ≡ byte (q + i)

-- All of them lie in the image, or the image ends among them and zeros follow.
Behind-slice : (size : ℕ) (byte : ℕ → ℕ) (q rest : ℕ) → Behind size byte q rest (slice byte q rest)
Behind-slice size byte q rest = record {
  full = length-slice byte q rest;
  old = λ i lt inside. get_or-slice byte q rest i 0 lt;
}

Behind-zeros :
    (size : ℕ) (byte : ℕ → ℕ) (q rest left : ℕ)
    → q + left ≡ size
    → left ≤ rest
    → Behind size byte q rest (slice byte q left ++ replicate (rest - left) 0)
Behind-zeros size byte q rest left e le = record {
  full = omega (
    arith,
    length-append (slice byte q left) (replicate (rest - left) 0),
    length-slice byte q left,
    length-replicate {A = ℕ} (rest - left) 0,
  );
  old = λ i lt inside.
      get_or-append_left (slice byte q left) (replicate (rest - left) 0) i 0
        (omega (arith, length-slice byte q left))
      ∙ get_or-slice byte q left i 0 (omega arith);
}

module _ (g : XmountData) {size : ℕ} {byte : ℕ → ℕ} (m : IsMorphed g.morphing size byte)
    (small : size < 2 ^ 51) where
  read_old_lem :
      (c : Cache) (o n : ℕ) → 0 < n → o + n ≤ size → read_old g c o n ≡ ok (slice byte o n)
  unfolding read_old
  read_old_lem c o n p le =
      ground (arith, get_morphed_image_data-inside g o n m (omega arith) (omega arith) le)

  pub prepend_old_lem :
      (c : Cache) (o p : ℕ)
      → o ≤ p
      → p ≤ size
      → c.file.size + o ≤ c.file.room
      → (f : File) × (prepend_old g c c.file.size o p ≡ ok (record c { file = f }))
        × Extends c.file f (slice byte (p - o) o)
  unfolding prepend_old
  prepend_old_lem c zero p le inside room = (c.file, refl, unfold slice in Extends-nil c.file)
  prepend_old_lem c (suc o) p le inside room =
      let old = slice byte (p - suc o) (suc o) in
      let len : length old ≡ suc o = length-slice byte (p - suc o) (suc o) in
      let (f, w, e) =
        write_file-Extends c.file c [] old c.file.size (Extends-nil c.file) (omega arith)
          (omega (arith, len)) (omega (arith, len)) in
      (f, ground (arith, read_old_lem c (p - suc o) (suc o) (omega arith) (omega arith), w), e)

  -- How `append_old` succeeds: the file ends in data for the whole block.
  abbrev pub Completes : File → Cache → List ℕ → ℕ → ℕ → ℕ → Type 0
  Completes f c xs o p n =
      (ys : List ℕ) × (f' : File) × (append_old g size c f.size o p n ≡ ok (record c { file = f' }))
      × Extends f f' (xs ++ ys)
      × Behind size byte (p + n) (cache_block_size - (o + n)) ys

  module _ (f : File) (c : Cache) (xs : List ℕ) (o p n : ℕ) (e : Extends f c.file xs)
      (len : length xs ≡ o + n) (le : o ≤ p) (fits : o + n ≤ cache_block_size)
      (room : f.size + cache_block_size ≤ f.room) (below : f.room < 2 ^ 63) where
    append_full : o + n ≡ cache_block_size → Completes f c xs o p n
    unfolding append_old
    append_full full = (
      [],
      c.file,
      ground arith,
      rw append-nil e,
      record { full = omega arith; old = λ i lt inside. absurd (omega arith) },
    )

    append_ending :
        o + n ≢ cache_block_size
        → p + n < size
        → size < p - o + cache_block_size
        → Completes f c xs o p n
    unfolding append_old
    append_ending partial more ends =
        let rest : ℕ = cache_block_size - (o + n) in
        let left : ℕ = size - (p + n) in
        let b = Behind-zeros size byte (p + n) rest left (omega arith) (omega arith) in
        let ys = slice byte (p + n) left ++ replicate (rest - left) 0 in
        let (f', w, e') =
          write_file-Extends f c xs ys (f.size + o + n) e (omega arith) (omega (arith, b.full))
            (omega (arith, b.full)) in
        let left_lem : sub64 size (p + n) ≡ left = omega arith in
        let test : ltb size (add64 (p - o) cache_block_size) ≡ true = ground arith in
        let test' : (o + n == cache_block_size) ≡ false = ground arith in
        (
          ys,
          f',
          rw
              (
                test',
                append_old,
                test,
                left_lem,
                read_old_lem c (p + n) left (omega arith) (omega arith),
                w,
              )
              refl,
          e',
          b,
        )

    append_inside :
        o + n ≢ cache_block_size → p - o + cache_block_size ≤ size → Completes f c xs o p n
    unfolding append_old
    append_inside partial whole =
        let rest : ℕ = cache_block_size - (o + n) in
        let b = Behind-slice size byte (p + n) rest in
        let ys = slice byte (p + n) rest in
        let (f', w, e') =
          write_file-Extends f c xs ys (f.size + o + n) e (omega arith) (omega (arith, b.full))
            (omega (arith, b.full)) in
        let test : ltb size (add64 (p - o) cache_block_size) ≡ false = ground arith in
        let test' : (o + n == cache_block_size) ≡ false = ground arith in
        (
          ys,
          f',
          rw (test', append_old, test, read_old_lem c (p + n) rest (omega arith) (omega arith), w)
              refl,
          e',
          b,
        )

    -- The write does not stop just at the end of the image in the middle of the block.
    pub append_old_lem : (o + n ≡ cache_block_size) ⊎ (p + n < size) → Completes f c xs o p n
    append_old_lem (inl full) = append_full full
    append_old_lem (inr more) = elim (ℕ_discrete (o + n) cache_block_size) [
      | yes full ↦ append_full full
      | no partial ↦ elim (dec_lt size (p - o + cache_block_size)) [
        | yes ends ↦ append_ending partial more ends
        | no whole ↦ append_inside partial (omega arith)
      ]
    ]
