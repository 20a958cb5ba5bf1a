-- ===== src/Input/Qcow/Format.antt =====
-- Reads of a QCOW2 file, by what the format says of its tables.
use native.Mathlib.Nat.{div-div-eq-div-mul}
use xmount.Base.{
  ℕ, ◌+◌, ◌-◌, ◌*◌, ◌/◌, ◌%◌, ◌^◌, ◌≤◌, ◌<◌, ◌≡◌, refl, ap, ap₂, sym, ◌∙◌, ◌⊎◌, inl, inr, false,
  arith, ◌==◌, if◌then◌else◌, be_at, slice, slice_ext, length, get_or, leb, ok, err, block_bounds,
  Bool-cases, leb→le,
}
use xmount.Input.Qcow.{
  Qcow, read_beyond_end_of_image, Cluster, zeros, Inflate, padded, address_bits, locate, l1_offset,
  l2_offset, cluster_offset, qcow_read,
}
use xmount.Input.Qcow.Entry.{
  Means, pow_add, pow_positive, l2_entry_lem, address_bits_lem, cluster_of-Means,
}
use xmount.Input.Qcow.Read.{
  cluster_at, cluster_byte, qcow_image, Readable, IsQcow, qcow_read-qcow_image,
}

-- The entry of the L2 table at `address` means a cluster that can be read and whose byte `o` is `b`.
abbrev pub Holds : Inflate → Qcow → ℕ → ℕ → ℕ → ℕ → Type 0
Holds inflate q address j o b =
    (c : Cluster) × Means q.header.cluster_bits
      (be_at (slice (padded q.file) (address + j * 8) 8) 0 8) c
    × Readable inflate q c
    × (b ≡ cluster_byte inflate q c o)

-- The L1 table leads to an L2 table, whose address is in the bits from 9 to 55, or to none, which
-- stands for zeros.
pub record Reached (inflate : Inflate) (q : Qcow) (i j o b : ℕ) : Type 0 where
  pub listed : i < q.header.l1_size
  pub high : ℕ
  pub offset : ℕ
  pub low : ℕ
  pub parts : get_or q.l1_table i 0 ≡ high * 2 ^ 56 + offset * 2 ^ 9 + low
  pub offset_small : offset < 2 ^ 47
  pub low_small : low < 2 ^ 9
  pub cluster : ((offset ≡ 0) × (b ≡ 0)) ⊎ ((0 < offset) × Holds inflate q (offset * 2 ^ 9) j o b)

-- The file holds the image of these bytes, in clusters of 256 bytes to 8 GiB. An L2 table fills a
-- cluster with entries of 8 bytes, and the clusters of the image are numbered through the tables.
pub record IsImageOf (inflate : Inflate) (q : Qcow) (byte : ℕ → ℕ) : Type 0 where
  pub above : 8 ≤ q.header.cluster_bits
  pub below : q.header.cluster_bits < 34
  pub cluster : q.cluster_size ≡ 2 ^ q.header.cluster_bits
  pub bits : q.l2_bits ≡ q.header.cluster_bits - 3
  pub entries : q.l2_size * 8 ≡ q.cluster_size
  pub small : q.header.size < 2 ^ 63
  pub held : length q.l1_table ≡ q.header.l1_size
  pub reached :
      (i j o : ℕ)
      → j < q.l2_size
      → o < q.cluster_size
      → (i * q.l2_size + j) * q.cluster_size + o < q.header.size
      → Reached inflate q i j o (byte ((i * q.l2_size + j) * q.cluster_size + o))

module _ (inflate : Inflate) (q : Qcow) (byte : ℕ → ℕ) (d : IsImageOf inflate q byte) where
  without :
      (i j : ℕ)
      → address_bits (get_or q.l1_table i 0) ≡ 0
      → locate q (get_or q.l1_table i 0) j ≡ zeros
  unfolding locate
  without i j none = rw none refl

  found :
      (i j address : ℕ) (c : Cluster)
      → address_bits (get_or q.l1_table i 0) ≡ address
      → 0 < address
      → Means q.header.cluster_bits (be_at (slice (padded q.file) (address + j * 8) 8) 0 8) c
      → locate q (get_or q.l1_table i 0) j ≡ c
  unfolding locate
  found i j address c at p means =
      let test : (address == 0) ≡ false = ground arith in
      rw (at, test, l2_entry_lem q address j) (cluster_of-Means q d.above d.below _ c means)

  reached_lem :
      (i j o b : ℕ)
      → Reached inflate q i j o b
      → Readable inflate q (locate q (get_or q.l1_table i 0) j)
        × (cluster_byte inflate q (locate q (get_or q.l1_table i 0) j) o ≡ b)
  reached_lem i j o b r =
      let at =
        address_bits_lem r.high r.offset r.low (get_or q.l1_table i 0) r.parts r.offset_small
          r.low_small in
      elim r.cluster [
        | inl (none, e) ↦ rw (without i j (omega (arith, at, none))) (omega arith, sym e)
        | inr (p, (c, means, readable, e)) ↦
            rw (found i j (r.offset * 2 ^ 9) c at (omega (arith, p)) means) (readable, sym e)
      ]

  some_bytes : 0 < q.cluster_size
  some_bytes = omega (arith, d.cluster, pow_positive q.header.cluster_bits)

  some_entries : 0 < q.l2_size
  some_entries = omega (arith, d.entries, some_bytes)

  tables : q.l2_size ≡ 2 ^ q.l2_bits
  tables =
      let e : q.header.cluster_bits ≡ q.l2_bits + 3 = omega (arith, d.above, d.bits) in
      omega (arith, d.entries, d.cluster, ap (λ k. 2 ^ k) e ∙ pow_add q.l2_bits 3)

  both : 2 ^ (q.header.cluster_bits + q.l2_bits) ≡ q.cluster_size * q.l2_size
  both = pow_add q.header.cluster_bits q.l2_bits ∙ ap₂ (λ a b. a * b) (sym d.cluster) (sym tables)

  -- The tables are looked up where the cluster has its number.
  by_number :
      (p : ℕ)
      → p < q.header.size
      → Reached inflate q (l1_offset q p) (l2_offset q p) (cluster_offset q p) (byte p)
  unfolding l1_offset l2_offset cluster_offset
  by_number p lt =
      let (e, o_lt) = block_bounds p q.cluster_size some_bytes in
      let (e', j_lt) = block_bounds (p / q.cluster_size) q.l2_size some_entries in
      let whole : (p / q.cluster_size / q.l2_size * q.l2_size + p / q.cluster_size % q.l2_size)
              * q.cluster_size
            + p % q.cluster_size
          ≡ p =
        ap (λ k. k * q.cluster_size + p % q.cluster_size) e' ∙ e in
      let l1 : p / 2 ^ (q.header.cluster_bits + q.l2_bits) ≡ p / q.cluster_size / q.l2_size =
        ap (λ k. p / k) both ∙ sym (div-div-eq-div-mul p q.cluster_size q.l2_size) in
      rw (l1, sym d.cluster)
        (rw whole at (
          d.reached (p / q.cluster_size / q.l2_size) (p / q.cluster_size % q.l2_size)
            (p % q.cluster_size) j_lt o_lt (omega (arith, whole, lt))))

  found_lem :
      (p : ℕ)
      → p < q.header.size
      → Readable inflate q (cluster_at q p) × (qcow_image inflate q p ≡ byte p)
  unfolding qcow_image
  found_lem p lt =
      reached_lem (l1_offset q p) (l2_offset q p) (cluster_offset q p) (byte p) (by_number p lt)

  read : IsQcow inflate q
  read = record {
    bits = omega (arith, d.below, d.bits);
    clusters = d.cluster;
    some_bytes = some_bytes;
    tables = tables;
    both = both;
    small = d.small;
    held = d.held;
    covered = λ p lt. (by_number p lt).listed;
    readable = λ p lt. (found_lem p lt).0;
  }

  -- On a QCOW2 file that holds the image of some bytes, in clusters of 256 bytes to 8 GiB that are
  -- stored, compressed or without data, `QcowRead` of at least one byte and less than 2 ^ 32, whose
  -- end does not wrap, returns those bytes, or its error if the end is beyond that of the image.
  pub qcow_read_lem :
      (o n : ℕ)
      → 0 < n
      → n < 2 ^ 32
      → o + n < 2 ^ 64
      → qcow_read inflate q o n ≡ (
          if leb (o + n) q.header.size
          then ok (n, slice byte o n)
          else err read_beyond_end_of_image)
  qcow_read_lem o n p few short =
      qcow_read-qcow_image inflate q read o n p few short
      ∙ elim (Bool-cases (leb (o + n) q.header.size)) [
        | inl inside ↦ rw inside (
            ap (λ bytes. ok (n, bytes))
              (slice_ext (qcow_image inflate q) byte o o n
                (λ i lt. (found_lem (o + i) (omega (arith, leb→le _ _ inside))).1)))
        | inr beyond ↦ rw beyond refl
      ]
