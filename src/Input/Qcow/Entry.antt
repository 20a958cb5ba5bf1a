-- ===== src/Input/Qcow/Entry.antt =====
-- The entries of the tables of a QCOW2 file, by their parts.
use native.Mathlib.Nat.{pow-suc, pow-zero, mul_assoc, add-mul}
use xmount.Base.{
  ℕ, zero, suc, ◌+◌, ◌-◌, ◌*◌, ◌/◌, ◌%◌, ◌^◌, ◌≤◌, ◌<◌, ◌≡◌, ap, sym, ◌∙◌, ◌⊎◌, inl, inr, true,
  arith, ◌==◌, be_at, slice, block-div, block-mod, block_end,
}
use xmount.Input.Qcow.{
  Qcow, Cluster, zeros, stored, compressed, be_value, padded, address_bits, stored_at,
  compressed_at, cluster_of, l2_entry,
}

-- An entry of an L2 table, with clusters of 2 ^ `bits` bytes. In one of a cluster that is not
-- compressed, bit 62 is 0, the bits from 9 to 55 are the address, and bit 0 stands for zeros; in a
-- compressed one bit 62 is 1, the lower bits are the address, and those above them the number of
-- further sectors.
abbrev pub Means : ℕ → ℕ → Cluster → Type 0
Means bits entry zeros =
    (flag high offset low : ℕ) × (entry ≡ flag * 2 ^ 63 + high * 2 ^ 56 + offset * 2 ^ 9 + low)
    × (high < 2 ^ 6)
    × (offset < 2 ^ 47)
    × (low < 2 ^ 9)
    × ((low % 2 ≡ 1) ⊎ ((low % 2 ≡ 0) × (offset ≡ 0)))
Means bits entry (stored base) =
    (flag high offset low : ℕ) × (entry ≡ flag * 2 ^ 63 + high * 2 ^ 56 + offset * 2 ^ 9 + low)
    × (high < 2 ^ 6)
    × (offset < 2 ^ 47)
    × (low < 2 ^ 9)
    × (low % 2 ≡ 0)
    × (0 < offset)
    × (base ≡ offset * 2 ^ 9)
Means bits entry (compressed base size) =
    (flag sectors : ℕ) × (entry ≡ flag * 2 ^ 63 + 2 ^ 62 + sectors * 2 ^ (70 - bits) + base)
    × (base < 2 ^ (70 - bits))
    × (sectors < 2 ^ (bits - 8))
    × (size ≡ 512 * (sectors + 1))

pub pow_add : (a b : ℕ) → 2 ^ (a + b) ≡ 2 ^ a * 2 ^ b
pow_add a zero = let e : a + 0 ≡ a = omega arith in rw e (omega (arith, pow-zero 2))
pow_add a (suc b) =
    let e : a + suc b ≡ suc (a + b) = omega arith in
    rw e (
      pow-suc 2 (a + b)
      ∙ ap (λ k. k * 2) (pow_add a b)
      ∙ mul_assoc (2 ^ a) (2 ^ b) 2
      ∙ ap (λ k. 2 ^ a * k) (sym (pow-suc 2 b)))

pub pow_positive : (n : ℕ) → 0 < 2 ^ n
pow_positive zero = omega arith
pow_positive (suc n) = omega (arith, pow-suc 2 n, pow_positive n)

-- The entry in the file.
pub l2_entry_lem :
    (q : Qcow) (address offset : ℕ)
    → l2_entry q address offset ≡ be_at (slice (padded q.file) (address + offset * 8) 8) 0 8
unfolding l2_entry be_value slice
l2_entry_lem q address offset = omega arith

pub address_bits_lem :
    (high offset low n : ℕ)
    → n ≡ high * 2 ^ 56 + offset * 2 ^ 9 + low
    → offset < 2 ^ 47
    → low < 2 ^ 9
    → address_bits n ≡ offset * 2 ^ 9
unfolding address_bits
address_bits_lem high offset low n e lt lt' = omega arith

module _ (q : Qcow) (above : 8 ≤ q.header.cluster_bits) (below : q.header.cluster_bits < 34) where
  compressed_at_lem :
      (entry base top sectors : ℕ)
      → entry ≡ top * 2 ^ 62 + sectors * 2 ^ (70 - q.header.cluster_bits) + base
      → base < 2 ^ (70 - q.header.cluster_bits)
      → sectors < 2 ^ (q.header.cluster_bits - 8)
      → compressed_at q entry ≡ compressed base (512 * (sectors + 1))
  unfolding compressed_at
  compressed_at_lem entry base top sectors e lt lt' =
      let low : ℕ = 2 ^ (70 - q.header.cluster_bits) in
      let more : ℕ = 2 ^ (q.header.cluster_bits - 8) in
      let bits : 64 - 2 - (q.header.cluster_bits - 8) ≡ 70 - q.header.cluster_bits = omega arith in
      let exponent : 62 ≡ q.header.cluster_bits - 8 + (70 - q.header.cluster_bits) = omega arith in
      let both : 2 ^ 62 ≡ more * low =
        ap (λ k. 2 ^ k) exponent
        ∙ pow_add (q.header.cluster_bits - 8) (70 - q.header.cluster_bits) in
      let parts : entry ≡ (top * more + sectors) * low + base = omega (
        arith,
        e,
        ap (λ k. top * k) both,
        mul_assoc top more low,
        add-mul (top * more) sectors low,
      ) in
      let at : entry % low ≡ base =
        ap (λ k. k % low) parts ∙ block-mod (top * more + sectors) low base lt in
      let div : entry / low ≡ top * more + sectors =
        ap (λ k. k / low) parts ∙ block-div (top * more + sectors) low base lt in
      let count : (top * more + sectors) % more ≡ sectors = block-mod top more sectors lt' in
      rw (bits, at, div, count) (ap (λ k. compressed base (512 * k)) (omega arith))

  -- The code finds the cluster that the entry means.
  pub cluster_of-Means :
      (entry : ℕ) (c : Cluster) → Means q.header.cluster_bits entry c → cluster_of q entry ≡ c
  unfolding cluster_of stored_at
  cluster_of-Means entry zeros (flag, high, offset, low, e, lt, lt', lt'', inl odd) = ground arith
  cluster_of-Means entry zeros (flag, high, offset, low, e, lt, lt', lt'', inr (even, none)) =
      let at = address_bits_lem (flag * 2 ^ 7 + high) offset low entry (omega arith) lt' lt'' in
      ground (arith, at)
  cluster_of-Means entry (stored base) (flag, high, offset, low, e, lt, lt', lt'', even, p, b) =
      let at = address_bits_lem (flag * 2 ^ 7 + high) offset low entry (omega arith) lt' lt'' in
      ground (arith, at)
  cluster_of-Means entry (compressed base size) (flag, sectors, e, lt, lt', s) =
      let done = compressed_at_lem entry base (flag * 2 + 1) sectors (omega (arith, e)) lt lt' in
      let bit : (entry / 2 ^ 62 % 2 == 1) ≡ true = ground (arith, inside) in
      rw (bit, done) (ap (compressed base) (sym s))
    where
      inside : entry / 2 ^ 62 % 2 ≡ 1
      inside =
          let low : ℕ = 2 ^ (70 - q.header.cluster_bits) in
          let more : ℕ = 2 ^ (q.header.cluster_bits - 8) in
          let exponent : 62 ≡ q.header.cluster_bits - 8 + (70 - q.header.cluster_bits) =
            omega arith in
          let both : 2 ^ 62 ≡ more * low =
            ap (λ k. 2 ^ k) exponent
            ∙ pow_add (q.header.cluster_bits - 8) (70 - q.header.cluster_bits) in
          let fits : sectors * low + low ≤ more * low = block_end sectors more low lt' in
          omega (arith, e, fits, both, lt)
