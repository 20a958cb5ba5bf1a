-- ===== src/Input/Qcow/Read.antt =====
-- What reads of a QCOW2 file return.
use native.Mathlib.Nat.{div-div-eq-div-mul}
use xmount.Base.{
  ℕ, suc, ◌+◌, ◌-◌, ◌*◌, ◌/◌, ◌%◌, ◌^◌, ◌≤◌, ◌<◌, ◌≡◌, refl, ap, sym, ◌∙◌, true, false, inl, inr,
  Option, none, some, List, arith, min,
}
use xmount.Base.{
  ltb, leb, if◌then◌else◌, add64, u32, ok, err, Bool-cases, slice, slice_ext, slice-replicate,
  length, get_or, get_elem?, get_elem?-eq-get_or, block_bounds, block-div, block-mod,
  take-drop-eq-slice,
}
use xmount.Input.ReadLoop.{read_loop_lem}
use xmount.Input.Qcow.{
  Qcow, read_beyond_end_of_image, Cluster, zeros, stored, compressed, padded, seek_and_read,
  cluster_offset, l2_offset, l1_offset, locate, read_cluster, qcow_read0, qcow_read, Inflate,
}

-- The cluster that a byte of the image lies in.
abbrev pub cluster_at : Qcow → ℕ → Cluster
cluster_at q p = locate q (get_or q.l1_table (l1_offset q p) 0) (l2_offset q p)

abbrev pub out_byte : Option (List ℕ) → ℕ → ℕ
out_byte none o = 0
out_byte (some out) o = get_or out o 0

-- Byte `o` of a cluster.
abbrev pub cluster_byte : Inflate → Qcow → Cluster → ℕ → ℕ
cluster_byte inflate q zeros o = 0
cluster_byte inflate q (stored base) o = padded q.file (base + o)
cluster_byte inflate q (compressed base size) o =
    out_byte (inflate (slice (padded q.file) base size) q.cluster_size) o

unfoldable pub qcow_image : Inflate → Qcow → ℕ → ℕ
qcow_image inflate q p = cluster_byte inflate q (cluster_at q p) (cluster_offset q p)

-- A cluster can be read: its address is one that can be sought, and compressed data, which there is
-- only with clusters of 256 bytes and more, inflates to a whole cluster.
abbrev pub Readable : Inflate → Qcow → Cluster → Type 0
Readable inflate q zeros = 0 ≤ 0
Readable inflate q (stored base) = base + q.cluster_size < 2 ^ 63
Readable inflate q (compressed base size) =
    (base < 2 ^ 63)
    × (8 ≤ q.header.cluster_bits)
    × (out : List ℕ) × (inflate (slice (padded q.file) base size) q.cluster_size ≡ some out)
    × (length out ≡ q.cluster_size)

-- The sizes fit one another, and the tables lead to clusters for the whole image.
pub record IsQcow (inflate : Inflate) (q : Qcow) : Type 0 where
  pub bits : q.header.cluster_bits + q.l2_bits < 64
  pub clusters : q.cluster_size ≡ 2 ^ q.header.cluster_bits
  pub some_bytes : 0 < q.cluster_size
  pub tables : q.l2_size ≡ 2 ^ q.l2_bits
  pub both : 2 ^ (q.header.cluster_bits + q.l2_bits) ≡ q.cluster_size * q.l2_size
  pub small : q.header.size < 2 ^ 63
  pub held : length q.l1_table ≡ q.header.l1_size
  pub covered : (p : ℕ) → p < q.header.size → l1_offset q p < q.header.l1_size
  pub readable : (p : ℕ) → p < q.header.size → Readable inflate q (cluster_at q p)

module _ (inflate : Inflate) (q : Qcow) where
  read_cluster_lem :
      (c : Cluster) (o n : ℕ) (byte : ℕ → ℕ) (p : ℕ)
      → Readable inflate q c
      → o + n ≤ q.cluster_size
      → o < q.cluster_size
      → ((i : ℕ) → i < n → byte (p + i) ≡ cluster_byte inflate q c (o + i))
      → read_cluster inflate q c o n ≡ ok (n, slice byte p n)
  unfolding read_cluster seek_and_read
  read_cluster_lem zeros o n byte p r le lt h =
      ap (λ bytes. ok (n, bytes)) (sym (slice-replicate byte 0 p n h))
  read_cluster_lem (stored base) o n byte p r le lt h =
      let test : leb (2 ^ 63) (base + o) ≡ false = ground arith in
      rw (test, seek_and_read)
        (ap (λ bytes. ok (n, bytes))
          (sym (
            slice_ext byte (padded q.file) p (base + o) n
              (λ i i_lt. h i i_lt ∙ ap (padded q.file) (omega arith)))))
  read_cluster_lem (compressed base size) o n byte p (small, shift, out, done, full) le lt h =
      let defined : ltb q.header.cluster_bits 8 ≡ false = ground (arith, shift) in
      let test : leb (2 ^ 63) base ≡ false = ground arith in
      rw (defined, read_cluster, test, seek_and_read, done)
        (ap (λ bytes. ok (n, bytes))
          (take-drop-eq-slice out o n 0 (omega (arith, full))
            ∙ sym (
                slice_ext byte (λ i. get_or out i 0) p o n
                  (λ i i_lt. h i i_lt ∙ ap (λ x. out_byte x (o + i)) done))))

  qcow_read0-step :
      (seek n l1 o m entry : ℕ)
      → q.header.cluster_bits + q.l2_bits < 64
      → l1_offset q seek ≡ l1
      → l1 < q.header.l1_size
      → get_elem? q.l1_table l1 ≡ some entry
      → cluster_offset q seek ≡ o
      → min n (q.cluster_size - o) ≡ m
      → qcow_read0 inflate q seek n ≡ read_cluster inflate q (locate q entry (l2_offset q seek)) o m
  unfolding qcow_read0
  qcow_read0-step seek n l1 o m entry bits e lt found e' few =
      let shift : leb 64 (q.header.cluster_bits + q.l2_bits) ≡ false = ground arith in
      let inside : leb q.header.l1_size l1 ≡ false = ground arith in
      rw (shift, qcow_read0, e, inside, found, e', few) refl

  module _ (d : IsQcow inflate q) where
    -- The tables look at the number of the cluster alone.
    same_l1 : (p : ℕ) → l1_offset q p ≡ p / q.cluster_size / q.l2_size
    unfolding l1_offset
    same_l1 p = ap (λ k. p / k) d.both ∙ sym (div-div-eq-div-mul p q.cluster_size q.l2_size)

    same_l2 : (p : ℕ) → l2_offset q p ≡ p / q.cluster_size % q.l2_size
    unfolding l2_offset
    same_l2 p = ap (λ k. p / k % q.l2_size) (sym d.clusters)

    same_cluster :
        (p p' : ℕ) → p / q.cluster_size ≡ p' / q.cluster_size → cluster_at q p ≡ cluster_at q p'
    same_cluster p p' e = rw (same_l1 p, same_l1 p', same_l2 p, same_l2 p', e) refl

    qcow_read0_lem :
        (seek n : ℕ)
        → 0 < n
        → n < 2 ^ 32
        → seek + n ≤ q.header.size
        → (m : ℕ) × (0 < m)
          × (m ≤ n)
          × (qcow_read0 inflate q seek n ≡ ok (m, slice (qcow_image inflate q) seek m))
    unfolding cluster_offset qcow_image
    qcow_read0_lem seek n p few inside =
        let size = q.cluster_size in
        let block : ℕ = seek / size in
        let o : ℕ = seek % size in
        let (e, lt) = block_bounds seek size d.some_bytes in
        let m : ℕ = min n (size - o) in
        let here = d.covered seek (omega arith) in
        let found =
          get_elem?-eq-get_or q.l1_table (l1_offset q seek) 0 (omega (arith, here, d.held)) in
        (
          m,
          omega arith,
          omega arith,
          qcow_read0-step seek n (l1_offset q seek) o m (get_or q.l1_table (l1_offset q seek) 0)
                d.bits refl here found refl refl
              ∙ read_cluster_lem (cluster_at q seek) o m (qcow_image inflate q) seek
                  (d.readable seek (omega arith)) (omega arith) lt
                  (λ i i_lt.
                    let at : block * size + (o + i) ≡ seek + i = omega (arith, e) in
                    let div' : (seek + i) / size ≡ block =
                      ap (λ k. k / size) (sym at) ∙ block-div block size (o + i) (omega arith) in
                    let mod' : (seek + i) % size ≡ o + i =
                      ap (λ k. k % size) (sym at) ∙ block-mod block size (o + i) (omega arith) in
                    ap (λ c. cluster_byte inflate q c ((seek + i) % size))
                      (same_cluster (seek + i) seek div')
                    ∙ ap (cluster_byte inflate q (cluster_at q seek)) mod'),
        )

    -- On a QCOW2 file whose tables, as the code reads them, lead to readable clusters for the whole image, `QcowRead` of at
    -- least one byte and less than 2 ^ 32 returns the bytes of the clusters, zeros for those without
    -- data, or its error if the end of the request, which does not wrap, is beyond the end.
    pub qcow_read-qcow_image :
        (o n : ℕ)
        → 0 < n
        → n < 2 ^ 32
        → o + n < 2 ^ 64
        → qcow_read inflate q o n ≡ (
            if leb (o + n) q.header.size
            then ok (n, slice (qcow_image inflate q) o n)
            else err read_beyond_end_of_image)
    unfolding qcow_read
    qcow_read-qcow_image o n p few short = elim (Bool-cases (leb (o + n) q.header.size)) [
      | inl inside ↦
          let le : o + n ≤ q.header.size = ground arith in
          let test : ltb q.header.size (add64 o n) ≡ false = ground arith in
          let low : u32 n ≡ n = omega arith in
          let all =
            read_loop_lem (qcow_read0 inflate q) (qcow_image inflate q) (suc n) o n qcow_read0_lem
              (omega arith) p few d.small le in
          rw (inside, test, qcow_read, low, all) refl
      | inr beyond ↦
          let test : ltb q.header.size (add64 o n) ≡ true = ground arith in
          rw (beyond, test, qcow_read) refl
    ]
