-- ===== src/Input/Qcow/Returns.antt =====
-- Reads of a QCOW2 file that was opened end.
use xmount.Base.{
  ℕ, suc, ◌+◌, ◌-◌, ◌*◌, ◌^◌, ◌≤◌, ◌<◌, ◌≡◌, ◌≢◌, refl, ap, sym, ◌∙◌, false, ◌⊎◌, inl, inr, Option,
  Option-cases, List, [], ◌∷◌, arith, min, zero, drop,
}
use xmount.Base.{
  ltb, leb, leb→lt, add64, u32, sub32, ok, err, fault, Bool-cases, length, get_or,
  get_elem?-eq-get_or, ok-returns, err-returns, bind-returns, block_bounds, slice,
}
use xmount.Stdio.{File}
use xmount.Input.Qcow.Entry.{pow_positive}
use xmount.Input.ReadLoop.{read_loop, read_loop-returns}
use xmount.Input.Qcow.{
  Qcow, QcowError, Cluster, zeros, stored, compressed, Inflate, bad_l1_offset,
  read_beyond_end_of_image, seek_and_read, read_cluster, qcow_read0, qcow_read, qcow_open,
  open_qcow_file, check_qcow_header, sized_qcow, parse_table, l1_offset, cluster_offset, locate,
  l2_offset, padded,
}

length-parse_table : (n : ℕ) (buf : List ℕ) → length (parse_table n buf) ≡ n
unfolding parse_table
length-parse_table zero buf = refl
length-parse_table (suc n) buf = ap suc (length-parse_table n (drop 8 buf))

-- What `QcowOpen` has made sure of.
pub record Opened (q : Qcow) : Type 0 where
  pub held : length q.l1_table ≡ q.header.l1_size
  pub sized : q.cluster_size ≡ 2 ^ q.header.cluster_bits
  pub bits : q.l2_bits ≡ sub32 q.header.cluster_bits 3

open_qcow_file-Opened : (f : File) (q : Qcow) → open_qcow_file f ≡ ok q → Opened q
unfolding open_qcow_file seek_and_read check_qcow_header sized_qcow
open_qcow_file-Opened f q e = record {
  held = ground (
    arith,
    e,
    length-parse_table q.header.l1_size
        (slice (padded f) q.header.l1_table_offset (q.header.l1_size * 8)),
  );
  sized = ground (arith, e);
  bits = ground (arith, e);
}

read_cluster-some :
    (inflate : Inflate) (q : Qcow) (c : Cluster) (o n m : ℕ) (bytes : List ℕ)
    → read_cluster inflate q c o n ≡ ok (m, bytes)
    → m ≡ n
unfolding read_cluster seek_and_read
read_cluster-some inflate q zeros o n m bytes e = ground (arith, e)
read_cluster-some inflate q (stored base) o n m bytes e = ground (arith, e)
read_cluster-some inflate q (compressed base size) o n m bytes e = ground (arith, e)

read_cluster-returns :
    (inflate : Inflate) (q : Qcow) (c : Cluster) (o n : ℕ)
    → 8 ≤ q.header.cluster_bits
    → read_cluster inflate q c o n ≢ fault
unfolding read_cluster seek_and_read
read_cluster-returns inflate q zeros o n above e = absurd (ground (arith, e))
read_cluster-returns inflate q (stored base) o n above e = absurd (ground (arith, e))
read_cluster-returns inflate q (compressed base size) o n above e =
    absurd (ground (arith, above, e))

module _ (inflate : Inflate) (q : Qcow) (d : Opened q)
    (shift : q.header.cluster_bits + q.l2_bits < 64) (above : 8 ≤ q.header.cluster_bits) where
  -- How a part is read.
  qcow_read0_cases :
      (seek n : ℕ)
      → ((x : QcowError) × (qcow_read0 inflate q seek n ≡ err x))
        ⊎ ((c : Cluster) × (qcow_read0 inflate q seek n
              ≡ read_cluster inflate q c
                  (cluster_offset q seek)
                  (min n (q.cluster_size - cluster_offset q seek))))
  unfolding qcow_read0
  qcow_read0_cases seek n =
      let defined : leb 64 (q.header.cluster_bits + q.l2_bits) ≡ false = ground (arith, shift) in
      elim (Bool-cases (leb q.header.l1_size (l1_offset q seek))) [
        | inl beyond ↦ inl (bad_l1_offset, rw (defined, qcow_read0, beyond) refl)
        | inr inside ↦
            let found =
              get_elem?-eq-get_or q.l1_table (l1_offset q seek) 0
                (omega (arith, d.held, leb→lt _ _ inside)) in
            inr (
              locate q (get_or q.l1_table (l1_offset q seek) 0) (l2_offset q seek),
              rw (defined, qcow_read0, inside, found) refl,
            )
      ]

  qcow_read0-returns : (seek n : ℕ) → qcow_read0 inflate q seek n ≢ fault
  qcow_read0-returns seek n = elim (qcow_read0_cases seek n) [
    | inl (x, e) ↦ err-returns _ x e
    | inr (c, e) ↦ rw e (read_cluster-returns inflate q c _ _ above)
  ]

  qcow_read0-some :
      (seek n m : ℕ) (bytes : List ℕ)
      → qcow_read0 inflate q seek n ≡ ok (m, bytes)
      → (m ≤ n) × (0 < n → 0 < m)
  unfolding cluster_offset
  qcow_read0-some seek n m bytes h = elim (qcow_read0_cases seek n) [
    | inl (x, e) ↦ absurd (ground (arith, e, h))
    | inr (c, e) ↦
        let few = read_cluster-some inflate q c _ _ m bytes (sym e ∙ h) in
        let some_bytes : 0 < q.cluster_size =
          omega (arith, d.sized, pow_positive q.header.cluster_bits) in
        let lt = (block_bounds seek q.cluster_size some_bytes).1 in
        (omega (arith, few), λ p. omega (arith, few, lt))
  ]

  opened-returns : (seek count : ℕ) → qcow_read inflate q seek count ≢ fault
  unfolding qcow_read
  opened-returns seek count = elim (Bool-cases (ltb q.header.size (add64 seek count))) [
    | inl beyond ↦ rw (beyond, qcow_read) (err-returns (err read_beyond_end_of_image) _ refl)
    | inr inside ↦
        rw (inside, qcow_read)
          (bind-returns (read_loop (qcow_read0 inflate q) (suc (u32 count)) seek (u32 count))
            (λ bytes. ok (count, bytes))
            (read_loop-returns (qcow_read0 inflate q) (suc (u32 count)) seek (u32 count)
              qcow_read0-returns qcow_read0-some (omega arith) (omega arith))
            (λ bytes e. ok-returns (ok (count, bytes)) (count, bytes) refl))
  ]

qcow_open-Opened :
    (fopen : List ℕ → Option File) (names : List (List ℕ)) (q : Qcow)
    → qcow_open fopen names ≡ ok q
    → Opened q
unfolding qcow_open
qcow_open-Opened fopen [] q e = absurd (ground (arith, e))
qcow_open-Opened fopen (name ∷ names) q e = elim (Option-cases (fopen name)) [
  | inl missing ↦ absurd (ground (arith, e, missing))
  | inr (f, found) ↦ open_qcow_file-Opened f q (ground (arith, e, found))
]

-- `QcowRead` returns on every file that `QcowOpen` has opened with clusters of 2 ^ 8 bytes at
-- least and of less than 2 ^ 34, and for every request, whatever the tables of the file and zlib say.
pub qcow_read-returns :
    (inflate : Inflate) (fopen : List ℕ → Option File) (names : List (List ℕ)) (q : Qcow)
    (seek count : ℕ)
    → qcow_open fopen names ≡ ok q
    → 8 ≤ q.header.cluster_bits
    → q.header.cluster_bits < 34
    → qcow_read inflate q seek count ≢ fault
qcow_read-returns inflate fopen names q seek count e above below =
    let d = qcow_open-Opened fopen names q e in
    opened-returns inflate q d (omega (arith, d.bits)) above seek count
