-- ===== src/VirtImage/Set/Parts.antt =====
-- A write into an image and a header or footer, by its two parts.
use xmount.Base.{
  ℕ, ◌+◌, ◌-◌, ◌≤◌, ◌<◌, ◌≡◌, ap, sym, ◌∙◌, inl, inr, some, List, arith, Bool-cases, min, joined,
  joined-lt, joined-le,
}
use xmount.Base.{
  length, get_or, take, drop, length-take, length-drop, get_or-take, get_or-drop, ◌==◌, ltb, ltb→lt,
  ltb→le,
}
use xmount.VirtImage.State.{Cache, CacheFileHeader}
use xmount.VirtImage.Get.Content.{header_byte}
use xmount.VirtImage.Set.Patch.{patched, patched-inside, patched-outside, patched_cases}
use xmount.VirtImage.Set.Invariant.{Reserved}
use xmount.VirtImage.Set.Written.{Written}
use xmount.VirtImage.Set.Header.Write.{header_byte-cached, header_byte-uncached}

-- The first `now` bytes go to `o` in the first array, and the others into the second one.
pub joined-patched :
    (size o now rest : ℕ) (bytes : List ℕ) (f f' t t' : ℕ → ℕ)
    → now ≡ min (length bytes) (size - o)
    → o + length bytes ≤ size + rest
    → ((q : ℕ) → q < size → f' q ≡ patched o (take now bytes) f q)
    → ((i : ℕ) → i < rest → t' i ≡ patched (o + now - size) (drop now bytes) t i)
    → (q : ℕ) → q < size + rest
    → joined size f' t' q ≡ patched o bytes (joined size f t) q
joined-patched size o now rest bytes f f' t t' e le h h' q lt = elim (Bool-cases (ltb q size)) [
  | inl front ↦
      joined-lt size f' t' q (ltb→lt _ _ front)
      ∙ h q (ltb→lt _ _ front)
      ∙ elim (patched_cases o (length bytes) q) [
        | inl (i, at, inside) ↦
            patched-inside o (take now bytes) f q i at
              (omega (arith, length-take now bytes, ltb→lt _ _ front))
            ∙ get_or-take now bytes i 0 (omega (arith, ltb→lt _ _ front))
            ∙ sym (patched-inside o bytes (joined size f t) q i at inside)
        | inr out ↦
            patched-outside o (take now bytes) f q (grind (arith, length-take now bytes))
            ∙ sym (joined-lt size f t q (ltb→lt _ _ front))
            ∙ sym (patched-outside o bytes (joined size f t) q out)
      ]
  | inr back ↦
      let k : ℕ = q - size in
      let at_k : q ≡ size + k = omega (arith, ltb→le _ _ back) in
      joined-le size f' t' q k at_k
      ∙ h' k (omega (arith, at_k))
      ∙ elim (patched_cases o (length bytes) q) [
        | inl (i, at, inside) ↦
            patched-inside (o + now - size) (drop now bytes) t k (i - now) (omega (arith, at_k))
              (omega (arith, length-drop now bytes, at_k))
            ∙ get_or-drop now bytes (i - now) 0
            ∙ ap (λ j. get_or bytes j 0) (omega (arith, at_k))
            ∙ sym (patched-inside o bytes (joined size f t) q i at inside)
        | inr out ↦
            patched-outside (o + now - size) (drop now bytes) t k
              (grind (arith, length-drop now bytes, at_k))
            ∙ sym (joined-le size f t q k at_k)
            ∙ sym (patched-outside o bytes (joined size f t) q out)
      ]
]

-- The header or footer after the image was written.
pub header_byte-Written :
    {c c' : Cache} {size : ℕ} {byte : ℕ → ℕ} {rounds p : ℕ} {bytes : List ℕ}
    (cached pos : CacheFileHeader → ℕ) (old : List ℕ) (i : ℕ)
    → Written c c' size byte rounds p bytes
    → (cached c.header ≡ 1 → Reserved c (pos c.header) (length old))
    → i < length old
    → header_byte (some c') cached pos old i ≡ header_byte (some c) cached pos old i
header_byte-Written {c} {c'} cached pos old i w r lt = elim (Bool-cases (cached c.header == 1)) [
  | inl here ↦
      header_byte-cached c' cached pos old i (rw w.same_header here)
      ∙ ap (λ h. c'.file.byte (pos h + i)) w.same_header
      ∙ (w.reserved (pos c.header) (length old) (r (ground arith))).1 i lt
      ∙ sym (header_byte-cached c cached pos old i here)
  | inr not_here ↦
      header_byte-uncached c' cached pos old i (rw w.same_header not_here)
      ∙ sym (header_byte-uncached c cached pos old i not_here)
]
