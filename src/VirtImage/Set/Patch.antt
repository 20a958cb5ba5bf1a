-- ===== src/VirtImage/Set/Patch.antt =====
-- What a write is meant to do to an array of bytes.
use xmount.Base.{ℕ, ◌+◌, ◌-◌, ◌≤◌, ◌<◌, ◌≡◌, ap, sym, ◌∙◌, ◌⊎◌, inl, inr, List, arith, Bool-cases}
use xmount.Base.{
  ltb, leb, ltb→lt, ltb→le, ◌&&◌, if◌then◌else◌, length, get_or, take, drop, length-take,
  length-drop, get_or-take, get_or-drop,
}

-- `bytes` stand at `p`, all else is `f`.
unfoldable pub patched : ℕ → List ℕ → (ℕ → ℕ) → ℕ → ℕ
patched p bytes f q = if leb p q && ltb q (p + length bytes) then get_or bytes (q - p) 0 else f q

pub patched-inside :
    (p : ℕ) (bytes : List ℕ) (f : ℕ → ℕ) (q i : ℕ)
    → q ≡ p + i
    → i < length bytes
    → patched p bytes f q ≡ get_or bytes i 0
unfolding patched
patched-inside p bytes f q i e lt =
    let e' : q - p ≡ i = omega arith in ground (arith, ap (λ k. get_or bytes k 0) e')

pub patched-outside :
    (p : ℕ) (bytes : List ℕ) (f : ℕ → ℕ) (q : ℕ)
    → (q < p) ⊎ (p + length bytes ≤ q)
    → patched p bytes f q ≡ f q
unfolding patched
patched-outside p bytes f q out = ground arith

-- Where a position lies.
pub patched_cases : (p n q : ℕ) → ((i : ℕ) × (q ≡ p + i) × (i < n)) ⊎ ((q < p) ⊎ (p + n ≤ q))
patched_cases p n q = elim (Bool-cases (ltb q p)) [
  | inl before ↦ inr (inl (ltb→lt _ _ before))
  | inr from ↦ elim (Bool-cases (ltb q (p + n))) [
    | inl inside ↦
        inl
          (q - p, omega (arith, ltb→le _ _ from), omega (arith, ltb→le _ _ from, ltb→lt _ _ inside))
    | inr behind ↦ inr (inr (ltb→le _ _ behind))
  ]
]

-- Two writes in a row are one.
pub patched-patched :
    (p k : ℕ) (bytes : List ℕ) (f : ℕ → ℕ) (q : ℕ)
    → k ≤ length bytes
    → patched (p + k) (drop k bytes) (patched p (take k bytes) f) q ≡ patched p bytes f q
patched-patched p k bytes f q le = elim (patched_cases p (length bytes) q) [
  | inl (i, e, lt) ↦ elim (Bool-cases (ltb i k)) [
    | inl early ↦
        patched-outside (p + k) (drop k bytes) (patched p (take k bytes) f) q
          (inl (omega (arith, ltb→lt _ _ early)))
        ∙ patched-inside p (take k bytes) f q i e
            (omega (arith, length-take k bytes, ltb→lt _ _ early))
        ∙ get_or-take k bytes i 0 (ltb→lt _ _ early)
        ∙ sym (patched-inside p bytes f q i e lt)
    | inr late ↦
        patched-inside (p + k) (drop k bytes) (patched p (take k bytes) f) q (i - k)
          (omega (arith, ltb→le _ _ late)) (omega (arith, length-drop k bytes, ltb→le _ _ late))
        ∙ get_or-drop k bytes (i - k) 0
        ∙ ap (λ j. get_or bytes j 0) (omega (arith, ltb→le _ _ late))
        ∙ sym (patched-inside p bytes f q i e lt)
  ]
  | inr out ↦
      patched-outside (p + k) (drop k bytes) (patched p (take k bytes) f) q
        (grind (arith, length-drop k bytes))
      ∙ patched-outside p (take k bytes) f q (grind (arith, length-take k bytes))
      ∙ sym (patched-outside p bytes f q out)
]

pub patched_ap :
    (p : ℕ) (bytes : List ℕ) (f g : ℕ → ℕ) (q : ℕ)
    → f q ≡ g q
    → patched p bytes f q ≡ patched p bytes g q
patched_ap p bytes f g q e = elim (patched_cases p (length bytes) q) [
  | inl (i, at, lt) ↦ patched-inside p bytes f q i at lt ∙ sym (patched-inside p bytes g q i at lt)
  | inr out ↦ patched-outside p bytes f q out ∙ e ∙ sym (patched-outside p bytes g q out)
]
