-- ===== src/Morphing/Raid/Capacity.antt =====
-- How many chunks `RaidMorph` counts.
use native.Mathlib.Nat.{
  div-eq_of_lt, le-div_iff_mul-le, div-mul-le_self, mul-le-mul_right, le_trans,
}
use xmount.Base.{ℕ, suc, ◌+◌, ◌/◌, ◌≤◌, ◌<◌, ◌≡◌, refl, ◌∙◌, ok, some, ◌⊎◌, inl, inr}
use xmount.Base.{List, [], ◌∷◌, arith, length}
use xmount.Morphing.Images.{InputFunctions, Image, ServesFrom}
use xmount.Morphing.Raid.{count_chunks, fewer_chunks}
use xmount.Morphing.Raid.Content.{image_at, Hold}

-- Every image holds at least one chunk.
abbrev pub Usable : ℕ → List Image → Type 0
Usable c imgs = Hold imgs c 1

-- The number is what some image holds.
abbrev pub Attained : ℕ → List Image → ℕ → Type 0
Attained c imgs chunks = (k : ℕ) × (k < length imgs) × (chunks ≡ (image_at imgs k).size / c)

pub record Fewest (c : ℕ) (imgs : List Image) (so_far chunks : ℕ) : Type 0 where
  pub at_most : chunks ≤ so_far
  pub pos : 1 ≤ chunks
  pub held : Hold imgs c chunks
  pub attained : (chunks ≡ so_far) ⊎ Attained c imgs chunks

Hold-mono : (c : ℕ) {a b : ℕ} (imgs : List Image) → a ≤ b → Hold imgs c b → Hold imgs c a
Hold-mono c [] le h = omega arith
Hold-mono c (m ∷ ms) le h = (le_trans (mul-le-mul_right c le) h.0, Hold-mono c ms le h.1)

fewer_chunks-lem :
    (a b : ℕ)
    → 1 ≤ a
    → 1 ≤ b
    → (1 ≤ fewer_chunks a b)
      × (fewer_chunks a b ≤ a)
      × (fewer_chunks a b ≤ b)
      × ((fewer_chunks a b ≡ a) ⊎ (fewer_chunks a b ≡ b))
unfolding fewer_chunks
fewer_chunks-lem a b ha hb = ground arith

Fewest-cons :
    (c : ℕ) (m : Image) (ms : List Image) (so_far chunks : ℕ)
    → 1 ≤ so_far
    → 1 ≤ m.size / c
    → Fewest c ms (fewer_chunks so_far (m.size / c)) chunks
    → Fewest c (m ∷ ms) so_far chunks
Fewest-cons c m ms so_far chunks p q f =
    let l = fewer_chunks-lem so_far (m.size / c) p q in
    record {
      at_most = omega (arith, f.at_most, l);
      pos = f.pos;
      held = (
        le_trans (mul-le-mul_right c (omega (arith, f.at_most, l))) (div-mul-le_self m.size c),
        f.held,
      );
      attained = elim f.attained [
        | inl e ↦ elim l.3 [ inl e' ↦ inl (e ∙ e') | inr e' ↦ inr (0, omega arith, e ∙ e') ]
        | inr (k, lt, e) ↦ inr (suc k, omega arith, e)
      ];
    }

pub count_chunks-Fewest :
    (io : InputFunctions) (c i so_far : ℕ) (imgs : List Image)
    → ServesFrom io i imgs
    → 0 < c
    → 1 ≤ so_far
    → Usable c imgs
    → (chunks : ℕ) × (count_chunks io c (length imgs) i so_far ≡ ok chunks)
      × Fewest c imgs so_far chunks
unfolding count_chunks
count_chunks-Fewest io c i so_far [] s pos set usable = (
  so_far,
  refl,
  record { at_most = omega arith; pos = set; held = omega arith; attained = inl refl },
)
count_chunks-Fewest io c i so_far (m ∷ ms) s pos set usable =
    let one : 1 ≤ m.size / c = (le-div_iff_mul-le pos).1 usable.0 in
    let l = fewer_chunks-lem so_far (m.size / c) set one in
    let (chunks, e, f) =
      count_chunks-Fewest io c (i + 1) (fewer_chunks so_far (m.size / c)) ms s.2 pos l.0 usable.1 in
    (chunks, rw (s.0, count_chunks) e, Fewest-cons c m ms so_far chunks set one f)

-- The count of a fresh handle, where 0 is no number yet.
pub count_chunks_fresh :
    (io : InputFunctions) (c : ℕ) (m : Image) (ms : List Image)
    → ServesFrom io 0 (m ∷ ms)
    → 0 < c
    → Usable c (m ∷ ms)
    → (chunks : ℕ) × (count_chunks io c (suc (length ms)) 0 0 ≡ ok chunks)
      × (1 ≤ chunks)
      × Hold (m ∷ ms) c chunks
      × Attained c (m ∷ ms) chunks
unfolding count_chunks fewer_chunks
count_chunks_fresh io c m ms s pos usable =
    let one : 1 ≤ m.size / c = (le-div_iff_mul-le pos).1 usable.0 in
    let (chunks, e, f) = count_chunks-Fewest io c 1 (m.size / c) ms s.2 pos one usable.1 in
    (
      chunks,
      ground (arith, s.0, e),
      f.pos,
      (le_trans (mul-le-mul_right c f.at_most) (div-mul-le_self m.size c), f.held),
      elim f.attained [
        | inl e' ↦ (0, omega arith, e')
        | inr (k, lt, e') ↦ (suc k, omega arith, e')
      ],
    )

-- An image too small for a chunk is passed over at the front of the list.
pub count_chunks_too_small :
    (io : InputFunctions) (c n i : ℕ) (m : Image)
    → io.size i ≡ some m.size
    → m.size < c
    → count_chunks io c (suc n) i 0 ≡ count_chunks io c n (i + 1) 0
unfolding count_chunks fewer_chunks
count_chunks_too_small io c n i m s small = ground (arith, s, div-eq_of_lt small)

pub count_chunks_one :
    (io : InputFunctions) (c i z : ℕ) → io.size i ≡ some z → count_chunks io c 1 i 0 ≡ ok (z / c)
unfolding count_chunks fewer_chunks
count_chunks_one io c i z s = ground (arith, s)
