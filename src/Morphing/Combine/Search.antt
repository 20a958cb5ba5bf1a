-- ===== src/Morphing/Combine/Search.antt =====
-- Where the search of `CombineRead` stops.
use xmount.Base.{ℕ, zero, suc, ◌+◌, ◌-◌, ◌≤◌, ◌<◌, ◌≡◌, refl, ap, ◌∙◌, Bool-cases, inl, inr}
use xmount.Base.{List, [], ◌∷◌, arith, leb, tests, leb→le, leb→lt, length, ok}
use xmount.Morphing.Images.{InputFunctions, Image, ServesFrom, total}
use xmount.Morphing.Combine.{search_image}
use xmount.Morphing.Combine.Content.{byte, byte-add}

-- The image `image` is `first`, and holds the byte that is `offset` bytes into `imgs`.
pub record Found (io : InputFunctions) (i : ℕ) (imgs : List Image) (offset : ℕ) : Type 0 where
  pub image : ℕ
  pub image_offset : ℕ
  pub first : Image
  pub rest : List Image
  pub serves : ServesFrom io image (first ∷ rest)
  pub back : image_offset ≤ offset
  pub inside : image_offset < first.size
  pub count : image + length (first ∷ rest) ≡ i + length imgs
  pub remaining : offset + total (first ∷ rest) ≡ image_offset + total imgs
  pub bytes : (p : ℕ) → byte imgs (offset + p) ≡ byte (first ∷ rest) (image_offset + p)

Found-cons :
    {io : InputFunctions} {i : ℕ} (m : Image) {ms : List Image} {offset : ℕ}
    → m.size ≤ offset
    → Found io (i + 1) ms (offset - m.size)
    → Found io i (m ∷ ms) offset
Found-cons m {ms} {offset} le f = record {
  image = f.image;
  image_offset = f.image_offset;
  first = f.first;
  rest = f.rest;
  serves = f.serves;
  back = omega (arith, f.back);
  inside = f.inside;
  count = omega (arith, f.count);
  remaining = omega (arith, f.remaining);
  bytes = λ p.
      let e : offset + p ≡ m.size + (offset - m.size + p) = omega arith in
      ap (byte (m ∷ ms)) e ∙ byte-add m ms (offset - m.size + p) ∙ f.bytes p;
}

-- With more fuel than images, the search finds the image of every offset inside.
pub search_image-Found :
    (io : InputFunctions) (fuel i : ℕ) (imgs : List Image) (offset : ℕ)
    → ServesFrom io i imgs
    → length imgs < fuel
    → offset < total imgs
    → (f : Found io i imgs offset) × (search_image io fuel i offset ≡ ok (f.image, f.image_offset))
unfolding search_image Found-cons
search_image-Found io zero i imgs offset s enough h = absurd (omega arith)
search_image-Found io (suc fuel) i [] offset s enough h = absurd (omega arith)
search_image-Found io (suc fuel) i (m ∷ ms) offset s enough h =
    elim (Bool-cases (leb m.size offset)) [
      | inl past ↦
          let (f, e) =
            search_image-Found io fuel (i + 1) ms (offset - m.size) s.2 (omega arith)
              (omega (tests, leb→le m.size offset past)) in
          (Found-cons m (leb→le _ _ past) f, rw (s.0, past, search_image) e)
      | inr here ↦ (
        record {
          image = i;
          image_offset = offset;
          first = m;
          rest = ms;
          serves = s;
          back = omega arith;
          inside = leb→lt _ _ here;
          count = refl;
          remaining = refl;
          bytes = λ p. refl;
        },
        rw (s.0, here, search_image),
      )
    ]
