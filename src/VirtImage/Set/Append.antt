-- ===== src/VirtImage/Set/Append.antt =====
-- Writes at the end of the cache file.
use Prim.Native.Nat.{max}
use xmount.Base.{ℕ, ◌+◌, ◌-◌, ◌≤◌, ◌<◌, ◌≡◌, refl, ap, sym, ◌∙◌, some, List, [], ◌++◌, ok, arith}
use xmount.Base.{
  length, get_or, length-append, get_or-append_left, get_or-append_right, Bool-cases, ltb, ltb→lt,
  ltb→le, inl, inr,
}
use xmount.Stdio.{File, fwrite, fwrite-some, overwrite, overwrite-inside, overwrite-below}
use xmount.VirtImage.State.{Cache}
use xmount.VirtImage.Set.{write_file}

-- `f'` is `f` with `xs` behind it.
pub record Extends (f f' : File) (xs : List ℕ) : Type 0 where
  pub grown : f'.size ≡ f.size + length xs
  pub room_kept : f'.room ≡ f.room
  pub kept : (i : ℕ) → i < f.size → f'.byte i ≡ f.byte i
  pub added : (i : ℕ) → i < length xs → f'.byte (f.size + i) ≡ get_or xs i 0

pub Extends-nil : (f : File) → Extends f f []
Extends-nil f = record {
  grown = omega arith;
  room_kept = refl;
  kept = λ i lt. refl;
  added = λ i lt. absurd (omega arith);
}

pub Extends-write :
    (f f' : File) (xs ys : List ℕ) (pos : ℕ)
    → Extends f f' xs
    → pos ≡ f.size + length xs
    → 0 < length ys
    → f.size + length xs + length ys ≤ f.room
    → (f'' : File) × (fwrite f' pos ys ≡ some f'') × Extends f f'' (xs ++ ys)
Extends-write f f' xs ys pos e at p fits = (
  record f' { size = max f'.size (pos + length ys); byte = overwrite f' pos ys },
  fwrite-some f' pos ys p (omega (arith, e.room_kept)),
  record {
    grown = omega (arith, e.grown, length-append xs ys);
    room_kept = e.room_kept;
    kept = λ i lt. overwrite-below f' pos ys i (omega arith) (omega (arith, e.grown)) ∙ e.kept i lt;
    added = λ i lt. elim (Bool-cases (ltb i (length xs))) [
      | inl old ↦
          let lt' = ltb→lt _ _ old in
          overwrite-below f' pos ys (f.size + i) (omega arith) (omega (arith, e.grown))
          ∙ e.added i lt'
          ∙ sym (get_or-append_left xs ys i 0 lt')
      | inr new ↦
          let j : ℕ = i - length xs in
          let le = ltb→le _ _ new in
          let here : f.size + i ≡ pos + j = omega arith in
          let there : i ≡ length xs + j = omega arith in
          ap (overwrite f' pos ys) here
          ∙ overwrite-inside f' pos ys j (omega (arith, length-append xs ys))
          ∙ sym (ap (λ k. get_or (xs ++ ys) k 0) there ∙ get_or-append_right xs ys j 0)
    ];
  },
)

-- The same through `write_file`.
pub write_file-Extends :
    (f : File) (c : Cache) (xs ys : List ℕ) (pos : ℕ)
    → Extends f c.file xs
    → pos ≡ f.size + length xs
    → 0 < length ys
    → f.size + length xs + length ys ≤ f.room
    → (f' : File) × (write_file c pos ys ≡ ok (record c { file = f' })) × Extends f f' (xs ++ ys)
unfolding write_file
write_file-Extends f c xs ys pos e at p fits =
    let (f', w, e') = Extends-write f c.file xs ys pos e at p fits in
    (f', rw (w, write_file) refl, e')
