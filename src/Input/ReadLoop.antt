-- ===== src/Input/ReadLoop.antt =====
-- The `do ... while` loop that the Read functions of the raw, vdi and qcow input libraries share,
-- over the function of the library that reads a part of what is asked for.
use xmount.Base.{
  ℕ, zero, suc, ◌+◌, ◌-◌, ◌^◌, ◌≤◌, ◌<◌, ◌≡◌, ◌≢◌, refl, ap, sym, ◌∙◌, true, false, inl, inr, List,
  ◌++◌, arith,
}
use xmount.Base.{
  ◌==◌, add64, sub32, slice, slice_add, Result, ok, fault, ◌>>=◌, ok-returns, bind-returns,
  Bool-cases,
}

module _ {E : Type 0} (read0 : ℕ → ℕ → Result E (ℕ × List ℕ)) where
  -- What follows a part of `to_read` bytes, given the later rounds.
  unfoldable pub go_on : (ℕ → ℕ → Result E (List ℕ)) → ℕ → ℕ → ℕ → List ℕ → Result E (List ℕ)
  go_on later seek remaining to_read bytes = elim (sub32 remaining to_read == 0) [
    | true ↦ ok bytes
    | false ↦ later (add64 seek to_read) (sub32 remaining to_read) >>= λ rest. ok (bytes ++ rest)
  ]

  -- A round reads a part, whose size `read0` stores in `to_read`. On fuel: a round reads at least
  -- one byte, but for a request of none, which takes one round.
  unfoldable pub read_loop : ℕ → ℕ → ℕ → Result E (List ℕ)
  read_loop zero seek remaining = fault
  read_loop (suc fuel) seek remaining = read0 seek remaining >>= λ (to_read, bytes).
      go_on (read_loop fuel) seek remaining to_read bytes

  -- A part inside the image can be read.
  abbrev pub Reads : ℕ → (ℕ → ℕ) → Type 0
  Reads size byte =
      (seek n : ℕ)
      → 0 < n
      → n < 2 ^ 32
      → seek + n ≤ size
      → (m : ℕ) × (0 < m) × (m ≤ n) × (read0 seek n ≡ ok (m, slice byte seek m))

  read_loop-suc :
      (fuel seek n m : ℕ) (bytes : List ℕ)
      → read0 seek n ≡ ok (m, bytes)
      → read_loop (suc fuel) seek n ≡ go_on (read_loop fuel) seek n m bytes
  unfolding read_loop
  read_loop-suc fuel seek n m bytes e = rw (e, read_loop) refl

  go_on-last :
      (later : ℕ → ℕ → Result E (List ℕ)) (seek n m : ℕ) (bytes : List ℕ)
      → sub32 n m ≡ 0
      → go_on later seek n m bytes ≡ ok bytes
  unfolding go_on
  go_on-last later seek n m bytes none = rw (none, go_on) refl

  go_on-more :
      (later : ℕ → ℕ → Result E (List ℕ)) (seek n m k p : ℕ) (bytes rest : List ℕ)
      → sub32 n m ≡ k
      → 0 < k
      → add64 seek m ≡ p
      → later p k ≡ ok rest
      → go_on later seek n m bytes ≡ ok (bytes ++ rest)
  unfolding go_on
  go_on-more later seek n m k p bytes rest left more next done =
      let more' : (k == 0) ≡ false = ground arith in rw (left, go_on, more', next, left, done) refl

  -- Where parts can be read, all of a request is.
  pub read_loop_lem :
      {size : ℕ} (byte : ℕ → ℕ) (fuel seek n : ℕ)
      → Reads size byte
      → n < fuel
      → 0 < n
      → n < 2 ^ 32
      → size < 2 ^ 63
      → seek + n ≤ size
      → read_loop fuel seek n ≡ ok (slice byte seek n)
  read_loop_lem byte zero seek n r enough some_bytes few small inside = absurd (omega arith)
  read_loop_lem {size} byte (suc fuel) seek n r enough some_bytes few small inside =
      let (m, p, le, e) = r seek n some_bytes few inside in
      elim (Bool-cases (n == m)) [
        | inl all ↦
            let same : n ≡ m = ground arith in
            read_loop-suc fuel seek n m (slice byte seek m) e
            ∙ go_on-last (read_loop fuel) seek n m (slice byte seek m) (omega arith)
            ∙ ap (λ k. ok (slice byte seek k)) (sym same)
        | inr part ↦
            let ne : n ≢ m = ground arith in
            let sum : m + (n - m) ≡ n = omega arith in
            read_loop-suc fuel seek n m (slice byte seek m) e
            ∙ go_on-more (read_loop fuel) seek n m (n - m) (seek + m) (slice byte seek m)
                (slice byte (seek + m) (n - m)) (omega arith) (omega arith) (omega arith)
                (read_loop_lem byte fuel (seek + m) (n - m) r (omega arith) (omega arith)
                  (omega arith) small (omega arith))
            ∙ ap ok (sym (slice_add byte seek m (n - m)) ∙ ap (slice byte seek) sum)
      ]

  go_on-returns :
      (later : ℕ → ℕ → Result E (List ℕ)) (seek n m : ℕ) (bytes : List ℕ)
      → (sub32 n m ≢ 0 → later (add64 seek m) (sub32 n m) ≢ fault)
      → go_on later seek n m bytes ≢ fault
  go_on-returns later seek n m bytes h = elim (Bool-cases (sub32 n m == 0)) [
    | inl done ↦ unfold go_on in rw (done, go_on) (ok-returns (ok bytes) bytes refl)
    | inr more ↦
        let ne : sub32 n m ≢ 0 = ground arith in
        unfold go_on in
        rw (more, go_on)
          (bind-returns (later (add64 seek m) (sub32 n m)) (λ rest. ok (bytes ++ rest)) (h ne)
            (λ rest e. ok-returns (ok (bytes ++ rest)) (bytes ++ rest) refl))
  ]

  -- Every request ends, where `read0` returns, and reads some of the bytes that it is asked for.
  pub read_loop-returns :
      (fuel seek n : ℕ)
      → ((seek n : ℕ) → read0 seek n ≢ fault)
      → ((seek n m : ℕ) (bytes : List ℕ) → read0 seek n ≡ ok (m, bytes) → (m ≤ n) × (0 < n → 0 < m))
      → n < fuel
      → n < 2 ^ 32
      → read_loop fuel seek n ≢ fault
  unfolding read_loop
  read_loop-returns zero seek n returns some_bytes enough few = absurd (omega arith)
  read_loop-returns (suc fuel) seek n returns some_bytes enough few =
      bind-returns (read0 seek n) (λ (m, bytes). go_on (read_loop fuel) seek n m bytes)
        (returns seek n)
        (λ (m, bytes) e.
          let (le, pos) = some_bytes seek n m bytes e in
          go_on-returns (read_loop fuel) seek n m bytes (λ ne.
            let left : sub32 n m ≡ n - m = omega arith in
            let p : 0 < m = pos (omega arith) in
            rw left (
              read_loop-returns fuel (add64 seek m) (n - m) returns some_bytes (omega arith)
                (omega arith))))
