-- ===== src/VirtImage/Set/Invariant.antt =====
-- The invariant of the cache under writes, and what a round does to the image.
use native.Mathlib.Decide.{ℕ_discrete}
use xmount.Base.{ℕ, ◌+◌, ◌≤◌, ◌<◌, ◌≡◌, ◌≢◌, sym, ◌∙◌, ◌⊎◌, inl, inr, List, arith}
use xmount.VirtImage.State.{Cache, cache_block_size}
use xmount.VirtImage.Get.Content.{IsCache}
use xmount.VirtImage.CacheFile.Synced.{Loadable}
use xmount.VirtImage.Set.Block.{Stored, entry, index_end}

-- The copies of the blocks lie behind the index, inside the file, and apart from one another.
pub record Writable (c : Cache) (size : ℕ) : Type 0 where
  pub cached : IsCache c size
  pub index : index_end c ≤ c.file.size
  pub above : (b : ℕ) → (entry c b).assigned ≡ 1 → index_end c ≤ (entry c b).off_data
  pub apart :
      (a b : ℕ)
      → a ≢ b
      → (entry c a).assigned ≡ 1
      → (entry c b).assigned ≡ 1
      → ((entry c a).off_data + cache_block_size ≤ (entry c b).off_data)
        ⊎ ((entry c b).off_data + cache_block_size ≤ (entry c a).off_data)

-- The `n` bytes at `pos` lie behind the index, inside the file, and apart from the blocks.
pub record Reserved (c : Cache) (pos n : ℕ) : Type 0 where
  pub above : index_end c ≤ pos
  pub inside : pos + n ≤ c.file.size
  pub apart :
      (b : ℕ)
      → (entry c b).assigned ≡ 1
      → (pos + n ≤ (entry c b).off_data) ⊎ ((entry c b).off_data + cache_block_size ≤ pos)

module _ {c c' : Cache} {size : ℕ} {byte : ℕ → ℕ} {block o : ℕ} {bytes : List ℕ}
    (s : Stored c c' size byte block o bytes) where
  -- A stretch that is apart from the block in `c` is apart from it in `c'`.
  off_apart :
      (pos n : ℕ)
      → pos + n ≤ c.file.size
      → ((entry c block).assigned ≡ 1
          → (pos + n ≤ (entry c block).off_data)
            ⊎ ((entry c block).off_data + cache_block_size ≤ pos))
      → (pos + n ≤ (entry c' block).off_data) ⊎ ((entry c' block).off_data + cache_block_size ≤ pos)
  off_apart pos n le apart = elim s.place [
    | inl (here, same) ↦ elim (apart here) [ inl a ↦ inl (omega arith) | inr a ↦ inr (omega arith) ]
    | inr new ↦ inl (omega arith)
  ]

  pub Stored-Reserved :
      (pos n : ℕ)
      → Reserved c pos n
      → Reserved c' pos n × ((i : ℕ) → i < n → c'.file.byte (pos + i) ≡ c.file.byte (pos + i))
  Stored-Reserved pos n r =
      let out = off_apart pos n r.inside (r.apart block) in
      (
        record {
          above = omega (arith, r.above, s.same_index);
          inside = omega (arith, r.inside, s.grown);
          apart = λ b here. elim (ℕ_discrete b block) [
            | yes e ↦ rw e out
            | no ne ↦ rw (s.others b ne) (r.apart b (rw (s.others b ne) at here))
          ];
        },
        λ i lt.
            s.kept (pos + i) (omega (arith, r.above)) (omega (arith, r.inside)) (out_at i lt out),
      )
    where
      out_at :
          (i : ℕ)
          → i < n
          → (pos + n ≤ (entry c' block).off_data)
            ⊎ ((entry c' block).off_data + cache_block_size ≤ pos)
          → (pos + i < (entry c' block).off_data)
            ⊎ ((entry c' block).off_data + cache_block_size ≤ pos + i)
      out_at i lt (inl a) = inl (omega arith)
      out_at i lt (inr a) = inr (omega arith)

  -- Another assigned block is a reserved stretch.
  pub other_block :
      (b : ℕ)
      → Writable c size
      → b ≢ block
      → (entry c b).assigned ≡ 1
      → ((entry c b).off_data + cache_block_size ≤ (entry c' block).off_data)
        ⊎ ((entry c' block).off_data + cache_block_size ≤ (entry c b).off_data)
  other_block b w ne here =
      off_apart (entry c b).off_data cache_block_size (w.cached.inside b here)
        (λ at. w.apart b block ne here at)

  -- The place of the block in `c'` is behind the index.
  place_above : Writable c size → index_end c ≤ (entry c' block).off_data
  place_above w = elim s.place [
    | inl (here, same) ↦ omega (arith, w.above block here)
    | inr new ↦ omega (arith, w.index)
  ]

  -- The file can still be loaded.
  pub Stored-Loadable : Writable c size → Loadable c → Loadable c'
  Stored-Loadable w l = record {
    fields = rw s.same_header l.fields;
    signature = rw s.same_header l.signature;
    version = rw s.same_header l.version;
    block_size = rw s.same_header l.block_size;
    index_at = rw s.same_header l.index_at;
    entries = λ b lt. elim (ℕ_discrete b block) [
      | yes e ↦ rw e (record {
        assigned = omega (arith, s.assigned);
        off_data = omega (arith, s.inside, s.bounded, w.cached.within, w.cached.small);
      })
      | no ne ↦ rw (s.others b ne) (l.entries b (omega (arith, s.same_index)))
    ];
    synced = s.synced (place_above w) l.synced;
  }

  pub Stored-Writable :
      Writable c size → c.file.size + cache_block_size ≤ c.file.room → Writable c' size
  Stored-Writable w room = record {
    cached = record {
      within = omega (arith, s.bounded, s.same_room);
      small = omega (arith, w.cached.small, s.same_room);
      indexed = omega (arith, w.cached.indexed, s.same_index);
      inside = inside_lem;
    };
    index = omega (arith, w.index, s.same_index, s.grown);
    above = λ b here. elim (ℕ_discrete b block) [
      | yes e ↦ rw e (omega (arith, place_above w, s.same_index))
      | no ne ↦
          rw (s.others b ne) (omega (arith, w.above b (rw (s.others b ne) at here), s.same_index))
    ];
    apart = λ a b ne here there. elim (ℕ_discrete a block) [
      | yes e ↦
          let ne' : b ≢ block = λ e'. ne (e ∙ sym e') in
          rw (e, s.others b ne') (swap (other_block b w ne' (rw (s.others b ne') at there)))
      | no ne' ↦ elim (ℕ_discrete b block) [
        | yes e ↦ rw (e, s.others a ne') (other_block a w ne' (rw (s.others a ne') at here))
        | no ne'' ↦
            rw (s.others a ne', s.others b ne'')
              (w.apart a b ne (rw (s.others a ne') at here) (rw (s.others b ne'') at there))
      ]
    ];
  }
    where
      inside_lem :
          (b : ℕ)
          → (entry c' b).assigned ≡ 1
          → (entry c' b).off_data + cache_block_size ≤ c'.file.size
      inside_lem b here = elim (ℕ_discrete b block) [
        | yes e ↦ rw e s.inside
        | no ne ↦
            rw (s.others b ne)
              (omega (arith, w.cached.inside b (rw (s.others b ne) at here), s.grown))
      ]

      swap : {A B : Type 0} → A ⊎ B → B ⊎ A
      swap (inl a) = inr a
      swap (inr b) = inl b
