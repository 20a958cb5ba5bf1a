-- ===== src/VirtImage/Set/Footed/Tests.antt =====
-- A VHD file of ten bytes and a footer, whose block is in the cache file.
use xmount.Base.{
  ℕ, zero, suc, ◌+◌, ◌^◌, ◌≡◌, refl, inl, inr, some, [], ◌∷◌, arith, ok, replicate, slice,
}
use xmount.VirtImage.State.{XmountData, Cache, MorphingFunctions, vhd}
use xmount.VirtImage.Get.{get_virt_image_data}
use xmount.VirtImage.Get.Content.{virt_byte}
use xmount.VirtImage.Get.Whole.{IsMounted}
use xmount.VirtImage.Set.Block.{entry}
use xmount.VirtImage.Set.Store.{set_virt_image_data}
use xmount.VirtImage.Set.Patch.{patched}
use xmount.VirtImage.Set.Invariant.{Writable}
use xmount.VirtImage.Set.Header.Tests.{header, header-HeaderFields, bytes}
use xmount.VirtImage.Set.Footed.{FootedRequest}
use xmount.VirtImage.Set.Footed.Whole.{get_virt_image_data-set_vhd}

abbrev image : ℕ → ℕ
image i = i + 1

abbrev morphed : MorphingFunctions
morphed = record { size = some 10; read = λ o n. some (slice image o n) }

abbrev cache : Cache
cache = record {
  file = record { size = 524 + 1048576; byte = λ i. 5; room = 2 ^ 40 };
  header = header;
  blkidx = record { assigned = 1; off_data = 524 } ∷ [];
}

abbrev footed : XmountData
footed = record {
  morphing = morphed;
  cache = some cache;
  virt_image_type = vhd;
  image_size = 0;
  vdi_header_size = 0;
  vdi_header = [];
  vdi_block_map_size = 0;
  vhd_header = replicate 512 7;
}

first_block : (b : ℕ) → (entry cache b).assigned ≡ 1 → b ≡ 0
first_block zero here = refl
first_block (suc b) here = absurd (omega (arith, here))

at_524 : (b : ℕ) → (entry cache b).assigned ≡ 1 → (entry cache b).off_data ≡ 524
at_524 zero here = refl
at_524 (suc b) here = absurd (omega (arith, here))

cache-Writable : Writable cache 10
cache-Writable = record {
  cached = record {
    within = omega arith;
    small = omega arith;
    indexed = omega arith;
    inside = λ b here. omega (arith, at_524 b here);
  };
  index = omega arith;
  above = λ b here. omega (arith, at_524 b here);
  apart = λ a b ne here there. absurd (ne (omega (arith, first_block a here, first_block b there)));
}

footed-IsMounted : IsMounted footed 10 image
footed-IsMounted = record {
  mounted = record {
    morphed = record { sized = refl; reads = λ o n lt le. refl };
    small = omega arith;
    cached = cache-Writable.cached;
  };
  typed = record { in_memory = refl; in_file = λ e. absurd (omega (arith, e)) };
  headers_small = omega arith;
  known = inl refl;
}

request : FootedRequest (replicate 512 7) cache 10 1 9 3
request = record {
  in_memory = refl;
  writable = cache-Writable;
  fields = header-HeaderFields;
  in_file = λ e. absurd (omega (arith, e));
  inside = omega arith;
  fits = omega arith;
  room = omega arith;
  stops = λ lt. inr (inr refl);
}

-- The last byte of the image and the first two of the footer are written.
get_virt_image_data-set_vhd_example :
    (c' : Cache) × (set_virt_image_data footed 9 bytes
      ≡ ok (record footed { image_size = 522; cache = some c' }, 3))
    × Writable c' 10
    × (get_virt_image_data (record footed { image_size = 522; cache = some c' }) 8 5
        ≡ ok (
          slice (patched 9 bytes (virt_byte footed vhd 10 image)) 8 5,
          record footed { image_size = 522; cache = some c' },
        ))
get_virt_image_data-set_vhd_example =
    get_virt_image_data-set_vhd bytes refl footed-IsMounted refl (omega arith) (omega arith) request
      8 5 (omega arith) (omega arith)
