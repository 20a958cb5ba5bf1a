-- ===== src/Fuse/Session/Remount.antt =====
-- A session over a new cache file, and one of a later mount over the same file.
use xmount.Base.{
  ℕ, ◌+◌, ◌*◌, ◌^◌, ◌≤◌, ◌<◌, ◌≡◌, refl, ap, sym, ◌∙◌, Bool, true, false, Option, none, some, List,
  arith, Result, ok, ◌>>=◌,
}
use xmount.Stdio.{File}
use xmount.VirtImage.State.{
  XmountData, Cache, cache_block_size, sizeof_cache_header, sizeof_block_index,
}
use xmount.VirtImage.Morphed.{IsMorphed}
use xmount.VirtImage.Get.Content.{image_byte, virt_byte}
use xmount.VirtImage.Set.Plain.{plain, plain-virt_byte, mounted-plain}
use xmount.VirtImage.CacheFile.{
  Mode, rb_plus, CacheError, needed_blocks, init_cache_file, open_cache_file,
}
use xmount.VirtImage.CacheFile.New.{init_cache_file-Writable}
use xmount.VirtImage.CacheFile.Load.{init_cache_file-Loadable}
use xmount.Fuse.{FuseState, str_eq}
use xmount.Fuse.Session.{Call, session, array_session, array_end, all_blocks_taken}
use xmount.Fuse.Session.Step.{Shows}
use xmount.Fuse.Session.Whole.{AllLegal, session_lem}

-- `fopen` on the cache file that a session leaves.
unfoldable pub reopened : Option Cache → Mode → Option File
reopened (some c) rb_plus = some c.file
reopened _ _ = none

-- The next mount: `g` with that cache file.
unfoldable pub remount : FuseState → XmountData → Result CacheError FuseState
remount s g =
    init_cache_file g false (reopened s.image.cache) >>= λ g'. ok (record s { image = g' })

-- An image of a plain type before the cache file is opened.
pub record Unmounted (g : XmountData) (size : ℕ) (byte : ℕ → ℕ) : Type 0 where
  pub is_plain : plain g.virt_image_type ≡ true
  pub morphed : IsMorphed g.morphing size byte
  pub small : size < 2 ^ 50
  pub unknown : g.image_size ≡ 0

-- Mounted over an empty cache file the image is the morphed one.
pub mount_new :
    (g : XmountData) (overwrite_cache : Bool) (fopen : Mode → Option File) (f : File)
    (s : FuseState) (size : ℕ) (byte : ℕ → ℕ) (budget : ℕ)
    → Unmounted g size byte
    → open_cache_file overwrite_cache fopen ≡ ok f
    → f.size ≡ 0
    → sizeof_cache_header + needed_blocks size * sizeof_block_index + budget * cache_block_size
      ≤ f.room
    → f.room < 2 ^ 63
    → (c : Cache) × (init_cache_file g overwrite_cache fopen ≡ ok (record g { cache = some c }))
      × Shows (record s { image = record g { cache = some c } }) c size byte byte budget
mount_new g overwrite_cache fopen f s size byte budget u opened empty room below =
    let (c, done, w, l, blocks, end, same, shows) =
      init_cache_file-Writable g overwrite_cache fopen f u.morphed u.small opened empty
        (omega arith) below in
    (
      c,
      done,
      record {
        mounted =
            mounted-plain g (some c) u.is_plain u.morphed (omega (arith, u.small)) u.unknown
              w.cached;
        opened = refl;
        is_plain = u.is_plain;
        writable = w;
        loadable = l;
        blocks = blocks;
        room = omega arith;
        holds = λ q lt.
            ap (λ x. x q)
              (plain-virt_byte (record g { cache = some c }) g.virt_image_type size byte u.is_plain)
            ∙ shows q;
      },
    )

-- Mounted over the cache file of a session the image is what it was at the end of it.
mount_again :
    (g : XmountData) (s : FuseState) (c : Cache) (size : ℕ) (byte f : ℕ → ℕ) (budget : ℕ)
    → Unmounted g size byte
    → Shows s c size byte f budget
    → (remount s g ≡ ok (record s { image = record g { cache = some c } }))
      × Shows (record s { image = record g { cache = some c } }) c size byte f budget
unfolding remount reopened
mount_again g s c size byte f budget u h =
    let w = h.writable in
    let done =
      init_cache_file-Loadable g c (reopened (some c)) u.morphed h.loadable h.blocks w.index refl in
    (
      rw (h.opened, remount, done) refl,
      record {
        mounted =
            mounted-plain g (some c) u.is_plain u.morphed (omega (arith, u.small)) u.unknown
              w.cached;
        opened = refl;
        is_plain = u.is_plain;
        writable = w;
        loadable = h.loadable;
        blocks = h.blocks;
        room = h.room;
        holds = λ q lt.
            ap (λ x. x q)
              (plain-virt_byte (record g { cache = some c }) g.virt_image_type size byte u.is_plain)
            ∙ there q
            ∙ h.holds q lt;
      },
    )
  where
    there :
        (q : ℕ) → image_byte (some c) byte q ≡ virt_byte s.image s.image.virt_image_type size byte q
    there q =
        ap (λ o. image_byte o byte q) (sym h.opened)
        ∙ ap (λ x. x q) (sym (plain-virt_byte s.image s.image.virt_image_type size byte h.is_plain))

-- For an image of a plain type over an empty cache file with room for all blocks that are taken, and
-- two sessions of legal calls, which are reads of at least one byte and writes of which what lies in
-- the image ends before the end of the image or at the end of a block, all with ends that do not
-- wrap: `InitCacheFile` succeeds, the first session gets the replies of the array of the morphed
-- bytes, a later `InitCacheFile` over the file that it leaves succeeds, and the second session gets
-- the replies of the array that the first one left.
pub session-remount :
    (garbage : ℕ → ℕ) (g : XmountData) (overwrite_cache : Bool) (fopen : Mode → Option File)
    (f : File) (s : FuseState) (p_path : List ℕ) (size : ℕ) (byte : ℕ → ℕ) (cs cs' : List Call)
    → str_eq p_path s.virtual_image_path ≡ true
    → Unmounted g size byte
    → open_cache_file overwrite_cache fopen ≡ ok f
    → f.size ≡ 0
    → sizeof_cache_header
        + needed_blocks size * sizeof_block_index
        + (all_blocks_taken cs + (all_blocks_taken cs' + 0)) * cache_block_size
      ≤ f.room
    → f.room < 2 ^ 63
    → AllLegal size cs
    → AllLegal size cs'
    → (g1 : XmountData) × (init_cache_file g overwrite_cache fopen ≡ ok g1)
      × (s1 : FuseState) × (session garbage (record s { image = g1 }) p_path cs
          ≡ ok (s1, array_session size byte cs))
      × (s2 : FuseState) × (remount s1 g ≡ ok s2)
      × (s3 : FuseState) × (session garbage s2 p_path cs'
          ≡ ok (s3, array_session size (array_end size byte cs) cs'))
session-remount garbage g overwrite_cache fopen f s p_path size byte cs cs' on_path u opened empty
      room below legal legal' =
    let budget : ℕ = all_blocks_taken cs' + 0 in
    let (c, done, h) =
      mount_new g overwrite_cache fopen f s size byte (all_blocks_taken cs + budget) u opened empty
        room below in
    let g1 : XmountData = record g { cache = some c } in
    let (g2, c2, first, h2) =
      session_lem garbage (record s { image = g1 }) c p_path size byte byte budget cs on_path h
        legal in
    let s1 : FuseState = record s { image = g2 } in
    let (again, h3) = mount_again g s1 c2 size byte (array_end size byte cs) budget u h2 in
    let s2 : FuseState = record s { image = record g { cache = some c2 } } in
    let (g3, c3, second, h4) =
      session_lem garbage s2 c2 p_path size byte (array_end size byte cs) 0 cs' on_path h3 legal' in
    (g1, done, s1, first, s2, again, record s { image = g3 }, second)
