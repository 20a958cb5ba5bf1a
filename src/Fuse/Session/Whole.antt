-- ===== src/Fuse/Session/Whole.antt =====
-- Whole sessions.
use xmount.Base.{
  ℕ, ◌+◌, ◌≤◌, ◌≡◌, refl, true, inl, inr, List, [], ◌∷◌, arith, ltb, ok, Bool-cases, ltb→le, ltb→lt,
}
use xmount.VirtImage.State.{XmountData, Cache}
use xmount.VirtImage.Set.Plain.{after}
use xmount.Fuse.{FuseState, str_eq}
use xmount.Fuse.Session.{
  Call, reads, writes, call, session, array_after, array_reply, array_session, array_end,
  blocks_taken, all_blocks_taken,
}
use xmount.Fuse.Session.Step.{Shows, Legal, read_lem, sized-Shows, write_inside, write_behind}

abbrev pub AllLegal : ℕ → List Call → Type 0
AllLegal size [] = 0 ≤ size
AllLegal size (c ∷ cs) = Legal size c × AllLegal size cs

-- A call is answered as the array answers it, and the state shows what the array then holds.
abbrev Answered : (ℕ → ℕ) → FuseState → List ℕ → ℕ → (ℕ → ℕ) → (ℕ → ℕ) → ℕ → Call → Type 0
Answered garbage s p_path size byte f budget c =
    (g : XmountData) × (cache : Cache) × (call garbage s p_path c
      ≡ ok (record s { image = g }, array_reply size f c))
    × Shows (record s { image = g }) cache size byte (array_after size f c) budget

Shows-less :
    {s : FuseState} {c : Cache} {size : ℕ} {byte f : ℕ → ℕ} {budget : ℕ} (budget' : ℕ)
    → budget' ≤ budget
    → Shows s c size byte f budget
    → Shows s c size byte f budget'
Shows-less budget' le h = record {
  mounted = h.mounted;
  opened = h.opened;
  is_plain = h.is_plain;
  writable = h.writable;
  loadable = h.loadable;
  blocks = h.blocks;
  room = omega (arith, h.room);
  holds = h.holds;
}

call_lem :
    (garbage : ℕ → ℕ) (s : FuseState) (c : Cache) (p_path : List ℕ) (size : ℕ) (byte f : ℕ → ℕ)
    (budget : ℕ) (x : Call)
    → str_eq p_path s.virtual_image_path ≡ true
    → Shows s c size byte f (blocks_taken x + budget)
    → Legal size x
    → Answered garbage s p_path size byte f budget x
unfolding call array_reply array_after blocks_taken
call_lem garbage s c p_path size byte f budget (reads n offset) on_path h (some_bytes, short) = (
  record s.image { image_size = size },
  c,
  rw (read_lem p_path on_path h n offset some_bytes short) refl,
  Shows-less budget (omega arith) (sized-Shows p_path on_path h f (λ q. refl)),
)
call_lem garbage s c p_path size byte f budget (writes buf offset) on_path h legal =
    elim (Bool-cases (ltb offset size)) [
      | inl inside ↦
          let (c', done, shows) =
            write_inside p_path on_path h garbage buf offset budget legal (ltb→lt _ _ inside)
              (omega arith) in
          (after s.image size c', c', rw done refl, shows)
      | inr behind ↦
          let (done, shows) =
            write_behind p_path on_path h garbage buf offset (ltb→le _ _ behind) in
          (
            record s.image { image_size = size },
            c,
            rw done refl,
            Shows-less budget (omega arith) shows,
          )
    ]

-- A session on the path of an image of a plain type that the cache file has room for, of legal calls
-- alone, gets the replies of an array of bytes; at its end the state shows what the array holds, over
-- a cache that is writable and can be loaded again. Legal is a read of at least one byte, and a write
-- of which what lies in the image ends before the end of the image or at the end of a block, with an
-- end that does not wrap.
pub session_lem :
    (garbage : ℕ → ℕ) (s : FuseState) (c : Cache) (p_path : List ℕ) (size : ℕ) (byte f : ℕ → ℕ)
    (budget : ℕ) (cs : List Call)
    → str_eq p_path s.virtual_image_path ≡ true
    → Shows s c size byte f (all_blocks_taken cs + budget)
    → AllLegal size cs
    → (g : XmountData) × (c' : Cache) × (session garbage s p_path cs
        ≡ ok (record s { image = g }, array_session size f cs))
      × Shows (record s { image = g }) c' size byte (array_end size f cs) budget
unfolding session array_session array_end all_blocks_taken
session_lem garbage s c p_path size byte f budget [] on_path h legal =
    (s.image, c, refl, Shows-less budget (omega arith) h)
session_lem garbage s c p_path size byte f budget (x ∷ cs) on_path h (legal, rest) =
    let (g1, c1, done, h1) =
      call_lem garbage s c p_path size byte f (all_blocks_taken cs + budget) x on_path
        (Shows-less (blocks_taken x + (all_blocks_taken cs + budget)) (omega arith) h) legal in
    let (g2, c2, done', h2) =
      session_lem garbage (record s { image = g1 }) c1 p_path size byte (array_after size f x)
        budget cs on_path h1 rest in
    (g2, c2, rw (done, session, done') refl, h2)
