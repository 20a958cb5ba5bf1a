-- ===== src/Fuse/Session.antt =====
-- A sequence of FUSE calls on the path of the image, and what an array of bytes would answer.
pub mod Step
pub mod Whole
pub mod Remount
mod Tests
use xmount.Base.{ℕ, ◌+◌, ◌-◌, ◌*◌, ◌/◌, List, [], ◌∷◌, length, min, take, slice, Result, ok, ◌>>=◌}
use xmount.VirtImage.State.{Errno, cache_block_size}
use xmount.VirtImage.Set.Patch.{patched}
use xmount.Fuse.{FuseState, fuse_read, fuse_write}

-- `FuseRead(path,buf,size,offset)` and `FuseWrite(path,buf,size,offset)`.
pub data Call : Type 0 where
  reads : ℕ → ℕ → Call
  writes : List ℕ → ℕ → Call

-- What they give back.
pub data Reply : Type 0 where
  bytes : List ℕ → Reply
  count : ℕ → Reply

unfoldable pub call : (ℕ → ℕ) → FuseState → List ℕ → Call → Result Errno (FuseState × Reply)
call garbage s p_path (reads size offset) =
    fuse_read s p_path size offset >>= λ (buf, s'). ok (s', bytes buf)
call garbage s p_path (writes buf offset) =
    fuse_write garbage s p_path buf offset >>= λ (s', n). ok (s', count n)

unfoldable pub session :
    (ℕ → ℕ) → FuseState → List ℕ → List Call → Result Errno (FuseState × List Reply)
session garbage s p_path [] = ok (s, [])
session garbage s p_path (c ∷ cs) = call garbage s p_path c >>= λ (s1, reply).
    session garbage s1 p_path cs >>= λ (s2, replies). ok (s2, reply ∷ replies)

-- An array of `size` bytes: what a call leaves in it, and what it answers.
unfoldable pub array_after : ℕ → (ℕ → ℕ) → Call → ℕ → ℕ
array_after size f (reads n offset) = f
array_after size f (writes buf offset) =
    patched offset (take (min (length buf) (size - offset)) buf) f

unfoldable pub array_reply : ℕ → (ℕ → ℕ) → Call → Reply
array_reply size f (reads n offset) = bytes (slice f offset (min n (size - offset)))
array_reply size f (writes buf offset) = count (min (length buf) (size - offset))

unfoldable pub array_session : ℕ → (ℕ → ℕ) → List Call → List Reply
array_session size f [] = []
array_session size f (c ∷ cs) = array_reply size f c ∷ array_session size (array_after size f c) cs

unfoldable pub array_end : ℕ → (ℕ → ℕ) → List Call → ℕ → ℕ
array_end size f [] = f
array_end size f (c ∷ cs) = array_end size (array_after size f c) cs

-- The most blocks of the cache file that a call can take.
unfoldable pub blocks_taken : Call → ℕ
blocks_taken (reads n offset) = 0
blocks_taken (writes buf offset) = length buf / cache_block_size + 2

unfoldable pub all_blocks_taken : List Call → ℕ
all_blocks_taken [] = 0
all_blocks_taken (c ∷ cs) = blocks_taken c + all_blocks_taken cs
