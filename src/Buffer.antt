-- ===== src/Buffer.antt =====
-- include/audio_buffer.h, src/audio_buffer.cpp: reference-counted buffers on the heap. A pointer is
-- an address; an address is never used again, so that a stale pointer shows as a fault. The global
-- mutex makes each operation one step.
pub mod Refs
mod Tests
use Prim.Native.Nat.{min}
use rdk_audiocapturemgr.Prelude.{
  ℕ, suc, ◌+◌, ◌-◌, ◌%◌, ◌^◌, Option, none, some, List, take, Result, ok, err, use_after_free, ◌==◌,
  if◌then◌else◌, [], ◌∷◌, ◌>>=◌, ◌>>◌, length, leb, out_of_bounds,
}
use rdk_audiocapturemgr.Audio.{u32}

pub record Buffer : Type 0 where
  pub bytes : List ℕ
  pub size : ℕ
  pub clip_length : ℕ
  pub refcount : ℕ

pub record Heap : Type 0 where
  pub next : ℕ
  pub cell : ℕ → Option Buffer

abbrev pub update : (ℕ → Option Buffer) → ℕ → Option Buffer → ℕ → Option Buffer
update f p v q = if p == q then v else f q

-- The constructor copies `in_size` bytes from the caller's memory, of which `in_ptr` is what is
-- there to be read.
unfoldable pub audio_buffer : List ℕ → ℕ → ℕ → ℕ → Result Buffer
audio_buffer in_ptr in_size clip_length refcount =
    if leb in_size (length in_ptr)
    then ok (record {
      bytes = take in_size in_ptr;
      size = in_size;
      clip_length = clip_length;
      refcount = refcount;
    })
    else err out_of_bounds

unfoldable pub create_new_audio_buffer : List ℕ → ℕ → ℕ → ℕ → Heap → Result (ℕ × Heap)
unfolding audio_buffer
create_new_audio_buffer in_ptr in_size clip_length refcount h = do
  b ← audio_buffer in_ptr in_size clip_length refcount
  ok (h.next, record { next = suc h.next; cell = update h.cell h.next (some b) })

unfoldable pub load : ℕ → Heap → Result Buffer
load p h = elim (h.cell p) [ none ↦ err use_after_free | some b ↦ ok b ]

-- `delete ptr`.
unfoldable pub free_audio_buffer : ℕ → Heap → Result Heap
unfolding load
free_audio_buffer p h = do load p h; ok (record h { cell = update h.cell p none })

unfoldable pub unref_audio_buffer : ℕ → Heap → Result Heap
unfolding load free_audio_buffer
unref_audio_buffer p h = do
  b ← load p h
  if b.refcount == 1
      then free_audio_buffer p h
      else ok (record h {
        cell = update h.cell p (some (record b { refcount = u32 (b.refcount + 2 ^ 32 - 1) }));
      })

unfoldable pub set_ref_audio_buffer : ℕ → ℕ → Heap → Result Heap
unfolding load
set_ref_audio_buffer p refcount h = do
  b ← load p h
  ok (record h { cell = update h.cell p (some (record b { refcount = refcount })) })
