-- ===== src/Buffer/Refs.antt =====
-- The reference count: who gives up the last reference frees the buffer, and nobody before.
use rdk_audiocapturemgr.Prelude.{
  ℕ, zero, suc, ◌-◌, ◌^◌, ◌<◌, ◌≡◌, ◌≢◌, Option, none, some, Result, ok, err, use_after_free, ◌>>=◌,
  arith, refl,
}
use rdk_audiocapturemgr.Buffer.{Buffer, Heap, unref_audio_buffer, update}

-- The references that a buffer's count stands for: none where the buffer is gone.
abbrev pub count_of : Option Buffer → ℕ
count_of none = 0
count_of (some b) = b.refcount

abbrev pub size_of : Option Buffer → ℕ
size_of none = 0
size_of (some b) = b.size

abbrev pub refs : Heap → ℕ → ℕ
refs h p = count_of (h.cell p)

-- `unref_audio_buffer` called n times.
pub unref_times : ℕ → ℕ → Heap → Result Heap
unref_times zero p h = ok h
unref_times (suc n) p h = unref_audio_buffer p h >>= unref_times n p

pub unref_last :
    (p : ℕ) (h : Heap) (b : Buffer)
    → h.cell p ≡ some b
    → b.refcount ≡ 1
    → unref_audio_buffer p h ≡ ok (record h { cell = update h.cell p none })
unfolding unref_audio_buffer
unref_last p h b e one = ground arith

pub unref_more :
    (p : ℕ) (h : Heap) (b : Buffer)
    → h.cell p ≡ some b
    → 1 < b.refcount
    → b.refcount < 2 ^ 32
    → unref_audio_buffer p h
      ≡ ok (record h { cell = update h.cell p (some (record b { refcount = b.refcount - 1 })) })
unfolding unref_audio_buffer
unref_more p h b e more fits = ground arith

pub unref_gone : (p : ℕ) (h : Heap) → h.cell p ≡ none → unref_audio_buffer p h ≡ err use_after_free
unfolding unref_audio_buffer
unref_gone p h e = ground arith

-- What unref_times leaves of the buffer p, and that it touches no other.
pub record Unreffed (p : ℕ) (h : Heap) (left : Option Buffer) (r : Result Heap) : Type 0 where
  pub heap : Heap
  pub returns : r ≡ ok heap
  pub cell_left : heap.cell p ≡ left
  pub others : (q : ℕ) → q ≢ p → heap.cell q ≡ h.cell q

-- As long as a reference is left, the buffer stays and its count falls by the calls made.
pub unref_times_keeps :
    (k p : ℕ) (h : Heap) (b : Buffer)
    → h.cell p ≡ some b
    → k < b.refcount
    → b.refcount < 2 ^ 32
    → Unreffed p h (some (record b { refcount = b.refcount - k })) (unref_times k p h)
unfolding unref_times
unref_times_keeps zero p h b e lt fits = record {
  heap = h;
  returns = refl;
  cell_left = ground arith;
  others = λ q ne. refl;
}
unref_times_keeps (suc k) p h b e lt fits =
    let b' : Buffer = record b { refcount = b.refcount - 1 } in
    let h' : Heap = record h { cell = update h.cell p (some b') } in
    let rest = unref_times_keeps k p h' b' (ground arith) (omega arith) (omega arith) in
    record {
      heap = rest.heap;
      returns = rw (unref_more p h b e (omega arith) fits) rest.returns;
      cell_left = ground arith;
      others = λ q ne. ground (arith, rest.others q ne);
    }

-- With the last reference the buffer is freed and every later call is a fault.
pub unref_times_frees :
    (k p : ℕ) (h : Heap) (b : Buffer)
    → h.cell p ≡ some b
    → b.refcount ≡ suc k
    → b.refcount < 2 ^ 32
    → Unreffed p h none (unref_times (suc k) p h)
      × (unref_times (suc (suc k)) p h ≡ err use_after_free)
unfolding unref_times
unref_times_frees zero p h b e one fits = (
  record {
    heap = record h { cell = update h.cell p none };
    returns = rw (unref_last p h b e one);
    cell_left = ground arith;
    others = λ q ne. ground arith;
  },
  rw (
    unref_last p h b e one,
    unref_gone p (record h { cell = update h.cell p none }) (ground arith),
  ),
)
unref_times_frees (suc k) p h b e more fits =
    let b' : Buffer = record b { refcount = b.refcount - 1 } in
    let h' : Heap = record h { cell = update h.cell p (some b') } in
    let rest = unref_times_frees k p h' b' (ground arith) (omega arith) (omega arith) in
    let step = unref_more p h b e (omega arith) fits in
    (
      record {
        heap = rest.0.heap;
        returns = rw step rest.0.returns;
        cell_left = rest.0.cell_left;
        others = λ q ne. ground (arith, rest.0.others q ne);
      },
      rw step rest.1,
    )
