-- ===== src/Buffer/Tests.antt =====
-- A buffer with three references.
use rdk_audiocapturemgr.Prelude.{
  ◌≡◌, refl, none, some, [], ◌∷◌, err, use_after_free, arith, ◌==◌, if◌then◌else◌,
}
use rdk_audiocapturemgr.Buffer.{Buffer, Heap}
use rdk_audiocapturemgr.Buffer.Refs.{unref_times, unref_times_frees}

abbrev shared : Buffer
shared = record { bytes = 1 ∷ 2 ∷ []; size = 2; clip_length = 0; refcount = 3 }

abbrev one_buffer : Heap
one_buffer = record { next = 5; cell = λ p. if p == 4 then some shared else none }

unref_times_frees_example : unref_times 4 4 one_buffer ≡ err use_after_free
unref_times_frees_example = (unref_times_frees 2 4 one_buffer shared refl refl (omega arith)).1
