-- ===== src/QMgr/Queues.antt =====
-- The two queues of buffers: what they own, and that a full queue is flushed and not overrun.
use native.Mathlib.Nat.{le_trans, mul-le-mul_right, div-mul-le_self, mod-le}
use rdk_audiocapturemgr.Prelude.{
  ℕ, ◌+◌, ◌*◌, ◌/◌, ◌^◌, ◌≤◌, ◌≡◌, List, [], ◌∷◌, ok, length, arith, length-append,
}
use rdk_audiocapturemgr.Audio.{AudioProperties, u32}
use rdk_audiocapturemgr.Buffer.{Heap, create_new_audio_buffer}
use rdk_audiocapturemgr.QMgr.{limit_incoming, notify_data_ready, QMgr, max_queue_size_of, add_data}

-- Whatever the queue held before, after `add_data` it holds at most one buffer more than the limit.
pub add_data_bounded :
    (buf : List ℕ) (size : ℕ) (q q' : QMgr) (h h' : Heap)
    → add_data buf size q h ≡ ok (q', h')
    → length q'.incoming ≤ q'.max_queue_size + 1
unfolding add_data create_new_audio_buffer limit_incoming notify_data_ready
add_data_bounded buf size q q' h h' e = ground (arith, length-append q.incoming (h.next ∷ []))

-- The limit stands for at most 30 seconds of audio, in buffers of `threshold` bytes.
quotient_bound : (a t n : ℕ) → n ≤ a / t → n * t ≤ a
quotient_bound a t n h = le_trans (mul-le-mul_right t h) (div-mul-le_self a t)

pub max_queue_size_of_bounds :
    (props : AudioProperties) (rate n : ℕ)
    → max_queue_size_of props rate ≡ ok n
    → n * props.threshold ≤ 30 * rate
unfolding max_queue_size_of
max_queue_size_of_bounds props rate n e =
    let total : ℕ = u32 (30 * rate) in
    le_trans
      (quotient_bound total props.threshold n
        (ground (arith, mod-le (total / props.threshold) (2 ^ 32))))
      (mod-le (30 * rate) (2 ^ 32))
