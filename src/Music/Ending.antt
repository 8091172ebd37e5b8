-- ===== src/Music/Ending.antt =====
-- src/music_id.cpp: the settings that pass through the music id client, and its end.
use rdk_audiocapturemgr.Prelude.{
  ◌+◌, ◌≢◌, ap, ==_iff, ℕ, ◌*◌, ◌≡◌, refl, List, [], ◌∷◌, ok, Result, ◌>>=◌, if◌then◌else◌, true,
  false, arith,
}
use rdk_audiocapturemgr.Prelude.Int.{is_zero, ℤ}
use rdk_audiocapturemgr.Audio.{AudioProperties, CaptureLibrary, u32}
use rdk_audiocapturemgr.Buffer.{Heap}
use rdk_audiocapturemgr.QMgr.{QMgr}
use rdk_audiocapturemgr.QMgr.Clients.{mem, get_data_rate}
use rdk_audiocapturemgr.QMgr.BaseClient.{release_buffer, release_buffer-Took}
use rdk_audiocapturemgr.QMgr.Clients.{mem}
use rdk_audiocapturemgr.Buffer.Refs.{refs}
use rdk_audiocapturemgr.Music.Held.{IsValid, Holds, kept-Holds, release_buffer-others}
use rdk_audiocapturemgr.Music.{MusicIdClient}

-- `audio_capture_client::set_audio_properties` is the call of the queue manager.
unfoldable pub set_audio_properties :
    CaptureLibrary
    → ℤ
    → ℤ
    → AudioProperties
    → QMgr
    → MusicIdClient
    → Result (QMgr × MusicIdClient × ℤ)
set_audio_properties lib start_ret stop_ret properties q m = do
  (q', ret) ←
      rdk_audiocapturemgr.QMgr.Clients.set_audio_properties lib start_ret stop_ret properties q
  let size : ℕ = u32 (m.precapture_duration_seconds * get_data_rate q')
  ok (q', if is_zero ret then record m { precapture_size_bytes = size } else m, ret)

-- The loop of the destructor over the queue.
unfoldable pub release_all : List ℕ → Heap → Result Heap
release_all [] h = ok h
release_all (p ∷ ps) h = do h' ← release_buffer p h; release_all ps h'

-- `~music_id_client`, behind the join of the worker thread and before the socket adaptor is deleted.
unfoldable pub destroy : MusicIdClient → Heap → Result (MusicIdClient × Heap)
unfolding release_all
destroy m h = do
  h' ← release_all m.queue h
  ok (record m { queue = []; requests = []; outbox = [] }, h')

-- References that are given up.
abbrev pub released_of : ℕ → List ℕ → ℕ
released_of q ps = if mem q ps then 1 else 0

apart : (q p : ℕ) (ps : List ℕ) → mem q ps ≡ true → mem p ps ≡ false → q ≢ p
apart q p ps there new = λ e. ground (arith, there, new, ap (λ x. mem x ps) e)

pub release_all-refs :
    (ps : List ℕ) (h : Heap)
    → Holds h ps
    → (h' : Heap) × (release_all ps h ≡ ok h') × ((q : ℕ) → refs h' q + released_of q ps ≡ refs h q)
unfolding release_all
release_all-refs [] h holds = (h, refl, λ q. omega arith)
release_all-refs (p ∷ ps) h (new, held, fits, holds) =
    let (b, h₀, e, given_up, same₀) = release_buffer-others p h held fits in
    let (h₁, released, took) = release_buffer-Took p h b e (rw e at held) (rw e at fits) in
    let (there, sum) = kept-Holds h h₁ ps (λ q m. took.others q (apart q p ps m new)) holds in
    let (h₂, rest, counted) = release_all-refs ps h₁ there in
    (
      h₂,
      rw (released, rest) refl,
      λ q. ground (arith, counted q, took.balance, took.others q, ==_iff p q),
    )

-- The end of a client with a valid queue: nothing faults, the queue is empty, and exactly one reference
-- to each buffer of the queue is given up, and none to another.
pub destroy-releases :
    (m : MusicIdClient) (h : Heap)
    → IsValid h m
    → (m' : MusicIdClient) × (h' : Heap) × (destroy m h ≡ ok (m', h'))
      × (m'.queue ≡ [])
      × ((q : ℕ) → refs h' q + released_of q m.queue ≡ refs h q)
unfolding destroy
destroy-releases m h valid =
    let (h', runs, counted) = release_all-refs m.queue h valid.holds in
    (record m { queue = []; requests = []; outbox = [] }, h', rw runs refl, refl, counted)
