-- ===== src/Music/Clips.antt =====
-- src/music_id.cpp: the clips that are cut from the queue, for a file or for the outbox, and the worker
-- thread that cuts those asked for. `properties` and `data_rate` are those of the queue manager.
use rdk_audiocapturemgr.Prelude.{
  false, true, ℕ, suc, ◌+◌, ◌-◌, ◌*◌, ◌^◌, ◌==◌, Option, none, some, List, [], ◌∷◌, ◌++◌, Bool,
  Result, ok, ◌>>=◌, if◌then◌else◌, length,
}
use rdk_audiocapturemgr.Prelude.Int.{ℤ, pos, negsuc}
use rdk_audiocapturemgr.Audio.{AudioProperties, u32, calculate_data_rate}
use rdk_audiocapturemgr.Buffer.{Buffer, Heap, load}
use rdk_audiocapturemgr.Converter.{
  Sink, file_sink, audio_converter, audio_converter_memory_sink, content,
}
use rdk_audiocapturemgr.Converter.Loops.{convert}
use rdk_audiocapturemgr.Music.{
  DeliveryMethod, file_output, socket_output, Request, MusicIdClient, compute_queue_size,
  trim_queue,
}
use rdk_audiocapturemgr.Music.Wav.{write_default_file_header, update_file_header_size}

-- The buffers that the queue points to.
unfoldable pub load_all : List ℕ → Heap → Result (List Buffer)
load_all [] h = ok []
load_all (p ∷ ps) h = do b ← load p h; bs ← load_all ps h; ok (b ∷ bs)

-- The properties of a clip.
abbrev pub clip_properties : AudioProperties → MusicIdClient → AudioProperties
clip_properties properties m = if m.convert_output then m.output_properties else properties

-- The result of `convert` is not looked at.
unfoldable pub convert_queue : AudioProperties → ℕ → MusicIdClient → Heap → Sink → Result Sink
convert_queue properties data_dump_size m h sink = do
  c ← audio_converter properties (clip_properties properties m)
  queue ← load_all m.queue h
  (sink', ret) ← convert c queue data_dump_size sink
  ok sink'

-- `grab_last_n_seconds(seconds)`.
unfoldable pub grab_to_outbox :
    AudioProperties → ℕ → ℕ → MusicIdClient → Heap → Result (MusicIdClient × ℤ)
grab_to_outbox properties data_rate seconds m h =
    let sink : Sink =
      audio_converter_memory_sink
        (u32 (calculate_data_rate (clip_properties properties m) * u32 (suc seconds))) in
    if length m.queue == 0 then ok (m, negsuc 0) else (do
      sink' ← convert_queue properties (u32 (seconds * data_rate)) m h sink
      ok (record m { outbox = m.outbox ++ (sink' ∷ []) }, pos 0))

-- The sizes in the header, which is 44 bytes, are filled in.
abbrev pub finish_file : Bool → List ℕ → List ℕ
finish_file has_header bytes =
    if has_header then update_file_header_size bytes (u32 (length bytes + 2 ^ 32 - 44)) else bytes

-- `grab_last_n_seconds(filename, seconds)`: the file that is written, where `opens` says whether it can
-- be opened.
unfoldable pub grab_to_file :
    AudioProperties → ℕ → Bool → ℕ → MusicIdClient → Heap → Result (Option (List ℕ) × ℤ)
grab_to_file properties data_rate opens seconds m h =
    let header : List ℕ =
      if m.enable_wav_header_output then write_default_file_header properties data_rate m else [] in
    if length m.queue == 0
    then ok (none, negsuc 0)
    else (if opens
        then (do
          sink ← convert_queue properties (u32 (seconds * data_rate)) m h (file_sink header)
          ok (some (finish_file m.enable_wav_header_output (content sink)), pos 0))
        else ok (none, negsuc 0))

abbrev pub is_socket : DeliveryMethod → Bool
is_socket socket_output = true
is_socket file_output = false

-- One clip in the way that the client delivers them.
unfoldable pub grab :
    AudioProperties
    → ℕ
    → Bool
    → ℕ
    → MusicIdClient
    → Heap
    → Result (MusicIdClient × Option (List ℕ) × ℤ)
unfolding grab_to_outbox grab_to_file
grab properties data_rate opens seconds m h =
    if is_socket m.delivery_method
    then (do (m', ret) ← grab_to_outbox properties data_rate seconds m h; ok (m', none, ret))
    else (do (file, ret) ← grab_to_file properties data_rate opens seconds m h; ok (m, file, ret))

unfoldable pub grab_precaptured_sample :
    AudioProperties → ℕ → Bool → MusicIdClient → Heap → Result (MusicIdClient × Option (List ℕ) × ℤ)
unfolding grab
grab_precaptured_sample properties data_rate opens m h =
    grab properties data_rate opens m.precapture_duration_seconds m h

-- A request that is up, with what its callback is told and the file that was written.
pub record Completed : Type 0 where
  pub request : Request
  pub file : Option (List ℕ)
  pub ret : ℤ

-- The loop of `worker_thread` over the requests; `before` are those it has left in the list.
unfoldable pub tick_requests :
    AudioProperties
    → ℕ
    → (List ℕ → Bool)
    → List Request
    → List Request
    → MusicIdClient
    → Heap
    → Result (MusicIdClient × List Completed)
unfolding grab
tick_requests properties data_rate opens before [] m h = ok (m, [])
tick_requests properties data_rate opens before (r ∷ rs) m h =
    if r.time_remaining == 0
    then (do
      (m₁, file, ret) ← grab properties data_rate (opens r.filename) r.length m h
      let m₂ : MusicIdClient = compute_queue_size data_rate (record m₁ { requests = before ++ rs })
      (m₃, completed) ← tick_requests properties data_rate opens before rs m₂ h
      ok (m₃, record { request = r; file = file; ret = ret } ∷ completed))
    else (let r' : Request = record r { time_remaining = r.time_remaining - 1 } in
        let before' : List Request = before ++ (r' ∷ []) in
        tick_requests properties data_rate opens before' rs (record m { requests = before' ++ rs })
          h)

-- One round of `worker_thread`, between two of its sleeps.
unfoldable pub worker_tick :
    AudioProperties
    → ℕ
    → (List ℕ → Bool)
    → MusicIdClient
    → Heap
    → Result (MusicIdClient × Heap × List Completed)
unfolding tick_requests
worker_tick properties data_rate opens m h = do
  (m₁, completed) ← tick_requests properties data_rate opens [] m.requests m h
  (m₂, h') ← trim_queue m₁ h
  ok (m₂, h', completed)
