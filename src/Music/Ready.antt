-- ===== src/Music/Ready.antt =====
-- src/music_id.cpp: that cutting a clip without conversion returns, whatever the queue and the file.
use rdk_audiocapturemgr.Prelude.{
  Bool-cases, if◌then◌else◌, >>=-parts, none, inr, inl, ℕ, ◌*◌, ◌≤◌, ◌≡◌, refl, List, [], ◌∷◌, ◌++◌,
  some, true, false, ok, arith, length, ◌==◌,
}
use rdk_audiocapturemgr.Prelude.Int.{pos}
use rdk_audiocapturemgr.Audio.{AudioProperties, u32, calculate_data_rate}
use rdk_audiocapturemgr.Audio.Rate.{calculate_data_rate-exact}
use rdk_audiocapturemgr.Buffer.{load, Buffer, Heap}
use rdk_audiocapturemgr.Converter.{Sink, file_sink}
use rdk_audiocapturemgr.Converter.Params.{is_known}
use rdk_audiocapturemgr.Converter.Decimate.{joined}
use rdk_audiocapturemgr.Converter.Passthrough.{covering, AllFull, AllShort}
use rdk_audiocapturemgr.Music.{negsuc, Option, ℤ, Bool, MusicIdClient}
use rdk_audiocapturemgr.Music.Wav.{write_default_file_header}
use rdk_audiocapturemgr.Music.Clips.{
  finish_file, is_socket, grab, load_all, grab_to_outbox, grab_to_file,
}
use rdk_audiocapturemgr.Music.Grab.{
  times_le, not_empty, convert_queue-covering, grab_to_outbox-covering,
}

-- A client from whose queue a clip without conversion can be cut.
pub record IsReady (p : AudioProperties) (m : MusicIdClient) (h : Heap) : Type 0 where
  pub plain : m.convert_output ≡ false
  pub known : is_known p.sampling_frequency ≡ true
  pub loaded :
      (bs : List Buffer) × (load_all m.queue h ≡ ok bs)
      × AllFull bs
      × AllShort (calculate_data_rate p) bs

is_empty : (queue : List ℕ) (h : Heap) → load_all queue h ≡ ok [] → (length queue == 0) ≡ true
unfolding load_all
is_empty [] h loads = refl
is_empty (p ∷ ps) h loads =
    let (b, here, rest) = >>=-parts (load p h) _ loads in
    let (bs, there, same) = >>=-parts (load_all ps h) (λ bs. ok (b ∷ bs)) rest in
    absurd (ground (arith, same))

to_outbox-returns :
    (p : AudioProperties) (seconds : ℕ) (m : MusicIdClient) (h : Heap) (bs : List Buffer)
    → IsReady p m h
    → load_all m.queue h ≡ ok bs
    → AllFull bs
    → AllShort (calculate_data_rate p) bs
    → seconds ≤ 120
    → (outbox : List Sink) × (ret : ℤ) × (grab_to_outbox p (calculate_data_rate p) seconds m h
        ≡ ok (record m { outbox = outbox }, ret))
unfolding grab_to_outbox
to_outbox-returns p seconds m h [] ready loads full short most =
    (m.outbox, negsuc 0, simp (is_empty m.queue h loads) refl)
to_outbox-returns p seconds m h (b ∷ bs) ready loads full short most = (
  _,
  pos 0,
  (grab_to_outbox-covering p seconds m h b bs ready.plain ready.known loads full short most),
)

to_file-returns :
    (p : AudioProperties) (opens : Bool) (seconds : ℕ) (m : MusicIdClient) (h : Heap)
    (bs : List Buffer)
    → IsReady p m h
    → load_all m.queue h ≡ ok bs
    → AllFull bs
    → seconds ≤ 120
    → (file : Option (List ℕ)) × (ret : ℤ) × (grab_to_file p
          (calculate_data_rate p)
          opens
          seconds
          m
          h
        ≡ ok (file, ret))
unfolding grab_to_file
to_file-returns p opens seconds m h [] ready loads full most =
    (none, negsuc 0, simp (is_empty m.queue h loads) refl)
to_file-returns p false seconds m h (b ∷ bs) ready loads full most =
    (none, negsuc 0, simp (not_empty m.queue h b bs loads) refl)
to_file-returns p true seconds m h (b ∷ bs) ready loads full most =
    let rate = calculate_data_rate p in
    let fits = calculate_data_rate-exact p in
    let size = times_le seconds 120 rate most in
    let dump : u32 (seconds * rate) ≡ seconds * rate = omega (arith, size, fits.1) in
    let header : List ℕ =
      if m.enable_wav_header_output then write_default_file_header p rate m else [] in
    let clip : List ℕ = joined (covering (b ∷ bs) (pos (seconds * rate))) in
    let written =
      convert_queue-covering p (seconds * rate) m h (file_sink header) b bs ready.plain ready.known
        loads full (omega (arith, size, fits.1)) tt in
    (
      some (finish_file m.enable_wav_header_output (header ++ clip)),
      pos 0,
      simp (not_empty m.queue h b bs loads, dump, written) refl,
    )

-- A clip of at most 120 seconds is cut, or the queue is empty or the file not opened: in each case the
-- code returns, and changes nothing but the outbox.
pub grab-returns :
    (p : AudioProperties) (opens : Bool) (seconds : ℕ) (m : MusicIdClient) (h : Heap)
    → IsReady p m h
    → seconds ≤ 120
    → (outbox : List Sink) × (file : Option (List ℕ)) × (ret : ℤ) × (grab p
          (calculate_data_rate p)
          opens
          seconds
          m
          h
        ≡ ok (record m { outbox = outbox }, file, ret))
unfolding grab
grab-returns p opens seconds m h ready most =
    let (bs, loads, full, short) = ready.loaded in
    elim (Bool-cases (is_socket m.delivery_method)) [
      | inl socket ↦
          let (outbox, ret, returns) =
            to_outbox-returns p seconds m h bs ready loads full short most in
          (outbox, none, ret, simp (socket, returns) refl)
      | inr file ↦
          let (written, ret, returns) =
            to_file-returns p opens seconds m h bs ready loads full most in
          (m.outbox, written, ret, simp (file, returns) refl)
    ]
