-- ===== src/Sessions/Delivered.antt =====
-- src/acm_session_mgr.cpp, src/music_id.cpp: what a request for a sample comes to in the client.
use rdk_audiocapturemgr.Prelude.{
  ℕ, suc, ◌*◌, ◌≤◌, ◌≡◌, ◌++◌, refl, List, [], ◌∷◌, none, some, true, false, ok, length,
  length-append, arith, le→leb, lt→ltb, ltb,
}
use rdk_audiocapturemgr.Prelude.Int.{ℤ, pos}
use rdk_audiocapturemgr.Audio.{AudioProperties, calculate_data_rate}
use rdk_audiocapturemgr.Audio.Suffix.{length-get_suffix}
use rdk_audiocapturemgr.Audio.Rate.{calculate_data_rate-exact}
use rdk_audiocapturemgr.Buffer.{Buffer, Heap}
use rdk_audiocapturemgr.Converter.{memory_sink}
use rdk_audiocapturemgr.Converter.Decimate.{joined}
use rdk_audiocapturemgr.Converter.Params.{is_known}
use rdk_audiocapturemgr.Converter.Passthrough.{covering, AllFull, AllShort}
use rdk_audiocapturemgr.Music.{
  Request, compute_queue_size, MusicIdClient, get_max_supported_duration, grab_fresh_sample,
}
use rdk_audiocapturemgr.Music.Clips.{load_all, is_socket, grab, grab_precaptured_sample}
use rdk_audiocapturemgr.Music.Grab.{grab_to_outbox-covering}
use rdk_audiocapturemgr.Music.Limit.{AllWithin, AllCovered, grab_fresh_sample-AllCovered}
use rdk_audiocapturemgr.Sessions.{
  is_buffered, Session, SessionMgr, get_session, acm_result_success, acm_result_general_failure,
}
use rdk_audiocapturemgr.Sessions.Samples.{
  request_callback, get_sock_path, fresh_sample, get_sample_handler,
}

-- The name of the socket fits into the event.
length-get_sock_path : (ticker : ℕ) → ltb (length (get_sock_path ticker)) 64 ≡ true
unfolding get_sock_path
length-get_sock_path ticker = lt→ltb _ _ (omega (arith, length-get_suffix ticker))

length-appended : (rs : List Request) (r : Request) → length (rs ++ (r ∷ [])) ≡ suc (length rs)
length-appended rs r = omega (arith, length-append rs (r ∷ []))

request_callback-sends :
    (ticker : ℕ) → request_callback (get_sock_path ticker) (pos 0) ≡ some (get_sock_path ticker)
unfolding request_callback
request_callback-sends ticker = rw (length-get_sock_path ticker)

-- A message for the precaptured sample in an enabled session of a music id client that delivers by
-- socket, without conversion, at a known frequency, from a queue of buffers that are as long as
-- they say and hold at most a second each, with a precapture of at most 120 seconds: the clip of
-- the oldest buffers that make up the precapture is appended to the outbox, the event with the name
-- of the socket is sent, and the result is success.
pub get_sample_handler-precaptured :
    (p : AudioProperties) (ticker duration : ℕ) (id : ℤ) (m : SessionMgr) (s : Session)
    (client : MusicIdClient) (h : Heap) (b : Buffer) (bs : List Buffer)
    → get_session id m.sessions ≡ some s
    → is_buffered s.output_type ≡ true
    → s.enable ≡ true
    → is_socket client.delivery_method ≡ true
    → client.convert_output ≡ false
    → is_known p.sampling_frequency ≡ true
    → load_all client.queue h ≡ ok (b ∷ bs)
    → AllFull (b ∷ bs)
    → AllShort (calculate_data_rate p) (b ∷ bs)
    → client.precapture_duration_seconds ≤ 120
    → (let rate = calculate_data_rate p in
        let seconds = client.precapture_duration_seconds in
        let clip = joined (covering (b ∷ bs) (pos (seconds * rate))) in
        let sent = client.outbox ++ (memory_sink (rate * suc seconds) clip ∷ []) in
        get_sample_handler p rate ticker id true duration m client h
        ≡ ok (record client { outbox = sent }, some (get_sock_path ticker), acm_result_success))
unfolding get_sample_handler grab_precaptured_sample grab
get_sample_handler-precaptured p ticker duration id m s client h b bs found music enabled socket
      plain known loads full short most =
    simp
      (
        found,
        music,
        enabled,
        socket,
        grab_to_outbox-covering p client.precapture_duration_seconds client h b bs plain known loads
            full short most,
        request_callback-sends ticker,
      )
      refl

appended :
    (duration : ℕ) (name : List ℕ) (client : MusicIdClient) (rate : ℕ)
    → length (grab_fresh_sample rate duration name (some 1) 0 client).0.requests
      ≡ suc (length client.requests)
unfolding grab_fresh_sample compute_queue_size
appended duration name client rate = length-appended client.requests _

-- A message for a fresh sample of at most 120 seconds in such a session, where the other clips and the
-- precapture are as short: the request is queued, the queue's limit has room for every pending clip,
-- and yet the message is answered with ACM_RESULT_GENERAL_FAILURE.
pub get_sample_handler-fresh :
    (p : AudioProperties) (ticker duration : ℕ) (id : ℤ) (m : SessionMgr) (s : Session)
    (client : MusicIdClient) (h : Heap)
    → get_session id m.sessions ≡ some s
    → is_buffered s.output_type ≡ true
    → s.enable ≡ true
    → duration ≤ 120
    → client.precapture_duration_seconds ≤ 120
    → AllWithin 120 client.requests
    → (client' : MusicIdClient) × (get_sample_handler p
          (calculate_data_rate p)
          ticker
          id
          false
          duration
          m
          client
          h
        ≡ ok (client', none, acm_result_general_failure))
      × (length client'.requests ≡ suc (length client.requests))
      × AllCovered (calculate_data_rate p) client'.queue_upper_limit_bytes client'.requests
unfolding get_sample_handler fresh_sample get_max_supported_duration
get_sample_handler-fresh p ticker duration id m s client h found music enabled short precapture
      within =
    let name = get_sock_path ticker in
    let (room, covered, kept, most, ret) =
      grab_fresh_sample-AllCovered (calculate_data_rate p) duration name (some 1) 0 client
        (calculate_data_rate-exact p).1 short precapture within in
    (
      (grab_fresh_sample (calculate_data_rate p) duration name (some 1) 0 client).0,
      simp (found, music, enabled, le→leb duration 120 short, ret) refl,
      appended duration name client (calculate_data_rate p),
      covered,
    )
