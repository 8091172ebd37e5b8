-- ===== src/IarmInterface/Sessions.antt =====
-- The interface of one client against the sessions that came after it.
use rdk_audiocapturemgr.Prelude.{
  ℕ, ◌<◌, ◌≡◌, ◌∙◌, refl, some, true, false, not, ok, ◌==◌, ltb, if◌then◌else◌, arith, Bool-cases,
  inl, inr, lt→ltb,
}
use rdk_audiocapturemgr.Prelude.Int.{ℤ}
use rdk_audiocapturemgr.Buffer.{Heap}
use rdk_audiocapturemgr.QMgr.Clients.{get_data_rate}
use rdk_audiocapturemgr.Music.{MusicIdClient, get_max_supported_duration, set_precapture_duration}
use rdk_audiocapturemgr.Sessions.{
  Session, SessionMgr, is_buffered, get_session, start_handler, stop_handler, acm_result_success,
}
use rdk_audiocapturemgr.Sessions.Handlers.{set_output_props_handler}
use rdk_audiocapturemgr.IarmInterface.{
  AcmIarmInterface, World, switch_capture, enable_capture_handler,
}

-- What the sessions do for a duration: they take it over, and then start or stop.
abbrev pub switched : ℤ → ℤ → ℕ → ℤ → SessionMgr → SessionMgr
switched start_ret stop_ret duration id m =
    if duration == 0 then (stop_handler stop_ret id m).0 else (start_handler start_ret id m).0

module _ (start_ret stop_ret : ℤ) (duration : ℕ) (i : AcmIarmInterface) (w : World) (id : ℤ)
    (m : SessionMgr) (s : Session) where
  switch_capture-switched :
      get_session id m.sessions ≡ some s
      → s.enable ≡ i.enable_audio_input
      → m.sources ≡ w.sources
      → (let (i', q) = switch_capture start_ret stop_ret duration s.client i w.sources in
          (q ≡ (switched start_ret stop_ret duration id m).sources)
          × (i'.enable_audio_input ≡ not (duration == 0)))
  unfolding switch_capture start_handler stop_handler
  switch_capture-switched found enabled same = elim (Bool-cases (duration == 0)) [
    | inl zero ↦ elim (Bool-cases i.enable_audio_input) [
      | inl on ↦
          let on' = enabled ∙ on in (rw (zero, on, found, on', same) refl, rw (zero, on) refl)
      | inr off ↦
          let off' = enabled ∙ off in (rw (zero, off, found, off', same) refl, rw (zero, off) refl)
    ]
    | inr some_time ↦ elim (Bool-cases i.enable_audio_input) [
      | inl on ↦
          let on' = enabled ∙ on in
          (rw (some_time, on, found, on', same) refl, rw (some_time, on) refl)
      | inr off ↦
          let off' = enabled ∙ off in
          (rw (some_time, off, found, off', same) refl, rw (some_time, off) refl)
    ]
  ]

  -- For a duration below 120 seconds, where changing the precapture duration returns, the handler of the
  -- interface does what two messages do to a session of the same client that is enabled as the
  -- interface is: the one that sets the output properties, and the one that stops the session for the
  -- duration 0 and starts it for another. Queue manager, client and buffers come out the same, both
  -- answer success, and the interface is enabled exactly if the duration is not 0.
  pub enable_capture_handler-session :
      (music : MusicIdClient) (heap : Heap)
      → i.client ≡ some s.client
      → get_session id m.sessions ≡ some s
      → is_buffered s.output_type ≡ true
      → s.enable ≡ i.enable_audio_input
      → m.sources ≡ w.sources
      → duration < 120
      → set_precapture_duration (get_data_rate w.sources) duration w.music w.heap ≡ ok (music, heap)
      → (i' : AcmIarmInterface) × (w' : World) × (enable_capture_handler start_ret stop_ret duration
            i w
          ≡ ok (i', w', acm_result_success))
        × (set_output_props_handler (get_data_rate m.sources) id duration m w.music w.heap
            ≡ ok (w'.music, w'.heap, acm_result_success))
        × (w'.sources ≡ (switched start_ret stop_ret duration id m).sources)
        × (i'.enable_audio_input ≡ not (duration == 0))
  unfolding enable_capture_handler set_output_props_handler get_max_supported_duration
  enable_capture_handler-session music heap client found kind enabled same short runs =
      let (i', q) = switch_capture start_ret stop_ret duration s.client i w.sources in
      let (sources, switches) = switch_capture-switched found enabled same in
      let fits : ltb 120 duration ≡ false = ground arith in
      (
        i',
        record { sources = q; music = music; heap = heap },
        rw (client, fits, runs) refl,
        rw (same, found, kind, lt→ltb duration 120 short, runs) refl,
        sources,
        switches,
      )
