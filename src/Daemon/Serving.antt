-- ===== src/Daemon/Serving.antt =====
-- The messages for the client of a session: its output properties, requests for samples, and the audio
-- properties.
use rdk_audiocapturemgr.Prelude.{
  Result, ap, ℕ, ◌≤◌, ◌≡◌, ◌∙◌, refl, Option, some, [], Bool, true, false, ◌==◌, if◌then◌else◌,
  arith, ltb, leb, Bool-cases, Option-cases, inl, inr, sym, ==_iff,
}
use rdk_audiocapturemgr.Prelude.Int.{ℤ, is_zero}
use rdk_audiocapturemgr.Buffer.{Heap}
use rdk_audiocapturemgr.Music.{MusicIdClient, get_max_supported_duration, grab_fresh_sample}
use rdk_audiocapturemgr.Music.Freed.{Freed}
use rdk_audiocapturemgr.Music.Owner.{set_precapture_duration-IsOwner, grab_fresh_sample-IsOwner}
use rdk_audiocapturemgr.Sessions.{
  Session, SessionMgr, is_buffered, get_session, acm_result_success, acm_result_general_failure,
  acm_result_bad_session_id, acm_result_unsupported_api, acm_result_duration_out_of_bounds,
}
use rdk_audiocapturemgr.Sessions.Handlers.{set_output_props_handler}
use rdk_audiocapturemgr.Sessions.Samples.{
  get_sample_handler, fresh_sample, get_sock_path, request_callback_address,
}
use rdk_audiocapturemgr.Daemon.{Daemon, MusicObject, Outside, music, put}
use rdk_audiocapturemgr.Daemon.Kinds.{client_kind, client_kind-get_session}
use rdk_audiocapturemgr.Daemon.Messages.{
  handle, sets_output, requests, set_output_message, get_sample_message, sample_of, call_music,
}
use rdk_audiocapturemgr.Daemon.Populated.{Populated-kinds, put_kind}
use rdk_audiocapturemgr.Daemon.Objects.{Calls, call_music-Populated}
use rdk_audiocapturemgr.Daemon.Valid.{IsValid, Answers}

-- Nothing is dropped.
untouched : (h : Heap) → Freed [] h h
untouched h = record { gone = λ p m. cc; kept = λ p m. refl; next_kept = refl }

set_output-Calls :
    (rate duration : ℕ) (id : ℤ) (mgr : SessionMgr) (s : Session)
    → rate ≤ 864000
    → get_session id mgr.sessions ≡ some s
    → is_buffered s.output_type ≡ true
    → Calls (λ m h. set_output_props_handler rate id duration mgr m.client h)
unfolding set_output_props_handler get_max_supported_duration
set_output-Calls rate duration id mgr s small found kind m h owner =
    elim (Bool-cases (ltb duration 120)) [
      | inl short ↦
          let (client, h', dropped, runs, split, freed, owner') =
            set_precapture_duration-IsOwner rate duration m.client h small (ground arith) owner in
          (
            client,
            h',
            dropped,
            acm_result_success,
            rw (found, kind, short, runs) refl,
            split,
            freed,
            owner',
          )
      | inr long ↦ (
        m.client,
        h,
        [],
        acm_result_duration_out_of_bounds,
        rw (found, kind, long) refl,
        refl,
        untouched h,
        owner,
      )
    ]

-- Requests for a fresh sample.
sample_of-Calls :
    (duration : ℕ) (id : ℤ) (mgr : SessionMgr) (s : Session)
    → mgr.sources.bytes_per_second ≤ 864000
    → get_session id mgr.sessions ≡ some s
    → is_buffered s.output_type ≡ true
    → Calls (sample_of id false duration mgr)
unfolding sample_of get_sample_handler fresh_sample get_max_supported_duration
sample_of-Calls duration id mgr s small found kind m h owner = elim (Bool-cases s.enable) [
  | inr off ↦ (
    m.client,
    h,
    [],
    acm_result_duration_out_of_bounds,
    rw (found, kind, off) refl,
    refl,
    untouched h,
    owner,
  )
  | inl on ↦ elim (Bool-cases (leb duration 120)) [
    | inr long ↦ (
      m.client,
      h,
      [],
      acm_result_duration_out_of_bounds,
      rw (found, kind, on, long) refl,
      refl,
      untouched h,
      owner,
    )
    | inl short ↦
        let path = get_sock_path m.ticker in
        let asked =
          grab_fresh_sample mgr.sources.bytes_per_second duration path request_callback_address 0
            m.client in
        let (same, owner') =
          grab_fresh_sample-IsOwner mgr.sources.bytes_per_second duration path
            request_callback_address 0 m.client h small (ground arith) owner in
        (
          asked.0,
          h,
          [],
          if is_zero asked.1 then acm_result_success else acm_result_general_failure,
          rw (found, kind, on, short) refl,
          sym same,
          untouched h,
          owner',
        )
  ]
]

pub put_kind_same :
    (a : ℕ) (k : Option Bool) (kinds : ℕ → Option Bool) (c : ℕ)
    → kinds a ≡ k
    → put_kind a k kinds c ≡ kinds c
put_kind_same a k kinds c e = elim (Bool-cases (c == a)) [
  | inl here ↦ rw here (sym (ap kinds ((==_iff c a).0 here) ∙ e))
  | inr away ↦ rw away refl
]

-- A call of the client of a music id session.
called-IsValid :
    (id : ℤ) (s : Session) (d : Daemon)
    (call : MusicObject → Heap → Result (MusicIdClient × Heap × ℤ))
    → get_session id d.mgr.sessions ≡ some s
    → is_buffered s.output_type ≡ true
    → Calls call
    → IsValid d
    → Answers d (call_music s.client call (d.objects s.client) d)
called-IsValid id s d call found kind calls v =
    let kinds : ℕ → Option Bool = λ c. client_kind c d.mgr.sessions in
    let there : kinds s.client ≡ some true =
      client_kind-get_session id s d.mgr.sessions v.sessions.apart.0 found ∙ ap some kind in
    let (new, h', ret, runs, populated) =
      call_music-Populated s.client call d kinds (d.objects s.client) calls refl there
        v.populated in
    (
      record d { objects = put s.client (some (music new)) d.objects; heap = h' },
      ret,
      runs,
      record {
        sessions = v.sessions;
        primary = v.primary;
        rate = v.rate;
        populated =
            Populated-kinds (put_kind s.client (some true) kinds) kinds
              (put s.client (some (music new)) d.objects) h'
              (λ c. put_kind_same s.client (some true) kinds c there) populated;
      },
      omega arith,
    )

pub set_output-Answers :
    (o : Outside) (id : ℤ) (duration : ℕ) (d : Daemon)
    → IsValid d
    → Answers d (handle o (sets_output id duration) d)
unfolding handle set_output_message
set_output-Answers o id duration d v = elim (Option-cases (get_session id d.mgr.sessions)) [
  | inl missing ↦ (d, acm_result_bad_session_id, rw missing refl, v, omega arith)
  | inr (s, found) ↦ elim (Bool-cases (is_buffered s.output_type)) [
    | inr socket ↦ (d, acm_result_unsupported_api, rw (found, socket) refl, v, omega arith)
    | inl kind ↦
        let (d', ret, runs, v', count) =
          called-IsValid id s d _ found kind
            (set_output-Calls d.mgr.sources.bytes_per_second duration id d.mgr s v.rate found kind)
            v in
        (d', ret, rw (found, kind) runs, v', count)
  ]
]

pub get_sample-Answers :
    (o : Outside) (id : ℤ) (duration : ℕ) (d : Daemon)
    → IsValid d
    → Answers d (handle o (requests id false duration) d)
unfolding handle get_sample_message
get_sample-Answers o id duration d v = elim (Option-cases (get_session id d.mgr.sessions)) [
  | inl missing ↦ (d, acm_result_bad_session_id, rw missing refl, v, omega arith)
  | inr (s, found) ↦ elim (Bool-cases (is_buffered s.output_type)) [
    | inr socket ↦ (d, acm_result_unsupported_api, rw (found, socket) refl, v, omega arith)
    | inl kind ↦
        let (d', ret, runs, v', count) =
          called-IsValid id s d _ found kind (sample_of-Calls duration id d.mgr s v.rate found kind)
            v in
        (d', ret, rw (found, kind) runs, v', count)
  ]
]
