-- ===== src/Sessions/Valid.antt =====
-- What the handlers of the session manager keep true, in any order of calls.
use rdk_audiocapturemgr.Audio.{u32}
use rdk_audiocapturemgr.Prelude.{
  ℕ, ◌≤◌, ◌≡◌, refl, none, List, [], ◌∷◌, true, false, ◌||◌, arith, ==_iff, inl, inr, Bool-cases,
  Option-cases, suc, ◌+◌, ◌^◌, ◌<◌,
}
use rdk_audiocapturemgr.Prelude.Int.{ℤ}
use rdk_audiocapturemgr.QMgr.Clients.{mem}
use rdk_audiocapturemgr.Sessions.{
  Session, SessionMgr, OutputType, get_session, erase_session, is_buffered, find_duplicate,
  erase_duplicate, open_handler, close_handler, start_handler, stop_handler, is_bad_source,
  is_unsupported, destroy_duplicate,
}
use rdk_audiocapturemgr.Sessions.Registered.{
  enabled, mem-register_client, mem-unregister_client, enabled-get_session, enabled-set_enable,
  enabled-erase_session, enabled-erase_duplicate,
}
use rdk_audiocapturemgr.Sessions.Apart.{
  IsApart, music_count, erase_session-IsApart, erase_duplicate-IsApart, set_enable-IsApart,
  append-IsApart, enabled-append, music_count-append, music_count-erase_duplicate,
  music_count-erase_session, music_count-set_enable, music_count-none,
}

-- Ids and clients are apart, the queue manager has exactly the clients of the enabled sessions, and
-- there is at most one session of a music id client.
pub record IsValid (m : SessionMgr) : Type 0 where
  pub apart : IsApart m.sessions m.session_counter m.next_client
  pub registered : (c : ℕ) → mem c m.sources.clients ≡ enabled c m.sessions
  pub one_music : music_count m.sessions ≤ 1

pub start_handler-IsValid :
    (ret id : ℤ) (m : SessionMgr) → IsValid m → IsValid (start_handler ret id m).0
unfolding start_handler
start_handler-IsValid ret id m v = elim (Option-cases (get_session id m.sessions)) [
  | inl missing ↦ rw missing v
  | inr (s, found) ↦ elim (Bool-cases s.enable) [
    | inl on ↦ rw (found, on) v
    | inr off ↦
        rw (found, off)
          (record {
            apart = set_enable-IsApart id true m.sessions m.session_counter m.next_client v.apart;
            registered = λ c. ground (
              arith,
              mem-register_client ret s.client c m.sources,
              enabled-set_enable id true c s m.sessions v.apart.0 found,
              v.registered c,
            );
            one_music = omega (arith, music_count-set_enable id true m.sessions, v.one_music);
          })
  ]
]

pub stop_handler-IsValid :
    (ret id : ℤ) (m : SessionMgr) → IsValid m → IsValid (stop_handler ret id m).0
unfolding stop_handler
stop_handler-IsValid ret id m v = elim (Option-cases (get_session id m.sessions)) [
  | inl missing ↦ rw missing v
  | inr (s, found) ↦ elim (Bool-cases s.enable) [
    | inr off ↦ rw (found, off) v
    | inl on ↦
        rw (found, on)
          (record {
            apart = set_enable-IsApart id false m.sessions m.session_counter m.next_client v.apart;
            registered = λ c. ground (
              arith,
              mem-unregister_client ret s.client c m.sources,
              enabled-set_enable id false c s m.sessions v.apart.0 found,
              v.registered c,
            );
            one_music = omega (arith, music_count-set_enable id false m.sessions, v.one_music);
          })
  ]
]

pub erase_nothing :
    (id : ℤ) (ss : List Session) → get_session id ss ≡ none → erase_session id ss ≡ ss
unfolding get_session erase_session
erase_nothing id [] e = refl
erase_nothing id (s ∷ ss) e = ground (arith, erase_nothing id ss)

pub close_handler-IsValid :
    (ret id : ℤ) (m : SessionMgr) → IsValid m → IsValid (close_handler ret id m).0
unfolding close_handler
close_handler-IsValid ret id m v = elim (Option-cases (get_session id m.sessions)) [
  | inl missing ↦ rw (missing, erase_nothing id m.sessions missing) v
  | inr (s, found) ↦
      let apart = erase_session-IsApart id m.sessions m.session_counter m.next_client v.apart in
      let one = music_count-erase_session id m.sessions in
      elim (Bool-cases s.enable) [
        | inl on ↦
            rw (found, on)
              (record {
                apart = apart;
                registered = λ c. ground (
                  arith,
                  mem-unregister_client ret s.client c m.sources,
                  enabled-erase_session id c s m.sessions v.apart.0 found,
                  v.registered c,
                );
                one_music = omega (arith, one, v.one_music);
              })
        | inr off ↦
            rw (found, off)
              (record {
                apart = apart;
                registered = λ c. ground (
                  arith,
                  enabled-get_session id s m.sessions v.apart.0 found,
                  enabled-erase_session id c s m.sessions v.apart.0 found,
                  v.registered c,
                  ==_iff c s.client,
                );
                one_music = omega (arith, one, v.one_music);
              })
      ]
]

pub open_handler-IsValid :
    (ret source : ℤ) (output_type : OutputType) (m : SessionMgr)
    → m.session_counter + 1 < 2 ^ 31
    → IsValid m
    → IsValid (open_handler ret source output_type m).0
unfolding open_handler destroy_duplicate
open_handler-IsValid ret source output_type m room v =
    let next : u32 (suc m.session_counter) ≡ suc m.session_counter = ground arith in
    elim (Bool-cases (is_bad_source source || is_unsupported output_type)) [
      | inl refused ↦ rw refused v
      | inr fine ↦
          let new : Session = record {
            session_id = m.session_counter;
            client = m.next_client;
            source = 0;
            enable = false;
            output_type = output_type;
          } in
          elim (Bool-cases (is_buffered output_type)) [
            | inr socket ↦
                rw (fine, socket, next)
                  (record {
                    apart = append-IsApart m.sessions new v.apart;
                    registered =
                        λ c. ground (arith, enabled-append c m.sessions new refl, v.registered c);
                    one_music = ground (arith, music_count-append m.sessions new, v.one_music);
                  })
            | inl music ↦ elim (Option-cases (find_duplicate 0 m.sessions)) [
              | inl alone ↦
                  let (none_before, kept) = music_count-none m.sessions alone in
                  rw (fine, music, alone, kept, next)
                    (record {
                      apart = append-IsApart m.sessions new v.apart;
                      registered =
                          λ c. ground (arith, enabled-append c m.sessions new refl, v.registered c);
                      one_music = ground (arith, music_count-append m.sessions new, none_before);
                    })
              | inr (s, found) ↦
                  rw (fine, music, found, next)
                    (record {
                      apart = append-IsApart (erase_duplicate 0 m.sessions) new (
                          erase_duplicate-IsApart 0 m.sessions m.session_counter m.next_client
                            v.apart);
                      registered = λ c. ground (
                        arith,
                        mem-unregister_client ret s.client c m.sources,
                        enabled-append c (erase_duplicate 0 m.sessions) new refl,
                        enabled-erase_duplicate 0 c s m.sessions v.apart.0 found,
                        v.registered c,
                      );
                      one_music = ground (
                        arith,
                        music_count-append (erase_duplicate 0 m.sessions) new,
                        music_count-erase_duplicate m.sessions,
                        v.one_music,
                      );
                    })
            ]
          ]
    ]
