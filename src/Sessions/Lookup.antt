-- ===== src/Sessions/Lookup.antt =====
-- What a handler answers, and what the session is afterwards.
use rdk_audiocapturemgr.Prelude.{
  ℕ, ◌≡◌, refl, none, some, List, [], ◌∷◌, Bool, true, false, arith, ==_iff, Bool-cases, inl, inr,
}
use rdk_audiocapturemgr.Prelude.Int.{ℤ, pos}
use rdk_audiocapturemgr.Sessions.{
  Session, SessionMgr, get_session, erase_session, set_enable, close_handler, start_handler,
  stop_handler, acm_result_success, acm_result_bad_session_id,
}
use rdk_audiocapturemgr.Sessions.Registered.{AllApart, has_id}
use rdk_audiocapturemgr.Sessions.Valid.{IsValid, erase_nothing}

get_session-set_enable :
    (id : ℤ) (b : Bool) (s : Session) (ss : List Session)
    → get_session id ss ≡ some s
    → get_session id (set_enable id b ss) ≡ some (record s { enable = b })
unfolding get_session set_enable
get_session-set_enable id b s [] e = cc
get_session-set_enable id b s (x ∷ ss) e = ground (arith, get_session-set_enable id b s ss)

get_session-has_id :
    (id : ℕ) (ss : List Session) → has_id id ss ≡ false → get_session (pos id) ss ≡ none
unfolding get_session
get_session-has_id id [] h = refl
get_session-has_id id (x ∷ ss) h = ground (arith, get_session-has_id id ss)

get_session-erase_session :
    (id : ℕ) (ss : List Session)
    → AllApart ss
    → get_session (pos id) (erase_session (pos id) ss) ≡ none
unfolding get_session erase_session
get_session-erase_session id [] a = refl
get_session-erase_session id (x ∷ ss) (ids, clients, a) = ground (
  arith,
  get_session-erase_session id ss a,
  get_session-has_id id ss,
  ids,
  ==_iff id x.session_id,
)

-- For an id that no session has, the handlers that start, stop and close answer
-- ACM_RESULT_BAD_SESSION_ID and change nothing.
pub handlers-bad_session_id :
    (ret id : ℤ) (m : SessionMgr)
    → get_session id m.sessions ≡ none
    → (start_handler ret id m ≡ (m, acm_result_bad_session_id))
      × (stop_handler ret id m ≡ (m, acm_result_bad_session_id))
      × (close_handler ret id m ≡ (m, acm_result_bad_session_id))
unfolding start_handler stop_handler close_handler
handlers-bad_session_id ret id m missing =
    (rw missing refl, rw missing refl, rw (missing, erase_nothing id m.sessions missing) refl)

-- For the id of a session in a valid state the handlers answer success; after the start the session is
-- there and enabled, after the stop there and disabled, and after the close it is gone.
pub handlers-get_session :
    (ret : ℤ) (id : ℕ) (m : SessionMgr) (s : Session)
    → IsValid m
    → get_session (pos id) m.sessions ≡ some s
    → (let started = start_handler ret (pos id) m in
        let stopped = stop_handler ret (pos id) m in
        let closed = close_handler ret (pos id) m in
        (get_session (pos id) started.0.sessions ≡ some (record s { enable = true }))
        × (get_session (pos id) stopped.0.sessions ≡ some (record s { enable = false }))
        × (get_session (pos id) closed.0.sessions ≡ none)
        × (started.1 ≡ acm_result_success)
        × (stopped.1 ≡ acm_result_success)
        × (closed.1 ≡ acm_result_success))
unfolding start_handler stop_handler close_handler
handlers-get_session ret id m s v found = elim (Bool-cases s.enable) [
  | inl on ↦ (
    rw (found, on) (ground (arith, found)),
    rw (found, on) (get_session-set_enable (pos id) false s m.sessions found),
    rw (found, on) (get_session-erase_session id m.sessions v.apart.0),
    rw found refl,
    rw found refl,
    rw found refl,
  )
  | inr off ↦ (
    rw (found, off) (get_session-set_enable (pos id) true s m.sessions found),
    rw (found, off) (ground (arith, found)),
    rw (found, off) (get_session-erase_session id m.sessions v.apart.0),
    rw found refl,
    rw found refl,
    rw found refl,
  )
]
