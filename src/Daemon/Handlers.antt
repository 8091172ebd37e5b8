-- ===== src/Daemon/Handlers.antt =====
-- What the handlers of the session manager do to the clients that are there, and to the data rate.
use rdk_audiocapturemgr.Audio.{u32}
use rdk_audiocapturemgr.Prelude.{
  ℕ, ◌≡◌, refl, [], ◌∷◌, ◌++◌, true, false, ◌||◌, if◌then◌else◌, arith, Bool-cases, Option-cases,
  inl, inr, suc,
}
use rdk_audiocapturemgr.Prelude.Int.{ℤ}
use rdk_audiocapturemgr.QMgr.{QMgr}
use rdk_audiocapturemgr.QMgr.Clients.{register_client, unregister_client}
use rdk_audiocapturemgr.Sessions.{
  OutputType, Session, SessionMgr, is_bad_source, is_unsupported, is_buffered, get_session,
  erase_session, erase_duplicate, find_duplicate, open_handler, close_handler, start_handler,
  stop_handler,
}
use rdk_audiocapturemgr.Daemon.Kinds.{
  client_kind, client_kind-set_enable, AllPrimary, AllPrimary-set_enable, AllPrimary-append,
  AllPrimary-erase_duplicate,
}

register_client-rate :
    (ret : ℤ) (c : ℕ) (q : QMgr) → (register_client ret c q).0.bytes_per_second ≡ q.bytes_per_second
unfolding register_client
register_client-rate ret c q = ground arith

unregister_client-rate :
    (ret : ℤ) (c : ℕ) (q : QMgr)
    → (unregister_client ret c q).0.bytes_per_second ≡ q.bytes_per_second
unfolding unregister_client
unregister_client-rate ret c q = ground arith

-- Starting and stopping a session neither adds nor removes a client.
pub start_handler-keeps :
    (ret id : ℤ) (m : SessionMgr)
    → (let m' = (start_handler ret id m).0 in
        ((c : ℕ) → client_kind c m'.sessions ≡ client_kind c m.sessions)
        × (m'.sources.bytes_per_second ≡ m.sources.bytes_per_second)
        × (m'.session_counter ≡ m.session_counter)
        × (AllPrimary m.sessions → AllPrimary m'.sessions))
unfolding start_handler
start_handler-keeps ret id m = elim (Option-cases (get_session id m.sessions)) [
  | inl missing ↦ rw missing ((λ c. refl), refl, refl, λ p. p)
  | inr (s, found) ↦ elim (Bool-cases s.enable) [
    | inl on ↦ rw (found, on) ((λ c. refl), refl, refl, λ p. p)
    | inr off ↦
        rw (found, off)
          (
            (λ c. client_kind-set_enable id true c m.sessions),
            register_client-rate ret s.client m.sources,
            refl,
            AllPrimary-set_enable id true m.sessions,
          )
  ]
]

pub stop_handler-keeps :
    (ret id : ℤ) (m : SessionMgr)
    → (let m' = (stop_handler ret id m).0 in
        ((c : ℕ) → client_kind c m'.sessions ≡ client_kind c m.sessions)
        × (m'.sources.bytes_per_second ≡ m.sources.bytes_per_second)
        × (m'.session_counter ≡ m.session_counter)
        × (AllPrimary m.sessions → AllPrimary m'.sessions))
unfolding stop_handler
stop_handler-keeps ret id m = elim (Option-cases (get_session id m.sessions)) [
  | inl missing ↦ rw missing ((λ c. refl), refl, refl, λ p. p)
  | inr (s, found) ↦ elim (Bool-cases s.enable) [
    | inr off ↦ rw (found, off) ((λ c. refl), refl, refl, λ p. p)
    | inl on ↦
        rw (found, on)
          (
            (λ c. client_kind-set_enable id false c m.sessions),
            unregister_client-rate ret s.client m.sources,
            refl,
            AllPrimary-set_enable id false m.sessions,
          )
  ]
]

pub close_handler-erases :
    (ret id : ℤ) (m : SessionMgr)
    → (let m' = (close_handler ret id m).0 in
        (m'.sessions ≡ erase_session id m.sessions)
        × (m'.sources.bytes_per_second ≡ m.sources.bytes_per_second)
        × (m'.session_counter ≡ m.session_counter))
unfolding close_handler
close_handler-erases ret id m = elim (Option-cases (get_session id m.sessions)) [
  | inl missing ↦ rw missing (refl, refl, refl)
  | inr (s, found) ↦ elim (Bool-cases s.enable) [
    | inr off ↦ rw (found, off) (refl, refl, refl)
    | inl on ↦ rw (found, on) (refl, unregister_client-rate ret s.client m.sources, refl)
  ]
]

abbrev pub opened_session : OutputType → SessionMgr → Session
opened_session output_type m = record {
  session_id = m.session_counter;
  client = m.next_client;
  source = 0;
  enable = false;
  output_type = output_type;
}

pub open_handler-appends :
    (ret source : ℤ) (output_type : OutputType) (m : SessionMgr)
    → (is_bad_source source || is_unsupported output_type) ≡ false
    → (let m' = (open_handler ret source output_type m).0 in
        (m'.sessions
          ≡ (if is_buffered output_type then erase_duplicate 0 m.sessions else m.sessions)
            ++ (opened_session output_type m ∷ []))
        × (m'.sources.bytes_per_second ≡ m.sources.bytes_per_second)
        × (m'.session_counter ≡ u32 (suc m.session_counter)))
unfolding open_handler
open_handler-appends ret source output_type m fine = elim (Bool-cases (is_buffered output_type)) [
  | inr socket ↦ rw (fine, socket) (refl, refl, refl)
  | inl music ↦ elim (Option-cases (find_duplicate 0 m.sessions)) [
    | inl alone ↦ rw (fine, music, alone) (refl, refl, refl)
    | inr (s, found) ↦
        rw (fine, music, found) (refl, unregister_client-rate ret s.client m.sources, refl)
  ]
]

-- A new session is of the one source, too.
pub opened-AllPrimary :
    (output_type : OutputType) (m : SessionMgr)
    → AllPrimary m.sessions
    → AllPrimary (
        (if is_buffered output_type then erase_duplicate 0 m.sessions else m.sessions)
        ++ (opened_session output_type m ∷ []))
opened-AllPrimary output_type m p =
    AllPrimary-append _ (opened_session output_type m)
      (ground (arith, AllPrimary-erase_duplicate m.sessions p)) refl
