-- ===== src/Daemon/Opened.antt =====
-- Opening a session, with the client that it creates and the one that it may take the place of.
use rdk_audiocapturemgr.Prelude.{
  ap, ℕ, ◌≡◌, ◌∙◌, refl, Option, none, some, [], ◌∷◌, ◌++◌, Bool, true, ok, ◌||◌, if◌then◌else◌,
  arith, Bool-cases, inl, inr, sym, ==_iff, ◌+◌, ◌<◌, ◌^◌,
}
use rdk_audiocapturemgr.Prelude.Int.{ℤ}
use rdk_audiocapturemgr.Sessions.{
  OutputType, Session, SessionMgr, is_bad_source, is_unsupported, is_buffered, erase_duplicate,
  find_duplicate, open_handler,
}
use rdk_audiocapturemgr.Sessions.Valid.{open_handler-IsValid}
use rdk_audiocapturemgr.Sessions.Apart.{music_count-none, erase_duplicate-IsApart}
use rdk_audiocapturemgr.Daemon.{Daemon, Outside, put, delete_client}
use rdk_audiocapturemgr.Daemon.Kinds.{
  client_kind, AllNew-absent, client_kind-absent, client_kind-append, client_kind-find_duplicate,
  client_kind-erase_duplicate,
}
use rdk_audiocapturemgr.Daemon.Handlers.{open_handler-appends, opened-AllPrimary, opened_session}
use rdk_audiocapturemgr.Daemon.Messages.{handle, opens, open_message, duplicate_of}
use rdk_audiocapturemgr.Daemon.Populated.{Populated, Populated-kinds, put_kind}
use rdk_audiocapturemgr.Daemon.Objects.{Works, create_client-Populated, delete_found-Populated}
use rdk_audiocapturemgr.Daemon.Valid.{IsValid, Answers}

-- The kinds of client with one more at a new address.
abbrev with_new : OutputType → SessionMgr → ℕ → Option Bool
with_new output_type m =
    put_kind m.next_client (some (is_buffered output_type)) (λ c. client_kind c m.sessions)

-- Nothing is replaced.
appended_kinds :
    (output_type : OutputType) (d : Daemon) (c : ℕ)
    → IsValid d
    → with_new output_type d.mgr c
      ≡ client_kind c (d.mgr.sessions ++ (opened_session output_type d.mgr ∷ []))
appended_kinds output_type d c v =
    let new =
      AllNew-absent d.mgr.session_counter d.mgr.next_client d.mgr.sessions v.sessions.apart.1 in
    sym (client_kind-append c d.mgr.sessions (opened_session output_type d.mgr) new)

-- A music id session is replaced.
replaced_kinds :
    (output_type : OutputType) (d : Daemon) (s : Session) (c : ℕ)
    → IsValid d
    → find_duplicate 0 d.mgr.sessions ≡ some s
    → put_kind s.client none (with_new output_type d.mgr) c
      ≡ client_kind c (erase_duplicate 0 d.mgr.sessions ++ (opened_session output_type d.mgr ∷ []))
replaced_kinds output_type d s c v found =
    let ss = d.mgr.sessions in
    let new = AllNew-absent d.mgr.session_counter d.mgr.next_client ss v.sessions.apart.1 in
    let apart =
      erase_duplicate-IsApart 0 ss d.mgr.session_counter d.mgr.next_client v.sessions.apart in
    let still =
      AllNew-absent d.mgr.session_counter d.mgr.next_client (erase_duplicate 0 ss) apart.1 in
    ground (
      arith,
      client_kind-append c (erase_duplicate 0 ss) (opened_session output_type d.mgr) still,
      client_kind-erase_duplicate c s ss v.sessions.apart.0 found,
      client_kind-find_duplicate s ss v.sessions.apart.0 found,
      client_kind-absent d.mgr.next_client ss new,
      ==_iff c s.client,
      ==_iff c d.mgr.next_client,
    )

-- The duplicate's client is still there when the new one is.
duplicate_there :
    (output_type : OutputType) (d : Daemon) (s : Session)
    → IsValid d
    → find_duplicate 0 d.mgr.sessions ≡ some s
    → with_new output_type d.mgr s.client ≡ some true
duplicate_there output_type d s v found =
    let ss = d.mgr.sessions in
    let new = AllNew-absent d.mgr.session_counter d.mgr.next_client ss v.sessions.apart.1 in
    ground (
      arith,
      client_kind-find_duplicate s ss v.sessions.apart.0 found,
      client_kind-absent d.mgr.next_client ss new,
      ==_iff s.client d.mgr.next_client,
    )

-- The sessions that stay, where there is no duplicate and where there is one.
kept_without :
    (output_type : OutputType) (m : SessionMgr)
    → duplicate_of output_type m ≡ none
    → (if is_buffered output_type then erase_duplicate 0 m.sessions else m.sessions) ≡ m.sessions
kept_without output_type m none_found = elim (Bool-cases (is_buffered output_type)) [
  | inr socket ↦ rw socket refl
  | inl music ↦ rw music ((music_count-none m.sessions (rw music at none_found)).1)
]

duplicate_found :
    (output_type : OutputType) (m : SessionMgr) (s : Session)
    → duplicate_of output_type m ≡ some s
    → (is_buffered output_type ≡ true) × (find_duplicate 0 m.sessions ≡ some s)
duplicate_found output_type m s e = elim (Bool-cases (is_buffered output_type)) [
  | inl music ↦ (music, rw music at e)
  | inr socket ↦ absurd (ground (arith, socket, e))
]

abbrev Replaces : Bool → Option Session → Daemon → SessionMgr → Type 0
Replaces sent x d m =
    (d' : Daemon) × (delete_client sent x d ≡ ok d')
    × (d'.mgr ≡ m)
    × Populated (λ c. client_kind c m.sessions) d'.objects d'.heap

delete_duplicate :
    (sent : Bool) (output_type : OutputType) (d d₁ : Daemon) (m : SessionMgr) (x : Option Session)
    → duplicate_of output_type d.mgr ≡ x
    → IsValid d
    → Populated (with_new output_type d.mgr) d₁.objects d₁.heap
    → m.sessions
      ≡ (if is_buffered output_type then erase_duplicate 0 d.mgr.sessions else d.mgr.sessions)
        ++ (opened_session output_type d.mgr ∷ [])
    → Replaces sent x (record d₁ { mgr = m }) m
unfolding delete_client
delete_duplicate sent output_type d d₁ m none nobody v populated left =
    let left' = rw (kept_without output_type d.mgr nobody) at left in
    (
      record d₁ { mgr = m },
      refl,
      refl,
      Populated-kinds (with_new output_type d.mgr) (λ c. client_kind c m.sessions) d₁.objects
          d₁.heap (λ c. appended_kinds output_type d c v ∙ ap (client_kind c) (sym left'))
          populated,
    )
delete_duplicate sent output_type d d₁ m (some s) e v populated left =
    let (music, found) = duplicate_found output_type d.mgr s e in
    let (h', deleted, freed, populated') =
      delete_found-Populated sent s.client (record d₁ { mgr = m }) (with_new output_type d.mgr) true
        (d₁.objects s.client) refl (duplicate_there output_type d s v found) populated in
    (
      record d₁ { mgr = m; objects = put s.client none d₁.objects; heap = h' },
      deleted,
      refl,
      Populated-kinds (put_kind s.client none (with_new output_type d.mgr))
          (λ c. client_kind c m.sessions) (put s.client none d₁.objects) h'
          (λ c.
            replaced_kinds output_type d s c v found ∙ ap (client_kind c) (sym (rw music at left)))
          populated',
    )

-- Opening a session creates its client; if that is a music id client, the one before is deleted with
-- its buffers.
pub open-Answers :
    (o : Outside) (source : ℤ) (output_type : OutputType) (d : Daemon)
    → Works o
    → d.mgr.session_counter + 1 < 2 ^ 31
    → IsValid d
    → Answers d (handle o (opens source output_type) d)
unfolding handle open_message
open-Answers o source output_type d works room v =
    elim (Bool-cases (is_bad_source source || is_unsupported output_type)) [
      | inl refused ↦
          (d, (open_handler o.stop_ret source output_type d.mgr).1, rw refused refl, v, omega arith)
      | inr fine ↦
          let (m, ret, id) = open_handler o.stop_ret source output_type d.mgr in
          let (left, rate, count) = open_handler-appends o.stop_ret source output_type d.mgr fine in
          let sessions = open_handler-IsValid o.stop_ret source output_type d.mgr room v.sessions in
          let new =
            AllNew-absent d.mgr.session_counter d.mgr.next_client d.mgr.sessions
              v.sessions.apart.1 in
          let (d₁, created, same, populated) =
            create_client-Populated o (is_buffered output_type) d
              (λ c. client_kind c d.mgr.sessions) works v.rate
              (client_kind-absent d.mgr.next_client d.mgr.sessions new) v.populated in
          let (d₂, deleted, mgr, populated') =
            delete_duplicate o.sent output_type d d₁ m (duplicate_of output_type d.mgr) refl v
              populated left in
          (
            d₂,
            ret,
            rw (fine, created, deleted) refl,
            record {
              sessions = rw mgr sessions;
              primary = rw (mgr, left) (opened-AllPrimary output_type d.mgr v.primary);
              rate = rw (mgr, rate) v.rate;
              populated = rw mgr populated';
            },
            ground (arith, mgr, count),
          )
    ]
