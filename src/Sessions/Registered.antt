-- ===== src/Sessions/Registered.antt =====
-- Which clients the queue manager has while sessions are opened, started, stopped and closed.
use rdk_audiocapturemgr.Prelude.{
  ℕ, ◌<◌, ◌≡◌, refl, some, List, [], ◌∷◌, Bool, true, false, not, ◌==◌, ◌&&◌, ◌||◌, if◌then◌else◌,
  arith, ==_iff,
}
use rdk_audiocapturemgr.Prelude.Int.{ℤ}
use rdk_audiocapturemgr.QMgr.{QMgr}
use rdk_audiocapturemgr.QMgr.Clients.{mem, register_client, unregister_client, start, stop}
use rdk_audiocapturemgr.QMgr.Registry.{mem-append, mem-remove}
use rdk_audiocapturemgr.Sessions.{
  Session, get_session, erase_session, set_enable, find_duplicate, erase_duplicate,
}

-- Whether an enabled session has the client c.
abbrev pub enabled : ℕ → List Session → Bool
enabled c [] = false
enabled c (s ∷ ss) = s.enable && c == s.client || enabled c ss

-- Distinct ids below m and distinct clients below n.
abbrev pub AllNew : List Session → ℕ → ℕ → Type 0
AllNew [] m n = Unit {0}
AllNew (s ∷ ss) m n = (s.session_id < m) × (s.client < n) × AllNew ss m n

abbrev pub has_id : ℕ → List Session → Bool
has_id i [] = false
has_id i (s ∷ ss) = i == s.session_id || has_id i ss

abbrev pub has_client : ℕ → List Session → Bool
has_client c [] = false
has_client c (s ∷ ss) = c == s.client || has_client c ss

abbrev pub AllApart : List Session → Type 0
AllApart [] = Unit {0}
AllApart (s ∷ ss) =
    (has_id s.session_id ss ≡ false) × (has_client s.client ss ≡ false) × AllApart ss

pub mem-register_client :
    (ret : ℤ) (c d : ℕ) (q : QMgr)
    → mem d (register_client ret c q).0.clients ≡ (mem d q.clients || d == c)
unfolding register_client start
mem-register_client ret c d q = ground (arith, mem-append c d q.clients, ==_iff d c)

pub mem-unregister_client :
    (ret : ℤ) (c d : ℕ) (q : QMgr)
    → mem d (unregister_client ret c q).0.clients ≡ (not (d == c) && mem d q.clients)
unfolding unregister_client stop
mem-unregister_client ret c d q = ground (arith, mem-remove c d q.clients)

enabled-has_client : (c : ℕ) (ss : List Session) → has_client c ss ≡ false → enabled c ss ≡ false
enabled-has_client c [] h = refl
enabled-has_client c (s ∷ ss) h = ground (arith, enabled-has_client c ss)

get_session-has_client :
    (id : ℤ) (s : Session) (ss : List Session)
    → get_session id ss ≡ some s
    → has_client s.client ss ≡ true
unfolding get_session
get_session-has_client id s [] e = cc
get_session-has_client id s (x ∷ ss) e =
    ground (arith, get_session-has_client id s ss, ==_iff s.client x.client)

pub enabled-get_session :
    (id : ℤ) (s : Session) (ss : List Session)
    → AllApart ss
    → get_session id ss ≡ some s
    → enabled s.client ss ≡ s.enable
unfolding get_session
enabled-get_session id s [] a e = cc
enabled-get_session id s (x ∷ ss) (ids, clients, a) e = ground (
  arith,
  enabled-get_session id s ss a,
  get_session-has_client id s ss,
  enabled-has_client x.client ss clients,
  ==_iff s.client x.client,
)

pub enabled-set_enable :
    (id : ℤ) (b : Bool) (c : ℕ) (s : Session) (ss : List Session)
    → AllApart ss
    → get_session id ss ≡ some s
    → enabled c (set_enable id b ss) ≡ (if c == s.client then b else enabled c ss)
unfolding get_session set_enable
enabled-set_enable id b c s [] a e = cc
enabled-set_enable id b c s (x ∷ ss) (ids, clients, a) e = ground (
  arith,
  enabled-set_enable id b c s ss a,
  get_session-has_client id s ss,
  enabled-has_client x.client ss clients,
  ==_iff c x.client,
  ==_iff c s.client,
)

pub enabled-erase_session :
    (id : ℤ) (c : ℕ) (s : Session) (ss : List Session)
    → AllApart ss
    → get_session id ss ≡ some s
    → enabled c (erase_session id ss) ≡ (not (c == s.client) && enabled c ss)
unfolding get_session erase_session
enabled-erase_session id c s [] a e = cc
enabled-erase_session id c s (x ∷ ss) (ids, clients, a) e = ground (
  arith,
  enabled-erase_session id c s ss a,
  get_session-has_client id s ss,
  enabled-has_client x.client ss clients,
  ==_iff c x.client,
  ==_iff c s.client,
)

find_duplicate-has_client :
    (source : ℕ) (s : Session) (ss : List Session)
    → find_duplicate source ss ≡ some s
    → has_client s.client ss ≡ true
unfolding find_duplicate
find_duplicate-has_client source s [] e = cc
find_duplicate-has_client source s (x ∷ ss) e =
    ground (arith, find_duplicate-has_client source s ss, ==_iff s.client x.client)

pub enabled-erase_duplicate :
    (source : ℕ) (c : ℕ) (s : Session) (ss : List Session)
    → AllApart ss
    → find_duplicate source ss ≡ some s
    → enabled c (erase_duplicate source ss) ≡ (not (c == s.client) && enabled c ss)
unfolding find_duplicate erase_duplicate
enabled-erase_duplicate source c s [] a e = cc
enabled-erase_duplicate source c s (x ∷ ss) (ids, clients, a) e = ground (
  arith,
  enabled-erase_duplicate source c s ss a,
  find_duplicate-has_client source s ss,
  enabled-has_client x.client ss clients,
  ==_iff c x.client,
  ==_iff c s.client,
)
