-- ===== src/Sessions/Apart.antt =====
-- The list of sessions keeps its ids and clients apart.
use rdk_audiocapturemgr.Prelude.{
  ℕ, suc, ◌+◌, ◌-◌, ◌≤◌, ◌≡◌, refl, List, [], ◌∷◌, ◌++◌, Bool, false, ◌==◌, none, ◌||◌,
  if◌then◌else◌, arith, ==_iff,
}
use rdk_audiocapturemgr.Prelude.Int.{ℤ}
use rdk_audiocapturemgr.Sessions.{
  Session, erase_session, set_enable, is_duplicate, find_duplicate, erase_duplicate,
}
use rdk_audiocapturemgr.Sessions.Registered.{has_id, has_client, AllApart, AllNew, enabled}

-- The sessions of music id clients of the one source.
abbrev pub music_count : List Session → ℕ
music_count [] = 0
music_count (s ∷ ss) = (if is_duplicate 0 s then 1 else 0) + music_count ss

-- Ids and clients are apart, and below the counters m and n.
abbrev pub IsApart : List Session → ℕ → ℕ → Type 0
IsApart ss m n = AllApart ss × AllNew ss m n

has_id-erase_session :
    (id : ℤ) (i : ℕ) (ss : List Session)
    → has_id i ss ≡ false
    → has_id i (erase_session id ss) ≡ false
unfolding erase_session
has_id-erase_session id i [] h = refl
has_id-erase_session id i (s ∷ ss) h = ground (arith, has_id-erase_session id i ss)

has_client-erase_session :
    (id : ℤ) (i : ℕ) (ss : List Session)
    → has_client i ss ≡ false
    → has_client i (erase_session id ss) ≡ false
unfolding erase_session
has_client-erase_session id i [] h = refl
has_client-erase_session id i (s ∷ ss) h = ground (arith, has_client-erase_session id i ss)

pub erase_session-IsApart :
    (id : ℤ) (ss : List Session) (m n : ℕ) → IsApart ss m n → IsApart (erase_session id ss) m n
unfolding erase_session
erase_session-IsApart id [] m n a = (tt, tt)
erase_session-IsApart id (s ∷ ss) m n ((ids, clients, apart), (id_new, client_new, new)) = ground (
  arith,
  erase_session-IsApart id ss m n (apart, new),
  has_id-erase_session id s.session_id ss ids,
  has_client-erase_session id s.client ss clients,
  apart,
  new,
)

has_id-erase_duplicate :
    (source : ℕ) (i : ℕ) (ss : List Session)
    → has_id i ss ≡ false
    → has_id i (erase_duplicate source ss) ≡ false
unfolding erase_duplicate
has_id-erase_duplicate source i [] h = refl
has_id-erase_duplicate source i (s ∷ ss) h = ground (arith, has_id-erase_duplicate source i ss)

has_client-erase_duplicate :
    (source : ℕ) (i : ℕ) (ss : List Session)
    → has_client i ss ≡ false
    → has_client i (erase_duplicate source ss) ≡ false
unfolding erase_duplicate
has_client-erase_duplicate source i [] h = refl
has_client-erase_duplicate source i (s ∷ ss) h =
    ground (arith, has_client-erase_duplicate source i ss)

pub erase_duplicate-IsApart :
    (source : ℕ) (ss : List Session) (m n : ℕ)
    → IsApart ss m n
    → IsApart (erase_duplicate source ss) m n
unfolding erase_duplicate
erase_duplicate-IsApart source [] m n a = (tt, tt)
erase_duplicate-IsApart source (s ∷ ss) m n ((ids, clients, apart), (id_new, client_new, new)) =
    ground (
      arith,
      erase_duplicate-IsApart source ss m n (apart, new),
      has_id-erase_duplicate source s.session_id ss ids,
      has_client-erase_duplicate source s.client ss clients,
      apart,
      new,
    )

has_id-set_enable :
    (id : ℤ) (b : Bool) (i : ℕ) (ss : List Session)
    → has_id i ss ≡ false
    → has_id i (set_enable id b ss) ≡ false
unfolding set_enable
has_id-set_enable id b i [] h = refl
has_id-set_enable id b i (s ∷ ss) h = ground (arith, has_id-set_enable id b i ss)

has_client-set_enable :
    (id : ℤ) (b : Bool) (i : ℕ) (ss : List Session)
    → has_client i ss ≡ false
    → has_client i (set_enable id b ss) ≡ false
unfolding set_enable
has_client-set_enable id b i [] h = refl
has_client-set_enable id b i (s ∷ ss) h = ground (arith, has_client-set_enable id b i ss)

pub set_enable-IsApart :
    (id : ℤ) (b : Bool) (ss : List Session) (m n : ℕ)
    → IsApart ss m n
    → IsApart (set_enable id b ss) m n
unfolding set_enable
set_enable-IsApart id b [] m n a = (tt, tt)
set_enable-IsApart id b (s ∷ ss) m n ((ids, clients, apart), (id_new, client_new, new)) = ground (
  arith,
  set_enable-IsApart id b ss m n (apart, new),
  has_id-set_enable id b s.session_id ss ids,
  has_client-set_enable id b s.client ss clients,
  apart,
  new,
)

has_id-append :
    (i : ℕ) (ss : List Session) (s : Session)
    → has_id i (ss ++ (s ∷ [])) ≡ (has_id i ss || i == s.session_id)
has_id-append i [] s = ground arith
has_id-append i (x ∷ ss) s = ground (arith, has_id-append i ss s)

has_client-append :
    (c : ℕ) (ss : List Session) (s : Session)
    → has_client c (ss ++ (s ∷ [])) ≡ (has_client c ss || c == s.client)
has_client-append c [] s = ground arith
has_client-append c (x ∷ ss) s = ground (arith, has_client-append c ss s)

-- A session with the next id and the next client.
pub append-IsApart :
    (ss : List Session) (s : Session)
    → IsApart ss s.session_id s.client
    → IsApart (ss ++ (s ∷ [])) (suc s.session_id) (suc s.client)
append-IsApart [] s a = ((refl, refl, tt), (omega arith, omega arith, tt))
append-IsApart (x ∷ ss) s ((ids, clients, apart), (id_new, client_new, new)) =
    let rest = append-IsApart ss s (apart, new) in
    (
      (
        ground (arith, has_id-append x.session_id ss s, ids, ==_iff x.session_id s.session_id),
        ground (arith, has_client-append x.client ss s, clients, ==_iff x.client s.client),
        rest.0,
      ),
      (omega arith, omega arith, rest.1),
    )

pub enabled-append :
    (c : ℕ) (ss : List Session) (s : Session)
    → s.enable ≡ false
    → enabled c (ss ++ (s ∷ [])) ≡ enabled c ss
enabled-append c [] s off = ground arith
enabled-append c (x ∷ ss) s off = ground (arith, enabled-append c ss s off)

pub music_count-append :
    (ss : List Session) (s : Session)
    → music_count (ss ++ (s ∷ [])) ≡ music_count ss + (if is_duplicate 0 s then 1 else 0)
music_count-append [] s = ground arith
music_count-append (x ∷ ss) s = omega (arith, music_count-append ss s)

pub music_count-erase_duplicate :
    (ss : List Session) → music_count (erase_duplicate 0 ss) ≡ music_count ss - 1
unfolding erase_duplicate
music_count-erase_duplicate [] = omega arith
music_count-erase_duplicate (s ∷ ss) = ground (arith, music_count-erase_duplicate ss)

pub music_count-erase_session :
    (id : ℤ) (ss : List Session) → music_count (erase_session id ss) ≤ music_count ss
unfolding erase_session
music_count-erase_session id [] = omega arith
music_count-erase_session id (s ∷ ss) = ground (arith, music_count-erase_session id ss)

pub music_count-set_enable :
    (id : ℤ) (b : Bool) (ss : List Session) → music_count (set_enable id b ss) ≡ music_count ss
unfolding set_enable
music_count-set_enable id b [] = refl
music_count-set_enable id b (s ∷ ss) = ground (arith, music_count-set_enable id b ss)

pub music_count-none :
    (ss : List Session)
    → find_duplicate 0 ss ≡ none
    → (music_count ss ≡ 0) × (erase_duplicate 0 ss ≡ ss)
unfolding find_duplicate erase_duplicate
music_count-none [] e = (refl, refl)
music_count-none (s ∷ ss) e = ground (arith, music_count-none ss)
