-- ===== src/Daemon/Kinds.antt =====
-- Which clients the sessions have, and of which class.
use rdk_audiocapturemgr.Prelude.{
  ℕ, ◌≤◌, ◌≡◌, refl, Option, none, some, List, [], ◌∷◌, ◌++◌, Bool, true, false, ◌==◌,
  if◌then◌else◌, arith, ==_iff,
}
use rdk_audiocapturemgr.Prelude.Int.{ℤ}
use rdk_audiocapturemgr.Sessions.{
  Session, is_buffered, get_session, erase_session, set_enable, find_duplicate, erase_duplicate,
}
use rdk_audiocapturemgr.Sessions.Registered.{AllApart, AllNew, has_client}
use rdk_audiocapturemgr.Sessions.Apart.{music_count}

-- Whether the session with the client c is a music id session, if there is one.
abbrev pub client_kind : ℕ → List Session → Option Bool
client_kind c [] = none
client_kind c (s ∷ ss) =
    if c == s.client then some (is_buffered s.output_type) else client_kind c ss

-- All sessions are of the one source.
abbrev pub AllPrimary : List Session → Type 0
AllPrimary [] = Unit {0}
AllPrimary (s ∷ ss) = (s.source ≡ 0) × AllPrimary ss

pub client_kind-absent :
    (c : ℕ) (ss : List Session) → has_client c ss ≡ false → client_kind c ss ≡ none
client_kind-absent c [] absent = refl
client_kind-absent c (s ∷ ss) absent = ground (arith, client_kind-absent c ss)

pub AllNew-absent : (m n : ℕ) (ss : List Session) → AllNew ss m n → has_client n ss ≡ false
AllNew-absent m n [] new = refl
AllNew-absent m n (s ∷ ss) (id, client, new) = ground (arith, AllNew-absent m n ss new)

present :
    (c : ℕ) (ss : List Session) (k : Bool) → client_kind c ss ≡ some k → has_client c ss ≡ true
present c [] k e = cc
present c (s ∷ ss) k e = ground (arith, present c ss k)

pub client_kind-get_session :
    (id : ℤ) (s : Session) (ss : List Session)
    → AllApart ss
    → get_session id ss ≡ some s
    → client_kind s.client ss ≡ some (is_buffered s.output_type)
unfolding get_session
client_kind-get_session id s [] a e = cc
client_kind-get_session id s (x ∷ ss) (ids, clients, a) e =
    let later = client_kind-get_session id s ss a in
    let there = present s.client ss (is_buffered s.output_type) in
    ground (arith, later, there, ==_iff s.client x.client)

pub client_kind-find_duplicate :
    (s : Session) (ss : List Session)
    → AllApart ss
    → find_duplicate 0 ss ≡ some s
    → client_kind s.client ss ≡ some true
unfolding find_duplicate
client_kind-find_duplicate s [] a e = cc
client_kind-find_duplicate s (x ∷ ss) (ids, clients, a) e =
    let later = client_kind-find_duplicate s ss a in
    let there = present s.client ss true in ground (arith, later, there, ==_iff s.client x.client)

pub client_kind-erase_session :
    (id : ℤ) (c : ℕ) (s : Session) (ss : List Session)
    → AllApart ss
    → get_session id ss ≡ some s
    → client_kind c (erase_session id ss) ≡ (if c == s.client then none else client_kind c ss)
unfolding get_session erase_session
client_kind-erase_session id c s [] a e = cc
client_kind-erase_session id c s (x ∷ ss) (ids, clients, a) e =
    let there = present s.client ss (is_buffered s.output_type) in
    ground (
      arith,
      client_kind-erase_session id c s ss a,
      client_kind-get_session id s ss a,
      there,
      client_kind-absent x.client ss clients,
      ==_iff c x.client,
      ==_iff c s.client,
    )

pub client_kind-erase_duplicate :
    (c : ℕ) (s : Session) (ss : List Session)
    → AllApart ss
    → find_duplicate 0 ss ≡ some s
    → client_kind c (erase_duplicate 0 ss) ≡ (if c == s.client then none else client_kind c ss)
unfolding find_duplicate erase_duplicate
client_kind-erase_duplicate c s [] a e = cc
client_kind-erase_duplicate c s (x ∷ ss) (ids, clients, a) e =
    let there = present s.client ss true in
    ground (
      arith,
      client_kind-erase_duplicate c s ss a,
      client_kind-find_duplicate s ss a,
      there,
      client_kind-absent x.client ss clients,
      ==_iff c x.client,
      ==_iff c s.client,
    )

pub client_kind-set_enable :
    (id : ℤ) (b : Bool) (c : ℕ) (ss : List Session)
    → client_kind c (set_enable id b ss) ≡ client_kind c ss
unfolding set_enable
client_kind-set_enable id b c [] = refl
client_kind-set_enable id b c (s ∷ ss) = ground (arith, client_kind-set_enable id b c ss)

pub client_kind-append :
    (c : ℕ) (ss : List Session) (s : Session)
    → has_client s.client ss ≡ false
    → client_kind c (ss ++ (s ∷ []))
      ≡ (if c == s.client then some (is_buffered s.output_type) else client_kind c ss)
client_kind-append c [] s absent = refl
client_kind-append c (x ∷ ss) s absent =
    ground (arith, client_kind-append c ss s, ==_iff c x.client, ==_iff c s.client)

counted :
    (c : ℕ) (ss : List Session) → AllPrimary ss → client_kind c ss ≡ some true → 1 ≤ music_count ss
counted c [] primary e = cc
counted c (s ∷ ss) (source, primary) e = ground (arith, counted c ss primary, ==_iff s.source 0)

-- There is at most one client of a music id session.
pub client_kind_unique :
    (c c' : ℕ) (ss : List Session)
    → AllPrimary ss
    → music_count ss ≤ 1
    → client_kind c ss ≡ some true
    → client_kind c' ss ≡ some true
    → c ≡ c'
client_kind_unique c c' [] primary one e e' = cc
client_kind_unique c c' (s ∷ ss) (source, primary) one e e' = ground (
  arith,
  client_kind_unique c c' ss primary,
  counted c ss primary,
  counted c' ss primary,
  ==_iff c s.client,
  ==_iff c' s.client,
  ==_iff s.source 0,
)

pub AllPrimary-erase_session :
    (id : ℤ) (ss : List Session) → AllPrimary ss → AllPrimary (erase_session id ss)
unfolding erase_session
AllPrimary-erase_session id [] p = tt
AllPrimary-erase_session id (s ∷ ss) p = ground (arith, AllPrimary-erase_session id ss p.1)

pub AllPrimary-erase_duplicate :
    (ss : List Session) → AllPrimary ss → AllPrimary (erase_duplicate 0 ss)
unfolding erase_duplicate
AllPrimary-erase_duplicate [] p = tt
AllPrimary-erase_duplicate (s ∷ ss) p = ground (arith, AllPrimary-erase_duplicate ss p.1)

pub AllPrimary-set_enable :
    (id : ℤ) (b : Bool) (ss : List Session) → AllPrimary ss → AllPrimary (set_enable id b ss)
unfolding set_enable
AllPrimary-set_enable id b [] p = tt
AllPrimary-set_enable id b (s ∷ ss) p = ground (arith, AllPrimary-set_enable id b ss p.1)

pub AllPrimary-append :
    (ss : List Session) (s : Session) → AllPrimary ss → s.source ≡ 0 → AllPrimary (ss ++ (s ∷ []))
AllPrimary-append [] s p source = (source, tt)
AllPrimary-append (x ∷ ss) s p source = (p.0, AllPrimary-append ss s p.1 source)
