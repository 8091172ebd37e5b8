-- ===== src/Daemon/Flight.antt =====
-- The objects and the heap while `process_data` hands out the buffers.
use rdk_audiocapturemgr.Prelude.{
  ℕ, ◌+◌, ◌<◌, ◌^◌, ◌≡◌, ◌∙◌, ◌⊎◌, sym, ap, refl, Option, none, some, List, [], ◌∷◌, ◌++◌, Bool,
  true, false, ◌==◌, arith, Bool-cases, inl, inr, ==_iff,
}
use rdk_audiocapturemgr.Prelude.Int.{ℤ}
use rdk_audiocapturemgr.Audio.{u32}
use rdk_audiocapturemgr.Buffer.{Heap}
use rdk_audiocapturemgr.Buffer.Refs.{refs}
use rdk_audiocapturemgr.QMgr.Clients.{mem}
use rdk_audiocapturemgr.QMgr.Registry.{AllDistinct, mem-append}
use rdk_audiocapturemgr.IpOut.{IpOutClient, drop_connection}
use rdk_audiocapturemgr.Music.{MusicIdClient}
use rdk_audiocapturemgr.Music.Held.{size_of}
use rdk_audiocapturemgr.Music.Callback.{Holds-append}
use rdk_audiocapturemgr.Music.Freed.{AllSole}
use rdk_audiocapturemgr.Music.Owner.{IsOwner}
use rdk_audiocapturemgr.Daemon.{MusicObject, Object, music, ip_out}
use rdk_audiocapturemgr.Daemon.Populated.{kind_of}
use rdk_audiocapturemgr.Daemon.Rounds.{given, is_music, musics}

-- The client with one more buffer.
abbrev pub with_buffer : ℕ → ℕ → MusicIdClient → MusicIdClient
with_buffer p n m = record m { queue = m.queue ++ (p ∷ []); total_size = u32 (m.total_size + n) }

AllSole-append :
    (h : Heap) (ps : List ℕ) (p : ℕ)
    → AllSole h ps
    → mem p ps ≡ false
    → refs h p ≡ 1
    → AllSole h (ps ++ (p ∷ []))
AllSole-append h [] p sole new one = (refl, one, tt)
AllSole-append h (x ∷ ps) p (new_x, one_x, sole) new one = (
  ground (arith, mem-append p x ps, ==_iff p x),
  one_x,
  AllSole-append h ps p sole (ground arith) one,
)

-- The owner of a buffer more, to which it has the one reference.
pub with_buffer-IsOwner :
    (h : Heap) (m : MusicIdClient) (p : ℕ)
    → IsOwner h m
    → mem p m.queue ≡ false
    → refs h p ≡ 1
    → m.total_size + size_of (h.cell p) < 2 ^ 31
    → IsOwner h (with_buffer p (size_of (h.cell p)) m)
with_buffer-IsOwner h m p owner new one small =
    let (holds, sum) =
      Holds-append h m.queue p owner.valid.holds new (omega (arith, one)) (omega (arith, one)) in
    let total : u32 (m.total_size + size_of (h.cell p)) ≡ m.total_size + size_of (h.cell p) =
      omega arith in
    record {
      valid = record {
        holds = holds;
        counted = rw (total, sum, owner.valid.counted) refl;
        small = rw total small;
      };
      short = record {
        precapture = owner.short.precapture;
        requests = owner.short.requests;
        limit = owner.short.limit;
      };
      sole = AllSole-append h m.queue p owner.sole new one;
    }

pub kind_of-given :
    (write : ℕ → IpOutClient → ℤ) (p n : ℕ) (x : Option Object)
    → kind_of (given write p n x) ≡ kind_of x
kind_of-given write p n none = refl
kind_of-given write p n (some (music m)) = refl
kind_of-given write p n (some (ip_out o)) = refl

pub given-music :
    (write : ℕ → IpOutClient → ℤ) (p n : ℕ) (x : Option Object) (m' : MusicObject)
    → given write p n x ≡ some (music m')
    → (m : MusicObject) × (x ≡ some (music m)) × (m'.client ≡ with_buffer p n m.client)
given-music write p n none m' e = cc
given-music write p n (some (music m)) m' e = (m, refl, ground (arith, e))
given-music write p n (some (ip_out o)) m' e = cc

pub given-ip_out :
    (write : ℕ → IpOutClient → ℤ) (p n : ℕ) (x : Option Object) (o' : IpOutClient)
    → given write p n x ≡ some (ip_out o')
    → (o : IpOutClient) × (x ≡ some (ip_out o)) × (o'.joinable ≡ o.joinable)
unfolding drop_connection
given-ip_out write p n none o' e = cc
given-ip_out write p n (some (music m)) o' e = cc
given-ip_out write p n (some (ip_out o)) o' e = (o, refl, ground (arith, e))

is_music-some : (x : Option Object) → is_music x ≡ true → (m : MusicObject) × (x ≡ some (music m))
is_music-some none e = cc
is_music-some (some (music m)) e = (m, refl)
is_music-some (some (ip_out o)) e = cc

pub musics-cases :
    (cs : List ℕ) (objects : ℕ → Option Object)
    → (musics cs objects ≡ 0)
      ⊎ ((c : ℕ) × (m : MusicObject) × (mem c cs ≡ true) × (objects c ≡ some (music m)))
musics-cases [] objects = inl refl
musics-cases (c ∷ cs) objects = elim (Bool-cases (is_music (objects c))) [
  | inl here ↦
      let (m, e) = is_music-some (objects c) here in inr (c, m, ground (arith, ==_iff c c), e)
  | inr away ↦ elim (musics-cases cs objects) [
    | inl zero ↦ inl (ground (arith, away, zero))
    | inr (d, m, there, e) ↦ inr (d, m, ground (arith, there), e)
  ]
]

musics-none :
    (cs : List ℕ) (objects : ℕ → Option Object)
    → ((c : ℕ) → mem c cs ≡ true → is_music (objects c) ≡ false)
    → musics cs objects ≡ 0
musics-none [] objects no_music = refl
musics-none (c ∷ cs) objects no_music = ground (
  arith,
  no_music c (ground (arith, ==_iff c c)),
  musics-none cs objects (λ d m. no_music d (ground arith)),
)

-- At most one of the clients is a music id client.
abbrev pub Unique : (ℕ → Option Bool) → Type 0
Unique kinds = (c c' : ℕ) → kinds c ≡ some true → kinds c' ≡ some true → c ≡ c'

pub musics-one :
    (c : ℕ) (m : MusicObject) (cs : List ℕ) (kinds : ℕ → Option Bool) (objects : ℕ → Option Object)
    → ((d : ℕ) → kind_of (objects d) ≡ kinds d)
    → Unique kinds
    → AllDistinct cs
    → mem c cs ≡ true
    → objects c ≡ some (music m)
    → musics cs objects ≡ 1
musics-one c m [] kinds objects typed unique distinct there e = cc
musics-one c m (x ∷ cs) kinds objects typed unique (new, distinct) there e =
    let is : kinds c ≡ some true = sym (typed c) ∙ ap kind_of e in
    elim (Bool-cases (c == x)) [
      | inl here ↦
          let same : c ≡ x = (==_iff c x).0 here in
          let rest = musics-none cs objects λ d n. elim (Bool-cases (is_music (objects d))) [
            | inr no_music ↦ no_music
            | inl other ↦
                let (m', e') = is_music-some (objects d) other in
                let twice = unique c d is (sym (typed d) ∙ ap kind_of e') in
                absurd (ground (arith, new, rw (sym twice ∙ same) at n))
          ] in
          let kind : is_music (objects x) ≡ true = rw (sym same) (rw e refl) in
          ground (arith, kind, rest)
      | inr away ↦
          let later = musics-one c m cs kinds objects typed unique distinct (rw away at there) e in
          let other : is_music (objects x) ≡ false = elim (Bool-cases (is_music (objects x))) [
            | inr no_music ↦ no_music
            | inl again ↦
                let (m', e') = is_music-some (objects x) again in
                let twice = unique c x is (sym (typed x) ∙ ap kind_of e') in
                absurd (ground (arith, away, twice, ==_iff c x))
          ] in
          ground (arith, other, later)
    ]
