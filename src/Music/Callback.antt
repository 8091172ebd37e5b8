-- ===== src/Music/Callback.antt =====
-- The music id client as a client of the queue manager: it keeps the reference to every buffer.
use rdk_audiocapturemgr.Prelude.{
  ℕ, ◌+◌, ◌^◌, ◌<◌, ◌≡◌, refl, List, [], ◌∷◌, ◌++◌, some, false, ok, arith, ==_iff, ◌==◌,
  if◌then◌else◌,
}
use rdk_audiocapturemgr.Buffer.{Buffer, Heap}
use rdk_audiocapturemgr.Buffer.Refs.{refs}
use rdk_audiocapturemgr.QMgr.Clients.{mem}
use rdk_audiocapturemgr.QMgr.Delivery.{ClientOps, ClientLaws, Took}
use rdk_audiocapturemgr.QMgr.Flush.{mem-concat}
use rdk_audiocapturemgr.Music.{u32, MusicIdClient, data_callback}
use rdk_audiocapturemgr.Music.Held.{load-some, size_of, total_of, Holds, IsValid}

abbrev pub count : ℕ → List ℕ → ℕ
count p [] = 0
count p (q ∷ qs) = (if p == q then 1 else 0) + count p qs

-- All clients of the class in one state: the one client there is.
abbrev pub music_id_client : ClientOps MusicIdClient
music_id_client = record { data_callback = λ c p h m. data_callback p h m }

count-append :
    (p q : ℕ) (qs : List ℕ) → count p (qs ++ (q ∷ [])) ≡ count p qs + (if p == q then 1 else 0)
count-append p q [] = ground arith
count-append p q (x ∷ qs) = ground (arith, count-append p q qs)

-- The callback keeps the one reference it is given: it puts the buffer into its queue once and leaves
-- the heap as it is.
pub data_callback-Took :
    (p : ℕ) (h : Heap) (m : MusicIdClient) (b : Buffer)
    → h.cell p ≡ some b
    → 0 < b.refcount
    → (m' : MusicIdClient) × (data_callback p h m ≡ ok (h, m'))
      × Took (λ q. count q m.queue) (λ q. count q m'.queue) p h h
unfolding data_callback
data_callback-Took p h m b e held = (
  record m { queue = m.queue ++ (p ∷ []); total_size = u32 (m.total_size + b.size) },
  rw (load-some p h b e),
  record {
    balance = ground (arith, count-append p p m.queue, ==_iff p p);
    falls = ground arith;
    live = ground arith;
    others = λ q ne. refl;
    others_held = λ q ne. ground (arith, count-append q p m.queue, ==_iff q p);
    next_kept = refl;
  },
)

pub Holds-append :
    (h : Heap) (ps : List ℕ) (p : ℕ)
    → Holds h ps
    → mem p ps ≡ false
    → 0 < refs h p
    → refs h p < 2 ^ 32
    → Holds h (ps ++ (p ∷ [])) × (total_of h (ps ++ (p ∷ [])) ≡ total_of h ps + size_of (h.cell p))
Holds-append h [] p holds new held fits = ((refl, held, fits, tt), omega arith)
Holds-append h (x ∷ ps) p (new_x, held_x, fits_x, holds) new held fits =
    let (there, sum) = Holds-append h ps p holds (ground arith) held fits in
    (
      (ground (arith, mem-concat x ps (p ∷ []), ==_iff p x), held_x, fits_x, there),
      omega (arith, sum),
    )

-- A buffer that is not yet in the queue and to which a reference is held: the queue stays valid, as
-- long as its bytes are fewer than 2 ^ 31.
pub data_callback-IsValid :
    (p : ℕ) (h : Heap) (m : MusicIdClient) (b : Buffer)
    → IsValid h m
    → h.cell p ≡ some b
    → mem p m.queue ≡ false
    → 0 < b.refcount
    → b.refcount < 2 ^ 32
    → m.total_size + b.size < 2 ^ 31
    → (m' : MusicIdClient) × (data_callback p h m ≡ ok (h, m')) × IsValid h m'
unfolding data_callback
data_callback-IsValid p h m b valid e new held fits small =
    let size : size_of (h.cell p) ≡ b.size = rw e in
    let (holds, sum) = Holds-append h m.queue p valid.holds new (rw e held) (rw e fits) in
    let total : u32 (m.total_size + b.size) ≡ m.total_size + b.size = omega arith in
    (
      record m { queue = m.queue ++ (p ∷ []); total_size = u32 (m.total_size + b.size) },
      rw (load-some p h b e),
      record {
        holds = holds;
        counted = rw (total, sum, size, valid.counted);
        small = rw total small;
      },
    )

-- The class keeps the contract of the queue manager's clients.
abbrev pub music_id_laws : ClientLaws MusicIdClient music_id_client
music_id_laws = record {
  held = λ m p. count p m.queue;
  takes_one = λ c p h m b e held fits.
      let (m', returns, took) = data_callback-Took p h m b e held in (h, m', returns, took);
}
