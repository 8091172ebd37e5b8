-- ===== src/Daemon/Rounds.antt =====
-- src/audio_capture_manager.cpp: `process_data` over the objects of the clients, one buffer at a time.
use rdk_audiocapturemgr.Prelude.{
  ℕ, ◌+◌, ◌<◌, ◌^◌, ◌≡◌, ◌≢◌, ◌∙◌, sym, ap, refl, Option, none, some, List, [], ◌∷◌, ◌++◌, Bool,
  true, false, not, Result, ok, err, use_after_free, ◌>>=◌, ◌==◌, if◌then◌else◌, length, arith,
  Option-cases, Bool-cases, inl, inr, ==_iff,
}
use rdk_audiocapturemgr.Prelude.Int.{ℤ}
use rdk_audiocapturemgr.Audio.{u32}
use rdk_audiocapturemgr.Buffer.{Buffer, Heap}
use rdk_audiocapturemgr.Buffer.Refs.{refs}
use rdk_audiocapturemgr.QMgr.Clients.{mem}
use rdk_audiocapturemgr.QMgr.Delivery.{ClientOps, deliver}
use rdk_audiocapturemgr.QMgr.Flush.{is_live}
use rdk_audiocapturemgr.QMgr.Registry.{AllDistinct}
use rdk_audiocapturemgr.IpOut.{IpOutClient}
use rdk_audiocapturemgr.QMgr.BaseClient.{release_buffer-Took, release_buffer-size}
use rdk_audiocapturemgr.IpOut.Contract.{after_write, data_callback-releases}
use rdk_audiocapturemgr.Music.{MusicIdClient}
use rdk_audiocapturemgr.Music.Held.{load-some, size_of}
use rdk_audiocapturemgr.Daemon.{Object, music, ip_out, put}

-- The virtual call of `data_callback`; `write` is what the system call returns.
unfoldable pub call_found :
    (ℕ → IpOutClient → ℤ)
    → ℕ
    → ℕ
    → Heap
    → Option Object
    → (ℕ → Option Object)
    → Result (Heap × (ℕ → Option Object))
call_found write c p h none objects = err use_after_free
call_found write c p h (some (music m)) objects = do
  (h', client) ← rdk_audiocapturemgr.Music.data_callback p h m.client
  ok (h', put c (some (music (record m { client = client }))) objects)
call_found write c p h (some (ip_out o)) objects = do
  (h', o') ← rdk_audiocapturemgr.IpOut.data_callback (write p o) p h o
  ok (h', put c (some (ip_out o')) objects)

abbrev pub object_ops : (ℕ → IpOutClient → ℤ) → ClientOps (ℕ → Option Object)
object_ops write = record {
  data_callback = λ c p h objects. call_found write c p h (objects c) objects;
}

-- What an object is after it was given a buffer of the size n.
abbrev pub given : (ℕ → IpOutClient → ℤ) → ℕ → ℕ → Option Object → Option Object
given write p n none = none
given write p n (some (music m)) = some (
    music (record m {
      client = record m.client {
        queue = m.client.queue ++ (p ∷ []);
        total_size = u32 (m.client.total_size + n);
      };
    }))
given write p n (some (ip_out o)) = some (ip_out (after_write (write p o) o))

-- The music id clients among some clients.
abbrev pub is_music : Option Object → Bool
is_music (some (music m)) = true
is_music _ = false

abbrev pub musics : List ℕ → (ℕ → Option Object) → ℕ
musics [] objects = 0
musics (c ∷ cs) objects = (if is_music (objects c) then 1 else 0) + musics cs objects

-- All of the clients are there.
abbrev pub AllThere : List ℕ → (ℕ → Option Object) → Type 0
AllThere [] objects = Unit {0}
AllThere (c ∷ cs) objects = (objects c ≢ none) × AllThere cs objects

-- The buffer p of the size n was given to the clients cs: `left` references are left.
pub record Given (write : ℕ → IpOutClient → ℤ) (cs : List ℕ) (p n left : ℕ) (h h' : Heap)
    (objects objects' : ℕ → Option Object) : Type 0 where
  pub kept_refs : refs h' p ≡ left
  pub live : is_live (h'.cell p) ≡ not (left == 0)
  pub size : left ≢ 0 → size_of (h'.cell p) ≡ n
  pub others : (q : ℕ) → q ≢ p → h'.cell q ≡ h.cell q
  pub next_kept : h'.next ≡ h.next
  pub calls : (c : ℕ) → objects' c ≡ (if mem c cs then given write p n (objects c) else objects c)

-- One call, where the buffer is there.
call_found-Given :
    (write : ℕ → IpOutClient → ℤ) (c p : ℕ) (h : Heap) (objects : ℕ → Option Object)
    (x : Option Object) (b : Buffer)
    → objects c ≡ x
    → x ≢ none
    → h.cell p ≡ some b
    → 0 < b.refcount
    → b.refcount < 2 ^ 32
    → (h' : Heap) × (objects' : ℕ → Option Object) × (call_found write c p h x objects
        ≡ ok (h', objects'))
      × (refs h' p + 1 ≡ refs h p + (if is_music x then 1 else 0))
      × (is_live (h'.cell p) ≡ not (refs h' p == 0))
      × ((q : ℕ) → q ≢ p → h'.cell q ≡ h.cell q)
      × (h'.next ≡ h.next)
      × (is_live (h'.cell p) ≡ true → size_of (h'.cell p) ≡ b.size)
      × ((d : ℕ) → objects' d ≡ (if d == c then given write p b.size x else objects d))
unfolding call_found rdk_audiocapturemgr.Music.data_callback
call_found-Given write c p h objects none b here there cell pos fits = absurd (there refl)
call_found-Given write c p h objects (some (music m)) b here there cell pos fits = (
  h,
  put c (given write p b.size (some (music m))) objects,
  rw (load-some p h b cell) refl,
  omega arith,
  ground (arith, cell),
  (λ q ne. refl),
  refl,
  (λ live. ground (arith, cell)),
  λ d. refl,
)
call_found-Given write c p h objects (some (ip_out o)) b here there cell pos fits =
    let (h', released, took) = release_buffer-Took p h b cell pos fits in
    let returns = data_callback-releases (write p o) p h h' o b cell released in
    (
      h',
      put c (given write p b.size (some (ip_out o))) objects,
      rw returns refl,
      omega (arith, took.balance),
      took.live,
      took.others,
      took.next_kept,
      (λ live. elim (release_buffer-size p h h' b cell pos fits released) [
        | inl gone ↦ absurd (ground (arith, gone, live))
        | inr (b', e, same) ↦ ground (arith, e, same)
      ]),
      λ d. refl,
    )

AllThere-kept :
    (cs : List ℕ) (objects objects' : ℕ → Option Object)
    → ((c : ℕ) → mem c cs ≡ true → objects' c ≡ objects c)
    → AllThere cs objects
    → AllThere cs objects' × (musics cs objects' ≡ musics cs objects)
AllThere-kept [] objects objects' same there = (tt, refl)
AllThere-kept (c ∷ cs) objects objects' same (here, there) =
    let now : objects' c ≡ objects c = same c (ground (arith, ==_iff c c)) in
    let (later, sum) = AllThere-kept cs objects objects' (λ d m. same d (ground arith)) there in
    ((rw now here, later), rw (now, sum))

-- Where a client stands that is not among those left.
apart_from : (c d : ℕ) (cs : List ℕ) → mem c cs ≡ false → mem d cs ≡ true → (d == c) ≡ false
apart_from c d cs absent present = elim (Bool-cases (d == c)) [
  | inr ne ↦ ne
  | inl e ↦
      let same : d ≡ c = (==_iff d c).0 e in absurd (ground (arith, rw same at present, absent))
]

module _ (write : ℕ → IpOutClient → ℤ) (p n : ℕ) where
  calls_then :
      (c : ℕ) (cs : List ℕ) (objects objects₁ objects' : ℕ → Option Object)
      → mem c cs ≡ false
      → ((d : ℕ) → objects₁ d ≡ (if d == c then given write p n (objects c) else objects d))
      → ((d : ℕ) → objects' d ≡ (if mem d cs then given write p n (objects₁ d) else objects₁ d))
      → (d : ℕ) → objects' d ≡ (if mem d (c ∷ cs) then given write p n (objects d) else objects d)
  calls_then c cs objects objects₁ objects' absent now later d = elim (Bool-cases (d == c)) [
    | inl here ↦
        let same : d ≡ c = (==_iff d c).0 here in
        let gone : mem d cs ≡ false = rw same absent in later d ∙ rw (gone, now d, here, same) refl
    | inr away ↦ later d ∙ rw (now d, away) refl
  ]

  pub deliver-Given :
      (cs : List ℕ) (k : ℕ) (h : Heap) (objects : ℕ → Option Object)
      → AllDistinct cs
      → AllThere cs objects
      → refs h p ≡ k + length cs
      → is_live (h.cell p) ≡ not (refs h p == 0)
      → refs h p < 2 ^ 32
      → (is_live (h.cell p) ≡ true → size_of (h.cell p) ≡ n)
      → (h' : Heap) × (objects' : ℕ → Option Object) × (deliver (object_ops write) cs p h objects
          ≡ ok (h', objects'))
        × Given write cs p n (k + musics cs objects) h h' objects objects'
  unfolding deliver
  deliver-Given [] k h objects distinct there owed live fits size = (
    h,
    objects,
    refl,
    record {
      kept_refs = omega arith;
      live = ground (arith, live, owed);
      size = λ some_left. size (ground (arith, live, owed, some_left));
      others = λ q ne. refl;
      next_kept = refl;
      calls = λ c. refl;
    },
  )
  deliver-Given (c ∷ cs) k h objects (new, distinct) (here, there) owed live fits size =
      elim (Option-cases (h.cell p)) [
        | inl gone ↦ absurd (ground arith)
        | inr (b, cell) ↦
            let b_size : b.size ≡ n = ground (arith, size, cell) in
            let (h₁, objects₁, called, balance, live₁, others, next, size₁, now) =
              call_found-Given write c p h objects (objects c) b refl here cell (ground arith)
                (ground arith) in
            let same : (d : ℕ) → mem d cs ≡ true → objects₁ d ≡ objects d =
              λ d m. now d ∙ rw (apart_from c d cs new m) refl in
            let (there₁, sum) = AllThere-kept cs objects objects₁ same there in
            let one : ℕ = if is_music (objects c) then 1 else 0 in
            let total : (k + one) + musics cs objects₁ ≡ k + musics (c ∷ cs) objects =
              omega (arith, sum) in
            let (h', objects', rest, g) =
              deliver-Given cs (k + one) h₁ objects₁ distinct there₁ (omega (arith, balance)) live₁
                (ground (arith, balance, fits)) (λ l. size₁ l ∙ b_size) in
            (
              h',
              objects',
              rw (called, rest) refl,
              record {
                kept_refs = g.kept_refs ∙ total;
                live = g.live ∙ ap (λ (x : ℕ). not (x == 0)) total;
                size = λ some_left. g.size (λ e. some_left (sym total ∙ e));
                others = λ q ne. g.others q ne ∙ others q ne;
                next_kept = g.next_kept ∙ next;
                calls =
                    calls_then c cs objects objects₁ objects' new (λ d. now d ∙ rw b_size refl)
                      g.calls;
              },
            )
      ]
