-- ===== src/Daemon/InFlight.antt =====
-- One buffer of a round, handed to all clients: what it keeps true.
use rdk_audiocapturemgr.Prelude.{
  ℕ, ◌+◌, ◌<◌, ◌^◌, ◌≡◌, ◌≢◌, ◌∙◌, ◌⊎◌, sym, ap, refl, Option, some, List, [], ◌∷◌, Bool, true,
  false, ◌==◌, arith, Bool-cases, inl, inr, ==_iff,
}
use rdk_audiocapturemgr.Prelude.Int.{ℤ}
use rdk_audiocapturemgr.Buffer.{Heap}
use rdk_audiocapturemgr.Buffer.Refs.{refs}
use rdk_audiocapturemgr.QMgr.Clients.{mem}
use rdk_audiocapturemgr.QMgr.Flush.{is_live}
use rdk_audiocapturemgr.QMgr.Registry.{AllDistinct, mem-append}
use rdk_audiocapturemgr.IpOut.{IpOutClient}
use rdk_audiocapturemgr.Music.Held.{size_of, total_of}
use rdk_audiocapturemgr.Music.Owner.{IsOwner, IsOwner-kept}
use rdk_audiocapturemgr.Daemon.{MusicObject, Object, music, ip_out}
use rdk_audiocapturemgr.Daemon.Populated.{HeldAt, kind_of}
use rdk_audiocapturemgr.Daemon.Rounds.{given, musics, Given}
use rdk_audiocapturemgr.Daemon.Flight.{
  with_buffer, with_buffer-IsOwner, kind_of-given, given-music, given-ip_out, musics-cases,
  musics-one, Unique,
}

-- The buffers ps are still to be handed out, each with n references; the others are settled.
pub record InFlight (kinds : ℕ → Option Bool) (n : ℕ) (ps : List ℕ) (objects : ℕ → Option Object)
    (h : Heap) : Type 0 where
  pub typed : (c : ℕ) → kind_of (objects c) ≡ kinds c
  pub owners : (c : ℕ) (m : MusicObject) → objects c ≡ some (music m) → IsOwner h m.client
  pub threads : (c : ℕ) (o : IpOutClient) → objects c ≡ some (ip_out o) → o.joinable ≡ true
  pub waiting : (q : ℕ) → mem q ps ≡ true → (refs h q ≡ n) × (is_live (h.cell q) ≡ true)
  pub unheld :
      (c : ℕ) (m : MusicObject) (q : ℕ)
      → objects c ≡ some (music m)
      → mem q ps ≡ true
      → mem q m.client.queue ≡ false
  pub held : (q : ℕ) → is_live (h.cell q) ≡ true → mem q ps ≡ false → HeldAt objects q
  pub room :
      (c : ℕ) (m : MusicObject)
      → objects c ≡ some (music m)
      → m.client.total_size + total_of h ps < 2 ^ 31

total_of-kept :
    (h h' : Heap) (ps : List ℕ)
    → ((q : ℕ) → mem q ps ≡ true → h'.cell q ≡ h.cell q)
    → total_of h' ps ≡ total_of h ps
total_of-kept h h' [] same = refl
total_of-kept h h' (p ∷ ps) same =
    let now : h'.cell p ≡ h.cell p = same p (ground (arith, ==_iff p p)) in
    rw (now, total_of-kept h h' ps (λ q m. same q (ground arith)))

module _ (write : ℕ → IpOutClient → ℤ) (kinds : ℕ → Option Bool) (cs : List ℕ) (n p : ℕ)
    (ps : List ℕ) (objects objects' : ℕ → Option Object) (h h' : Heap) (unique : Unique kinds)
    (distinct : AllDistinct cs) (new : mem p ps ≡ false) (f : InFlight kinds n (p ∷ ps) objects h)
    (g : Given write cs p (size_of (h.cell p)) (musics cs objects) h h' objects objects') where
  abbrev size : ℕ
  size = size_of (h.cell p)

  present : mem p (p ∷ ps) ≡ true
  present = ground (arith, ==_iff p p)

  -- A music id client of the new state, and what it was before.
  abbrev Was : ℕ → MusicObject → Type 0
  Was c m' =
      ((mem c cs ≡ true)
        × (m : MusicObject) × (objects c ≡ some (music m))
        × (m'.client ≡ with_buffer p size m.client))
      ⊎ ((mem c cs ≡ false) × (objects c ≡ some (music m')))

  was : (c : ℕ) (m' : MusicObject) → objects' c ≡ some (music m') → Was c m'
  was c m' e = elim (Bool-cases (mem c cs)) [
    | inl called ↦
        let now : given write p size (objects c) ≡ some (music m') =
          rw called at (sym (g.calls c) ∙ e) in
        let (m, e', same) = given-music write p size (objects c) m' now in inl (called, m, e', same)
    | inr away ↦ inr (away, rw away at (sym (g.calls c) ∙ e))
  ]

  same_kind : (c : ℕ) → kind_of (objects' c) ≡ kinds c
  same_kind c = elim (Bool-cases (mem c cs)) [
    | inl called ↦
        ap kind_of (g.calls c) ∙ rw called (kind_of-given write p size (objects c)) ∙ f.typed c
    | inr away ↦ ap kind_of (g.calls c) ∙ rw away (f.typed c)
  ]

  not_p : (q : ℕ) → mem q ps ≡ true → q ≢ p
  not_p q m e = absurd (ground (arith, rw e at m, new))

  others_kept : (q : ℕ) → mem q ps ≡ true → h'.cell q ≡ h.cell q
  others_kept q m = g.others q (not_p q m)

  queue_kept :
      (c : ℕ) (m : MusicObject) (q : ℕ)
      → objects c ≡ some (music m)
      → mem q m.client.queue ≡ true
      → h'.cell q ≡ h.cell q
  queue_kept c m q e i = g.others q (λ same. ground (arith, f.unheld c m p e present, rw same at i))

  still-IsOwner : (c : ℕ) (m' : MusicObject) → objects' c ≡ some (music m') → IsOwner h' m'.client
  still-IsOwner c m' e = elim (was c m' e) [
    | inr (away, e') ↦
        IsOwner-kept h h' m'.client (λ q i. queue_kept c m' q e' i) (f.owners c m' e')
    | inl (called, m, e', same) ↦
        let one = musics-one c m cs kinds objects f.typed unique distinct called e' in
        let size' : size_of (h'.cell p) ≡ size = g.size (λ z. ground (arith, one, z)) in
        let owner = IsOwner-kept h h' m.client (λ q i. queue_kept c m q e' i) (f.owners c m e') in
        let fits : m.client.total_size + size_of (h'.cell p) < 2 ^ 31 =
          omega (arith, f.room c m e', size') in
        let more =
          with_buffer-IsOwner h' m.client p owner (f.unheld c m p e' present) (g.kept_refs ∙ one)
            fits in
        rw (same, sym size') more
  ]

  still_threads : (c : ℕ) (o' : IpOutClient) → objects' c ≡ some (ip_out o') → o'.joinable ≡ true
  still_threads c o' e = elim (Bool-cases (mem c cs)) [
    | inl called ↦
        let now : given write p size (objects c) ≡ some (ip_out o') =
          rw called at (sym (g.calls c) ∙ e) in
        let (o, e', same) = given-ip_out write p size (objects c) o' now in same ∙ f.threads c o e'
    | inr away ↦ f.threads c o' (rw away at (sym (g.calls c) ∙ e))
  ]

  still_unheld :
      (c : ℕ) (m' : MusicObject) (q : ℕ)
      → objects' c ≡ some (music m')
      → mem q ps ≡ true
      → mem q m'.client.queue ≡ false
  still_unheld c m' q e i = elim (was c m' e) [
    | inr (away, e') ↦ f.unheld c m' q e' (ground (arith, i))
    | inl (called, m, e', same) ↦
        let before = f.unheld c m q e' (ground (arith, i)) in
        let queue = ap (λ x. mem q x.queue) same in
        ground (arith, queue, mem-append p q m.client.queue, before, not_p q i, ==_iff q p)
  ]

  -- What held a buffer holds it still.
  held_still : (q : ℕ) → HeldAt objects q → HeldAt objects' q
  held_still q (c, m, e, i) = elim (Bool-cases (mem c cs)) [
    | inr away ↦ (c, m, g.calls c ∙ rw away e, i)
    | inl called ↦
        let m' : MusicObject = record m { client = with_buffer p size m.client } in
        (c, m', g.calls c ∙ rw (called, e) refl, ground (arith, mem-append p q m.client.queue, i))
  ]

  still_held : (q : ℕ) → is_live (h'.cell q) ≡ true → mem q ps ≡ false → HeldAt objects' q
  still_held q live absent = elim (Bool-cases (q == p)) [
    | inr ne ↦
        let kept = g.others q (λ e. ground (arith, ne, e, ==_iff q p)) in
        held_still q (f.held q (rw (sym kept) live) (ground (arith, ne, absent)))
    | inl here ↦
        let same : q ≡ p = (==_iff q p).0 here in
        elim (musics-cases cs objects) [
          | inl zero ↦ absurd (ground (arith, rw same at live, g.live, zero))
          | inr (c, m, called, e) ↦
              let m' : MusicObject = record m { client = with_buffer p size m.client } in
              (
                c,
                m',
                g.calls c ∙ rw (called, e) refl,
                ground (arith, mem-append p q m.client.queue, here),
              )
        ]
  ]

  still_room :
      (c : ℕ) (m' : MusicObject)
      → objects' c ≡ some (music m')
      → m'.client.total_size + total_of h' ps < 2 ^ 31
  still_room c m' e =
      let rest = total_of-kept h h' ps others_kept in
      elim (was c m' e) [
        | inr (away, e') ↦ omega (arith, f.room c m' e', rest)
        | inl (called, m, e', same) ↦
            let total = ap (λ x. x.total_size) same in omega (arith, f.room c m e', rest, total)
      ]

  -- The buffer is settled, and the others wait as before.
  pub InFlight-next : InFlight kinds n ps objects' h'
  InFlight-next = record {
    typed = same_kind;
    owners = still-IsOwner;
    threads = still_threads;
    waiting = λ q m. rw (others_kept q m) (f.waiting q (ground (arith, m)));
    unheld = still_unheld;
    held = still_held;
    room = still_room;
  }
