-- ===== src/QMgr/References.antt =====
-- Every reference that `process_data` gives out is kept by a client or given up: no buffer is freed
-- too early, twice, or never.
use rdk_audiocapturemgr.Prelude.{
  ℕ, ◌+◌, ◌<◌, ◌^◌, ◌≡◌, ◌≢◌, refl, ap, ◌∙◌, List, [], ◌∷◌, true, false, not, ok, ◌==◌, length,
  arith, Option-cases, Bool-cases, inl, inr, ==_iff,
}
use rdk_audiocapturemgr.Buffer.{Heap}
use rdk_audiocapturemgr.Buffer.Refs.{refs, count_of}
use rdk_audiocapturemgr.QMgr.{QMgr}
use rdk_audiocapturemgr.QMgr.Clients.{mem}
use rdk_audiocapturemgr.QMgr.Registry.{AllDistinct}
use rdk_audiocapturemgr.QMgr.Flush.{is_live, AllLive}
use rdk_audiocapturemgr.QMgr.Delivery.{ClientOps, ClientLaws, deliver, deliver_all, process_data}
use rdk_audiocapturemgr.QMgr.Counted.{update_buffer_references-Counted}

mem-ne : (p x : ℕ) (ps : List ℕ) → mem p ps ≡ true → mem x ps ≡ false → p ≢ x
mem-ne p x ps m absent e = cc (ap (λ (y : ℕ). mem y ps) e)

mem-later : (p x : ℕ) (ps : List ℕ) → mem p ps ≡ true → mem p (x ∷ ps) ≡ true
mem-later p x ps m = ground arith

mem-now : (x : ℕ) (ps : List ℕ) → mem x (x ∷ ps) ≡ true
mem-now x ps = ground (arith, ==_iff x x)

mem-here : (p x : ℕ) (ps : List ℕ) → mem p (x ∷ ps) ≡ true → mem p ps ≡ false → p ≡ x
mem-here p x ps m later = ground (arith, ==_iff p x)

module _ {S : Type 0} (ops : ClientOps S) (laws : ClientLaws S ops) where
  open laws use {held, takes_one}

  -- What is left of buffer p when the references given out are all taken.
  record Settled (p : ℕ) (h h' : Heap) (s s' : S) : Type 0 where
    settled : refs h' p ≡ held s' p
    live : is_live (h'.cell p) ≡ not (refs h' p == 0)
    others : (q : ℕ) → q ≢ p → h'.cell q ≡ h.cell q
    others_held : (q : ℕ) → q ≢ p → held s' q ≡ held s q
    next_kept : h'.next ≡ h.next

  deliver-Settled :
      (cs : List ℕ) (p : ℕ) (h : Heap) (s : S)
      → refs h p ≡ held s p + length cs
      → is_live (h.cell p) ≡ not (refs h p == 0)
      → refs h p < 2 ^ 32
      → (h' : Heap) × (s' : S) × (deliver ops cs p h s ≡ ok (h', s')) × Settled p h h' s s'
  unfolding deliver
  deliver-Settled [] p h s owed live fits = (
    h,
    s,
    refl,
    record {
      settled = omega arith;
      live = live;
      others = λ q ne. refl;
      others_held = λ q ne. refl;
      next_kept = refl;
    },
  )
  deliver-Settled (c ∷ cs) p h s owed live fits = elim (Option-cases (h.cell p)) [
    | inl e ↦ absurd (ground arith)
    | inr (b, e) ↦
        let (h₁, s₁, called, t) = takes_one c p h s b e (ground arith) (ground arith) in
        let (h', s', done, r) =
          deliver-Settled cs p h₁ s₁ (omega (arith, t.balance)) t.live (omega (arith, t.falls)) in
        (
          h',
          s',
          rw called done,
          record {
            settled = r.settled;
            live = r.live;
            others = λ q ne. r.others q ne ∙ t.others q ne;
            others_held = λ q ne. r.others_held q ne ∙ t.others_held q ne;
            next_kept = r.next_kept ∙ t.next_kept;
          },
        )
  ]

  -- References given out for each of the buffers, and not yet taken.
  record Owed (n : ℕ) (ps : List ℕ) (h : Heap) (s : S) : Type 0 where
    counts : (p : ℕ) → mem p ps ≡ true → refs h p ≡ held s p + n
    alive : (p : ℕ) → mem p ps ≡ true → is_live (h.cell p) ≡ not (refs h p == 0)
    fits : (p : ℕ) → mem p ps ≡ true → refs h p < 2 ^ 32

  -- The count of each of the buffers is what the clients hold, it is freed if that is none, and
  -- nothing else has changed.
  pub record AllSettled (ps : List ℕ) (h h' : Heap) (s s' : S) : Type 0 where
    pub settled : (p : ℕ) → mem p ps ≡ true → refs h' p ≡ held s' p
    pub live : (p : ℕ) → mem p ps ≡ true → is_live (h'.cell p) ≡ not (held s' p == 0)
    pub kept : (p : ℕ) → mem p ps ≡ false → h'.cell p ≡ h.cell p
    pub held_kept : (p : ℕ) → mem p ps ≡ false → held s' p ≡ held s p
    pub next_kept : h'.next ≡ h.next

  Owed-tail :
      (n x : ℕ) (ps : List ℕ) (h h' : Heap) (s s' : S)
      → mem x ps ≡ false
      → Owed n (x ∷ ps) h s
      → Settled x h h' s s'
      → Owed n ps h' s'
  Owed-tail n x ps h h' s s' absent o r = record {
    counts = λ p m.
        let ne = mem-ne p x ps m absent in
        omega
          (arith, ap count_of (r.others p ne), r.others_held p ne, o.counts p (mem-later p x ps m));
    alive = λ p m. rw (r.others p (mem-ne p x ps m absent)) (o.alive p (mem-later p x ps m));
    fits = λ p m. rw (r.others p (mem-ne p x ps m absent)) (o.fits p (mem-later p x ps m));
  }

  deliver_all-AllSettled :
      (cs ps : List ℕ) (h : Heap) (s : S)
      → AllDistinct ps
      → Owed (length cs) ps h s
      → (h' : Heap) × (s' : S) × (deliver_all ops cs ps h s ≡ ok (h', s')) × AllSettled ps h h' s s'
  unfolding deliver_all
  deliver_all-AllSettled cs [] h s d o = (
    h,
    s,
    refl,
    record {
      settled = λ p m. cc;
      live = λ p m. cc;
      kept = λ p m. refl;
      held_kept = λ p m. refl;
      next_kept = refl;
    },
  )
  deliver_all-AllSettled cs (x ∷ ps) h s d o =
      let (h₁, s₁, given, r) =
        deliver-Settled cs x h s (o.counts x (mem-now x ps)) (o.alive x (mem-now x ps))
          (o.fits x (mem-now x ps)) in
      let (h', s', done, a) =
        deliver_all-AllSettled cs ps h₁ s₁ d.1 (Owed-tail (length cs) x ps h h₁ s s₁ d.0 o r) in
      (
        h',
        s',
        rw given done,
        record {
          settled = λ p m. elim (Bool-cases (mem p ps)) [
            | inl later ↦ a.settled p later
            | inr now ↦
                ground (arith, a.kept p now, a.held_kept p now, mem-here p x ps m now, r.settled)
          ];
          live = λ p m. elim (Bool-cases (mem p ps)) [
            | inl later ↦ a.live p later
            | inr now ↦
                ground
                  (arith, a.kept p now, a.held_kept p now, mem-here p x ps m now, r.settled, r.live)
          ];
          kept = λ p m. ground (arith, a.kept p, r.others p, ==_iff p x);
          held_kept = λ p m. ground (arith, a.held_kept p, r.others_held p, ==_iff p x);
          next_kept = a.next_kept ∙ r.next_kept;
        },
      )

  -- After `process_data` each delivered buffer has exactly the references that the clients keep; if
  -- they keep none it is freed. Nothing else has changed, and no step faults. There is a client, and
  -- the buffers are new to the clients.
  pub process_data-AllSettled :
      (q : QMgr) (h : Heap) (s : S)
      → AllDistinct q.outgoing
      → AllLive h q.outgoing
      → q.num_clients ≡ length q.clients
      → 0 < q.num_clients
      → q.num_clients < 2 ^ 32
      → ((p : ℕ) → mem p q.outgoing ≡ true → held s p ≡ 0)
      → (h' : Heap) × (s' : S) × (process_data ops q h s ≡ ok (record q { outgoing = [] }, h', s'))
        × AllSettled q.outgoing h h' s s'
  unfolding process_data
  process_data-AllSettled q h s d l counted some_client fits unheld =
      let (h₁, set, c) = update_buffer_references-Counted q.num_clients q.outgoing h d l in
      let owed : Owed (length q.clients) q.outgoing h₁ s = record {
        counts = λ p m. omega (arith, c.counted p m, unheld p m);
        alive = λ p m. ground (arith, c.live p m, c.counted p m);
        fits = λ p m. omega (arith, c.counted p m);
      } in
      let (h', s', given, a) = deliver_all-AllSettled q.clients q.outgoing h₁ s d owed in
      (
        h',
        s',
        rw (set, given),
        record {
          settled = a.settled;
          live = a.live;
          kept = λ p m. a.kept p m ∙ c.kept p m;
          held_kept = a.held_kept;
          next_kept = a.next_kept ∙ c.next_kept;
        },
      )
