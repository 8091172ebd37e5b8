-- ===== src/Music/Trim.antt =====
-- The queue of the music id client while it is trimmed.
use rdk_audiocapturemgr.Prelude.{
  ℕ, ◌+◌, ◌-◌, ◌^◌, ◌≤◌, ◌<◌, ◌≡◌, ◌⊎◌, inl, inr, refl, List, [], ◌∷◌, ◌++◌, some, true, false,
  Result, ok, arith, ltb, Bool-cases, ==_iff, sym, ◌&&◌, leb, lt→ltb,
}
use rdk_audiocapturemgr.Prelude.Int.{negsuc, pos, ltb_ℤ, ◌-ℤ◌}
use rdk_audiocapturemgr.Audio.{u32}
use rdk_audiocapturemgr.Buffer.{Buffer, Heap, load}
use rdk_audiocapturemgr.QMgr.Clients.{mem}
use rdk_audiocapturemgr.QMgr.BaseClient.{release_buffer}
use rdk_audiocapturemgr.Converter.Loops.{to_int}
use rdk_audiocapturemgr.Converter.Passthrough.{pos_less}
use rdk_audiocapturemgr.Music.{MusicIdClient, trim_loop, trim_queue}
use rdk_audiocapturemgr.Music.Held.{
  load-some, size_of, total_of, front_size, Holds, IsValid, release_buffer-others, kept-Holds,
}

-- A queue of which the front is given up: what is left, and that it was at most `excess` bytes, of
-- which less than the next buffer remain.
pub record Trimmed (h : Heap) (queue : List ℕ) (excess total : ℕ) (r : Result (List ℕ × ℕ × Heap))
    : Type 0 where
  pub dropped : List ℕ
  pub rest : List ℕ
  pub left : ℕ
  pub heap : Heap
  pub returns : r ≡ ok (rest, left, heap)
  pub split : queue ≡ dropped ++ rest
  pub holds : Holds heap rest
  pub counted : left ≡ total_of heap rest
  pub shrinks : left ≤ total
  pub not_below : total ≤ left + excess
  pub no_more : (left + excess ≡ total) ⊎ (left + excess < total + front_size heap rest)
  pub others : (q : ℕ) → mem q dropped ≡ false → heap.cell q ≡ h.cell q

trim_loop-stops :
    (p : ℕ) (ps : List ℕ) (excess total : ℕ) (h : Heap) (b : Buffer)
    → h.cell p ≡ some b
    → (ltb 0 excess && leb b.size excess) ≡ false
    → trim_loop (p ∷ ps) (pos excess) total h ≡ ok (p ∷ ps, total, h)
unfolding trim_loop load
trim_loop-stops p ps excess total h b e stops = ground arith

trim_loop-goes :
    (p : ℕ) (ps : List ℕ) (excess total : ℕ) (h h' : Heap) (b : Buffer)
    → h.cell p ≡ some b
    → release_buffer p h ≡ ok h'
    → 0 < excess
    → b.size ≤ excess
    → excess ≤ total
    → total < 2 ^ 32
    → trim_loop (p ∷ ps) (pos excess) total h
      ≡ trim_loop ps (pos (excess - b.size)) (total - b.size) h'
unfolding trim_loop
trim_loop-goes p ps excess total h h' b e released some_excess covers le small =
    let rest : pos excess -ℤ pos b.size ≡ pos (excess - b.size) = pos_less excess b.size covers in
    let total' : u32 (total + 2 ^ 32 - b.size) ≡ total - b.size = omega arith in
    let first : ltb_ℤ (pos 0) (pos excess) ≡ true = lt→ltb _ _ (omega arith) in
    let enough : ltb_ℤ (pos excess) (pos b.size) ≡ false = ground arith in
    rw (first, load-some p h b e, enough, released, rest, total')

trim_loop-Trimmed :
    (queue : List ℕ) (excess total : ℕ) (h : Heap)
    → Holds h queue
    → total ≡ total_of h queue
    → total < 2 ^ 32
    → excess ≤ total
    → Trimmed h queue excess total (trim_loop queue (pos excess) total h)
unfolding trim_loop
trim_loop-Trimmed [] excess total h holds sum small le = record {
  dropped = [];
  rest = [];
  left = total;
  heap = h;
  returns = ground arith;
  split = refl;
  holds = tt;
  counted = sum;
  shrinks = omega arith;
  not_below = omega arith;
  no_more = inl (omega arith);
  others = λ q m. refl;
}
trim_loop-Trimmed (p ∷ ps) excess total h (new, held, fits, holds) sum small le =
    let (b, h', e, released, same) = release_buffer-others p h held fits in
    let size : size_of (h.cell p) ≡ b.size = rw e in
    elim (Bool-cases (ltb 0 excess && leb b.size excess)) [
      | inr stops ↦ record {
        dropped = [];
        rest = p ∷ ps;
        left = total;
        heap = h;
        returns = trim_loop-stops p ps excess total h b e stops;
        split = refl;
        holds = (new, held, fits, holds);
        counted = sum;
        shrinks = omega arith;
        not_below = omega arith;
        no_more = ground (arith, size);
        others = λ q m. refl;
      }
      | inl goes ↦
          let (there, sum') =
            kept-Holds h h' ps (λ q m. same q (ground (arith, ==_iff p q))) holds in
          let t =
            trim_loop-Trimmed ps (excess - b.size) (total - b.size) h' there
              (omega (arith, sum', size)) (omega arith) (ground arith) in
          record {
            dropped = p ∷ t.dropped;
            rest = t.rest;
            left = t.left;
            heap = t.heap;
            returns =
                rw
                  (trim_loop-goes p ps excess total h h' b e released (ground arith) (ground arith)
                    le small)
                  t.returns;
            split = rw (sym t.split);
            holds = t.holds;
            counted = t.counted;
            shrinks = ground (arith, t.shrinks);
            not_below = ground arith;
            no_more = ground (arith, t.no_more);
            others = λ q m. ground (arith, t.others q, same q, ==_iff p q);
          }
    ]

excess_over :
    (total limit : ℕ)
    → total < 2 ^ 31
    → limit ≤ total
    → to_int (u32 (total + 2 ^ 32 - limit)) ≡ pos (total - limit)
excess_over total limit small over = ground arith

excess_under :
    (total limit : ℕ)
    → limit ≤ 2 ^ 31
    → total < limit
    → to_int (u32 (total + 2 ^ 32 - limit)) ≡ negsuc (limit - total - 1)
excess_under total limit small under = ground arith

no_excess :
    (queue : List ℕ) (n total : ℕ) (h : Heap)
    → trim_loop queue (negsuc n) total h ≡ trim_loop queue (pos 0) total h
unfolding trim_loop
no_excess [] n total h = ground arith
no_excess (p ∷ ps) n total h = ground arith

excess_bytes_of :
    (queue : List ℕ) (total limit : ℕ) (h : Heap)
    → total < 2 ^ 31
    → limit ≤ 2 ^ 31
    → trim_loop queue (to_int (u32 (total + 2 ^ 32 - limit))) total h
      ≡ trim_loop queue (pos (total - limit)) total h
excess_bytes_of queue total limit h small le = elim (Bool-cases (leb limit total)) [
  | inl over ↦ rw (excess_over total limit small (ground arith))
  | inr under ↦
      let none_over : total - limit ≡ 0 = ground arith in
      rw (excess_under total limit le (ground arith), none_over) (no_excess queue _ total h)
]

-- A valid queue over the limit loses buffers from its front, at most as many bytes as it is over the
-- limit and so many that less than the next buffer is left over it; a queue within the limit stays. The
-- references that were given up are those of the lost buffers, and the queue is valid again. Nothing
-- faults. The limit is at most 2 ^ 31.
pub trim_queue-Trimmed :
    (m : MusicIdClient) (h : Heap)
    → IsValid h m
    → m.queue_upper_limit_bytes ≤ 2 ^ 31
    → (t : Trimmed h m.queue
        (m.total_size - m.queue_upper_limit_bytes)
        m.total_size
        (trim_loop m.queue (pos (m.total_size - m.queue_upper_limit_bytes)) m.total_size h))
      × (let m' : MusicIdClient = record m { queue = t.rest; total_size = t.left } in
          (trim_queue m h ≡ ok (m', t.heap)) × IsValid t.heap m')
unfolding trim_queue
trim_queue-Trimmed m h valid limit =
    let excess : ℕ = m.total_size - m.queue_upper_limit_bytes in
    let t =
      trim_loop-Trimmed m.queue excess m.total_size h valid.holds valid.counted
        (omega (arith, valid.small)) (omega arith) in
    (
      t,
      (
        rw (
          excess_bytes_of m.queue m.total_size m.queue_upper_limit_bytes h valid.small limit,
          t.returns,
        ),
        record {
          holds = t.holds;
          counted = t.counted;
          small = omega (arith, t.shrinks, valid.small);
        },
      ),
    )
