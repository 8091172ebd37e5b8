-- ===== src/Music/Owner.antt =====
-- src/music_id.cpp: a client that has the only reference to each buffer of its queue, as the queue
-- manager leaves it where no other client keeps buffers.
use rdk_audiocapturemgr.Prelude.{
  ◌*◌, ◌≤◌, ltb, suc, if◌then◌else◌, Option, ℕ, ◌-◌, ◌≡◌, refl, List, [], ◌∷◌, ◌++◌, true, false,
  ok, arith, ==_iff, sym,
}
use rdk_audiocapturemgr.Prelude.Int.{pos}
use rdk_audiocapturemgr.Audio.{u32}
use rdk_audiocapturemgr.Buffer.{Heap}
use rdk_audiocapturemgr.QMgr.Clients.{mem}
use rdk_audiocapturemgr.QMgr.Flush.{mem-concat}
use rdk_audiocapturemgr.Music.{
  MusicIdClient, Request, trim_queue, set_precapture_duration, compute_queue_size,
  grab_fresh_sample,
}
use rdk_audiocapturemgr.Music.Limit.{AllWithin-append}
use rdk_audiocapturemgr.Music.Held.{IsValid, kept-Holds}
use rdk_audiocapturemgr.Music.Trim.{trim_queue-Trimmed}
use rdk_audiocapturemgr.Music.Ticks.{IsShort, computed-limit}
use rdk_audiocapturemgr.Music.Freed.{AllSole, AllSole-kept, Freed, trim_loop-Freed}

pub record IsOwner (h : Heap) (m : MusicIdClient) : Type 0 where
  pub valid : IsValid h m
  pub short : IsShort m
  pub sole : AllSole h m.queue

AllSole-right :
    (h : Heap) (xs ys : List ℕ)
    → AllSole h (xs ++ ys)
    → AllSole h ys × ((p : ℕ) → mem p ys ≡ true → mem p xs ≡ false)
AllSole-right h [] ys sole = (sole, λ p m. refl)
AllSole-right h (x ∷ xs) ys (new, one, sole) =
    let (right, apart) = AllSole-right h xs ys sole in
    (right, λ p m. ground (arith, apart p, mem-concat x xs ys, ==_iff p x))

-- Trimming deletes the buffers that it takes out of the queue, and no others.
pub trim_queue-IsOwner :
    (m : MusicIdClient) (h : Heap)
    → IsOwner h m
    → (rest dropped : List ℕ) × (left : ℕ) × (h' : Heap) × (trim_queue m h
        ≡ ok (record m { queue = rest; total_size = left }, h'))
      × (m.queue ≡ dropped ++ rest)
      × Freed dropped h h'
      × IsOwner h' (record m { queue = rest; total_size = left })
trim_queue-IsOwner m h owner =
    let (t, (runs, valid')) = trim_queue-Trimmed m h owner.valid owner.short.limit in
    let (dropped, split, freed) =
      trim_loop-Freed m.queue (pos (m.total_size - m.queue_upper_limit_bytes)) m.total_size h t.rest
        t.left t.heap owner.sole t.returns in
    let (right, apart) = AllSole-right h dropped t.rest (rw (sym split) owner.sole) in
    (
      t.rest,
      dropped,
      t.left,
      t.heap,
      runs,
      split,
      freed,
      record {
        valid = valid';
        short = record {
          precapture = owner.short.precapture;
          requests = owner.short.requests;
          limit = owner.short.limit;
        };
        sole = AllSole-kept h t.heap t.rest (λ p n. freed.kept p (apart p n)) right;
      },
    )

-- A new precapture duration: what it takes out of the queue is deleted.
pub set_precapture_duration-IsOwner :
    (data_rate seconds : ℕ) (m : MusicIdClient) (h : Heap)
    → data_rate ≤ 864000
    → seconds ≤ 120
    → IsOwner h m
    → (m' : MusicIdClient) × (h' : Heap) × (dropped : List ℕ) × (set_precapture_duration data_rate
          seconds m h
        ≡ ok (m', h'))
      × (m.queue ≡ dropped ++ m'.queue)
      × Freed dropped h h'
      × IsOwner h' m'
unfolding set_precapture_duration compute_queue_size
set_precapture_duration-IsOwner data_rate seconds m h rate most owner =
    let size : ℕ = u32 (seconds * data_rate) in
    let sized : MusicIdClient = record m {
      precapture_duration_seconds = seconds;
      precapture_size_bytes = size;
      queue_upper_limit_bytes =
          if ltb m.queue_upper_limit_bytes size then size else m.queue_upper_limit_bytes;
    } in
    let valid = owner.valid in
    let (rest, dropped, left, h', runs, split, freed, owner') =
      trim_queue-IsOwner (compute_queue_size data_rate sized) h (record {
        valid = record { holds = valid.holds; counted = valid.counted; small = valid.small };
        short = record {
          precapture = most;
          requests = owner.short.requests;
          limit = computed-limit data_rate sized rate most owner.short.requests;
        };
        sole = owner.sole;
      }) in
    (
      record (compute_queue_size data_rate sized) { queue = rest; total_size = left },
      h',
      dropped,
      runs,
      split,
      freed,
      owner',
    )

-- A request for a clip of at most 120 seconds leaves the queue alone.
pub grab_fresh_sample-IsOwner :
    (data_rate seconds : ℕ) (filename : List ℕ) (cb : Option ℕ) (cb_data : ℕ) (m : MusicIdClient)
    (h : Heap)
    → data_rate ≤ 864000
    → seconds ≤ 120
    → IsOwner h m
    → (let m' = (grab_fresh_sample data_rate seconds filename cb cb_data m).0 in
        (m'.queue ≡ m.queue) × IsOwner h m')
unfolding grab_fresh_sample compute_queue_size
grab_fresh_sample-IsOwner data_rate seconds filename cb cb_data m h rate most owner =
    let r : Request = record {
      id = m.request_counter;
      filename = filename;
      length = seconds;
      time_remaining = seconds;
      callback = cb;
      callback_data = cb_data;
    } in
    let asked : MusicIdClient = record m {
      requests = m.requests ++ (r ∷ []);
      request_counter = u32 (suc m.request_counter);
    } in
    let within = AllWithin-append 120 m.requests r owner.short.requests most in
    let valid = owner.valid in
    (
      refl,
      record {
        valid = record { holds = valid.holds; counted = valid.counted; small = valid.small };
        short = record {
          precapture = owner.short.precapture;
          requests = within;
          limit = computed-limit data_rate asked rate owner.short.precapture within;
        };
        sole = owner.sole;
      },
    )

-- What happens to other buffers does not matter to the owner.
pub IsOwner-kept :
    (h h' : Heap) (m : MusicIdClient)
    → ((p : ℕ) → mem p m.queue ≡ true → h'.cell p ≡ h.cell p)
    → IsOwner h m
    → IsOwner h' m
IsOwner-kept h h' m same owner =
    let (holds, sum) = kept-Holds h h' m.queue same owner.valid.holds in
    record {
      valid = record {
        holds = holds;
        counted = rw sum owner.valid.counted;
        small = owner.valid.small;
      };
      short = owner.short;
      sole = AllSole-kept h h' m.queue same owner.sole;
    }

-- Other members do not matter to the owner either.
pub IsOwner-same :
    (h : Heap) (m m' : MusicIdClient)
    → m'.queue ≡ m.queue
    → m'.requests ≡ m.requests
    → m'.total_size ≡ m.total_size
    → m'.precapture_duration_seconds ≡ m.precapture_duration_seconds
    → m'.queue_upper_limit_bytes ≡ m.queue_upper_limit_bytes
    → IsOwner h m
    → IsOwner h m'
IsOwner-same h m m' queue requests total precapture limit owner = record {
  valid = record {
    holds = rw queue owner.valid.holds;
    counted = rw (total, queue) owner.valid.counted;
    small = rw total owner.valid.small;
  };
  short = record {
    precapture = rw precapture owner.short.precapture;
    requests = rw requests owner.short.requests;
    limit = rw limit owner.short.limit;
  };
  sole = rw queue owner.sole;
}
