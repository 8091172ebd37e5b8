-- ===== src/Music/Ticks.antt =====
-- src/music_id.cpp: when the worker thread cuts the clips that were asked for.
use rdk_audiocapturemgr.Prelude.{
  inr, inl, Bool-cases, ◌∙◌, ap, ℕ, ◌-◌, ◌^◌, ◌≤◌, ◌==◌, ◌≡◌, refl, List, [], ◌∷◌, ◌++◌, Bool, ok,
  arith, if◌then◌else◌,
}
use rdk_audiocapturemgr.Audio.{calculate_data_rate, AudioProperties}
use rdk_audiocapturemgr.Buffer.{Heap}
use rdk_audiocapturemgr.Music.{max_length_of, compute_queue_size, Request, MusicIdClient}
use rdk_audiocapturemgr.Audio.Rate.{calculate_data_rate-exact}
use rdk_audiocapturemgr.Music.Held.{IsValid}
use rdk_audiocapturemgr.Music.Ready.{IsReady, grab-returns}
use rdk_audiocapturemgr.Music.Limit.{AllWithin, max_length_of-le, no_wrap, times_le}
use rdk_audiocapturemgr.Music.Trim.{trim_queue-Trimmed}
use rdk_audiocapturemgr.Music.Clips.{Completed, tick_requests, worker_tick}

-- The requests that are up, and the others with a second less to wait.
abbrev pub due : List Request → List Request
due [] = []
due (r ∷ rs) = if r.time_remaining == 0 then r ∷ due rs else due rs

abbrev pub waiting : List Request → List Request
waiting [] = []
waiting (r ∷ rs) =
    if r.time_remaining == 0
    then waiting rs
    else record r { time_remaining = r.time_remaining - 1 } ∷ waiting rs

abbrev pub requests_of : List Completed → List Request
requests_of [] = []
requests_of (c ∷ cs) = c.request ∷ requests_of cs

append_assoc_one :
    (xs : List Request) (y : Request) (ys : List Request) → (xs ++ (y ∷ [])) ++ ys ≡ xs ++ (y ∷ ys)
append_assoc_one [] y ys = refl
append_assoc_one (x ∷ xs) y ys = ap (λ l. x ∷ l) (append_assoc_one xs y ys)

AllWithin-without :
    (n : ℕ) (before : List Request) (r : Request) (rs : List Request)
    → AllWithin n (before ++ (r ∷ rs))
    → (r.length ≤ n) × AllWithin n (before ++ rs)
AllWithin-without n [] r rs within = within
AllWithin-without n (x ∷ before) r rs (first, within) =
    let (now, rest) = AllWithin-without n before r rs within in (now, (first, rest))

AllWithin-with :
    (n : ℕ) (before : List Request) (r : Request) (rs : List Request)
    → r.length ≤ n
    → AllWithin n (before ++ rs)
    → AllWithin n (before ++ (r ∷ rs))
AllWithin-with n [] r rs now within = (now, within)
AllWithin-with n (x ∷ before) r rs now (first, within) =
    (first, AllWithin-with n before r rs now within)

-- What clips may be cut and trimmed: none is longer than 120 seconds.
pub record IsShort (m : MusicIdClient) : Type 0 where
  pub precapture : m.precapture_duration_seconds ≤ 120
  pub requests : AllWithin 120 m.requests
  pub limit : m.queue_upper_limit_bytes ≤ 2 ^ 31

pub computed-limit :
    (rate : ℕ) (m : MusicIdClient)
    → rate ≤ 864000
    → m.precapture_duration_seconds ≤ 120
    → AllWithin 120 m.requests
    → (compute_queue_size rate m).queue_upper_limit_bytes ≤ 2 ^ 31
unfolding compute_queue_size
computed-limit rate m fits precapture within =
    let n : ℕ = max_length_of m.precapture_duration_seconds m.requests in
    let most = max_length_of-le m.precapture_duration_seconds 120 m.requests precapture within in
    rw (no_wrap n rate most fits) (omega (arith, times_le n 120 rate most, fits))

-- What a round leaves as it was.
record Same (m m' : MusicIdClient) : Type 0 where
  queue : m'.queue ≡ m.queue
  total_size : m'.total_size ≡ m.total_size
  convert_output : m'.convert_output ≡ m.convert_output

Same-trans : (m m₁ m₂ : MusicIdClient) → Same m m₁ → Same m₁ m₂ → Same m m₂
Same-trans m m₁ m₂ a b = record {
  queue = b.queue ∙ a.queue;
  total_size = b.total_size ∙ a.total_size;
  convert_output = b.convert_output ∙ a.convert_output;
}

IsReady-Same :
    (p : AudioProperties) (m m' : MusicIdClient) (h : Heap)
    → Same m m'
    → IsReady p m h
    → IsReady p m' h
IsReady-Same p m m' h same ready = record {
  plain = rw same.convert_output ready.plain;
  known = ready.known;
  loaded = rw same.queue ready.loaded;
}

-- The loop over the requests returns. Those that are not up stay, and the others are completed, in
-- their order.
abbrev Loops :
    AudioProperties → (List ℕ → Bool) → List Request → List Request → MusicIdClient → Heap → Type 0
Loops p opens before rs m h =
    (m' : MusicIdClient) × (completed : List Completed) × (tick_requests p (calculate_data_rate p)
        opens before rs m h
      ≡ ok (m', completed))
    × (m'.requests ≡ before ++ waiting rs)
    × (requests_of completed ≡ due rs)
    × Same m m'
    × IsShort m'

tick_requests-returns :
    (p : AudioProperties) (opens : List ℕ → Bool) (before rs : List Request) (m : MusicIdClient)
    (h : Heap)
    → IsReady p m h
    → IsShort m
    → m.requests ≡ before ++ rs
    → Loops p opens before rs m h
unfolding tick_requests compute_queue_size
tick_requests-returns p opens before [] m h ready short all = (
  m,
  [],
  refl,
  all,
  refl,
  record { queue = refl; total_size = refl; convert_output = refl },
  short,
)
tick_requests-returns p opens before (r ∷ rs) m h ready short all =
    let rate = calculate_data_rate p in
    let fits = calculate_data_rate-exact p in
    let (now, within) = AllWithin-without 120 before r rs (rw all at short.requests) in
    elim (Bool-cases (r.time_remaining == 0)) [
      | inl up ↦
          let (outbox, file, ret, returns) =
            grab-returns p (opens r.filename) r.length m h ready now in
          let m₁ : MusicIdClient =
            compute_queue_size rate (record m { outbox = outbox; requests = before ++ rs }) in
          let same : Same m m₁ = record {
            queue = refl;
            total_size = refl;
            convert_output = refl;
          } in
          let short₁ : IsShort m₁ = record {
            precapture = short.precapture;
            requests = within;
            limit =
                computed-limit rate (record m { outbox = outbox; requests = before ++ rs }) fits.1
                  short.precapture within;
          } in
          let (m', completed, rest, left, done, kept, short') =
            tick_requests-returns p opens before rs m₁ h (IsReady-Same p m m₁ h same ready) short₁
              refl in
          (
            m',
            record { request = r; file = file; ret = ret } ∷ completed,
            simp (up, returns, rest) refl,
            rw up left,
            rw (up, done) refl,
            Same-trans m m₁ m' same kept,
            short',
          )
      | inr later ↦
          let r' : Request = record r { time_remaining = r.time_remaining - 1 } in
          let before' : List Request = before ++ (r' ∷ []) in
          let m₁ : MusicIdClient = record m { requests = before' ++ rs } in
          let same : Same m m₁ = record {
            queue = refl;
            total_size = refl;
            convert_output = refl;
          } in
          let short₁ : IsShort m₁ = record {
            precapture = short.precapture;
            requests =
                rw (append_assoc_one before r' rs) (AllWithin-with 120 before r' rs now within);
            limit = short.limit;
          } in
          let (m', completed, rest, left, done, kept, short') =
            tick_requests-returns p opens before' rs m₁ h (IsReady-Same p m m₁ h same ready) short₁
              refl in
          (
            m',
            completed,
            simp (later, rest) refl,
            rw later (left ∙ append_assoc_one before r' (waiting rs)),
            rw later done,
            Same-trans m m₁ m' same kept,
            short',
          )
    ]

-- A round of the worker thread on a valid queue, where no conversion is asked for, the frequency is
-- a known one, the buffers are as long as they say and hold at most a second each, no clip is
-- longer than 120 seconds and the limit of the queue is at most 2 ^ 31: it returns, completes
-- exactly the requests whose time is up, in their order, leaves the others with a second less to
-- wait, and leaves the queue valid.
pub worker_tick-returns :
    (p : AudioProperties) (opens : List ℕ → Bool) (m : MusicIdClient) (h : Heap)
    → IsReady p m h
    → IsShort m
    → IsValid h m
    → (m' : MusicIdClient) × (h' : Heap) × (completed : List Completed) × (worker_tick p
          (calculate_data_rate p)
          opens
          m
          h
        ≡ ok (m', h', completed))
      × (m'.requests ≡ waiting m.requests)
      × (requests_of completed ≡ due m.requests)
      × IsValid h' m'
unfolding worker_tick
worker_tick-returns p opens m h ready short valid =
    let (m₁, completed, returns, left, done, same, short₁) =
      tick_requests-returns p opens [] m.requests m h ready short refl in
    let valid₁ : IsValid h m₁ = record {
      holds = rw same.queue valid.holds;
      counted = rw (same.total_size, same.queue) valid.counted;
      small = rw same.total_size valid.small;
    } in
    let (t, (trims, valid')) = trim_queue-Trimmed m₁ h valid₁ short₁.limit in
    (
      record m₁ { queue = t.rest; total_size = t.left },
      t.heap,
      completed,
      rw (returns, trims) refl,
      left,
      done,
      valid',
    )
