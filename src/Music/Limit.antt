-- ===== src/Music/Limit.antt =====
-- The limit of the queue of the music id client, which is to hold the longest clip asked for.
use rdk_audiocapturemgr.Prelude.{
  ok, ℕ, ◌*◌, ◌≤◌, ◌≡◌, refl, Option, List, [], ◌∷◌, ◌++◌, arith, ltb, if◌then◌else◌,
}
use rdk_audiocapturemgr.Prelude.Int.{negsuc}
use rdk_audiocapturemgr.Audio.{u32}
use rdk_audiocapturemgr.Buffer.{Heap}
use rdk_audiocapturemgr.Music.Held.{IsValid}
use rdk_audiocapturemgr.Music.Trim.{trim_queue-Trimmed}
use rdk_audiocapturemgr.Music.{
  set_precapture_duration, MusicIdClient, Request, max_length_of, compute_queue_size,
  grab_fresh_sample, max_precapture_length_sec,
}

-- Clips of at most n seconds.
abbrev pub AllWithin : ℕ → List Request → Type 0
AllWithin n [] = Unit {0}
AllWithin n (r ∷ rs) = (r.length ≤ n) × AllWithin n rs

-- Clips that fit into `limit` bytes at the given rate.
abbrev pub AllCovered : ℕ → ℕ → List Request → Type 0
AllCovered data_rate limit [] = Unit {0}
AllCovered data_rate limit (r ∷ rs) = (r.length * data_rate ≤ limit) × AllCovered data_rate limit rs

pub max_length_of-le :
    (acc n : ℕ) (rs : List Request) → acc ≤ n → AllWithin n rs → max_length_of acc rs ≤ n
unfolding max_length_of
max_length_of-le acc n [] le within = le
max_length_of-le acc n (r ∷ rs) le (now, within) =
    max_length_of-le (if ltb acc r.length then r.length else acc) n rs (ground arith) within

max_length_of-ge : (acc : ℕ) (rs : List Request) → acc ≤ max_length_of acc rs
unfolding max_length_of
max_length_of-ge acc [] = omega arith
max_length_of-ge acc (r ∷ rs) =
    ground (arith, max_length_of-ge (if ltb acc r.length then r.length else acc) rs)

max_length_of-AllWithin : (acc : ℕ) (rs : List Request) → AllWithin (max_length_of acc rs) rs
unfolding max_length_of
max_length_of-AllWithin acc [] = tt
max_length_of-AllWithin acc (r ∷ rs) =
    let next : ℕ = if ltb acc r.length then r.length else acc in
    (ground (arith, max_length_of-ge next rs), max_length_of-AllWithin next rs)

pub times_le : (a b c : ℕ) → a ≤ b → a * c ≤ b * c
times_le a b c le = grind arith

within-AllCovered :
    (n data_rate : ℕ) (rs : List Request) → AllWithin n rs → AllCovered data_rate (n * data_rate) rs
within-AllCovered n data_rate [] within = tt
within-AllCovered n data_rate (r ∷ rs) (now, within) =
    (times_le r.length n data_rate now, within-AllCovered n data_rate rs within)

pub AllWithin-append :
    (n : ℕ) (rs : List Request) (r : Request)
    → AllWithin n rs
    → r.length ≤ n
    → AllWithin n (rs ++ (r ∷ []))
AllWithin-append n [] r within now = (now, tt)
AllWithin-append n (x ∷ rs) r (first, within) now = (first, AllWithin-append n rs r within now)

AllWithin-last :
    (n : ℕ) (rs : List Request) (r : Request) → AllWithin n (rs ++ (r ∷ [])) → r.length ≤ n
AllWithin-last n [] r (now, within) = now
AllWithin-last n (x ∷ rs) r (first, within) = AllWithin-last n rs r within

pub no_wrap : (n data_rate : ℕ) → n ≤ 120 → data_rate ≤ 864000 → u32 (n * data_rate) ≡ n * data_rate
no_wrap n data_rate most rate = omega (arith, times_le n 120 data_rate most)

-- After a request for a clip of at most 120 seconds, where the other clips and the precapture are as
-- short and the data rate is that of some format, the queue's limit has room for each pending clip, the
-- new one included, and for the precapture, and is at most 120 seconds of audio. The request is
-- queued, and yet the answer is -1.
pub grab_fresh_sample-AllCovered :
    (data_rate seconds : ℕ) (filename : List ℕ) (cb : Option ℕ) (cb_data : ℕ) (m : MusicIdClient)
    → data_rate ≤ 864000
    → seconds ≤ max_precapture_length_sec
    → m.precapture_duration_seconds ≤ max_precapture_length_sec
    → AllWithin max_precapture_length_sec m.requests
    → (let (m', ret) = grab_fresh_sample data_rate seconds filename cb cb_data m in
        let limit : ℕ = m'.queue_upper_limit_bytes in
        (seconds * data_rate ≤ limit)
        × AllCovered data_rate limit m'.requests
        × (m.precapture_duration_seconds * data_rate ≤ limit)
        × (limit ≤ max_precapture_length_sec * data_rate)
        × (ret ≡ negsuc 0))
unfolding grab_fresh_sample compute_queue_size
grab_fresh_sample-AllCovered data_rate seconds filename cb cb_data m rate short precapture within =
    let req : Request = record {
      id = m.request_counter;
      filename = filename;
      length = seconds;
      time_remaining = seconds;
      callback = cb;
      callback_data = cb_data;
    } in
    let rs : List Request = m.requests ++ (req ∷ []) in
    let n : ℕ = max_length_of m.precapture_duration_seconds rs in
    let all = max_length_of-AllWithin m.precapture_duration_seconds rs in
    let most : n ≤ 120 =
      max_length_of-le m.precapture_duration_seconds 120 rs precapture
        (AllWithin-append 120 m.requests req within short) in
    let exact : u32 (n * data_rate) ≡ n * data_rate = no_wrap n data_rate most rate in
    (
      rw exact (times_le seconds n data_rate (AllWithin-last n m.requests req all)),
      rw exact (within-AllCovered n data_rate rs all),
      rw exact (
          times_le m.precapture_duration_seconds n data_rate
            (max_length_of-ge m.precapture_duration_seconds rs)),
      rw exact (times_le n 120 data_rate most),
      refl,
    )

-- A new precapture duration of at most 120 seconds on a valid queue: nothing faults, the queue is
-- trimmed to the new limit and stays valid, the limit has room for the precapture, and its size is
-- the duration times the data rate.
pub set_precapture_duration-IsValid :
    (data_rate seconds : ℕ) (m : MusicIdClient) (h : Heap)
    → IsValid h m
    → data_rate ≤ 864000
    → seconds ≤ max_precapture_length_sec
    → AllWithin max_precapture_length_sec m.requests
    → (m' : MusicIdClient) × (h' : Heap) × (set_precapture_duration data_rate seconds m h
        ≡ ok (m', h'))
      × IsValid h' m'
      × (seconds * data_rate ≤ m'.queue_upper_limit_bytes)
      × (m'.precapture_size_bytes ≡ seconds * data_rate)
unfolding set_precapture_duration compute_queue_size
set_precapture_duration-IsValid data_rate seconds m h valid rate short within =
    let n : ℕ = max_length_of seconds m.requests in
    let most : n ≤ 120 = max_length_of-le seconds 120 m.requests short within in
    let exact : u32 (n * data_rate) ≡ n * data_rate = no_wrap n data_rate most rate in
    let size : u32 (seconds * data_rate) ≡ seconds * data_rate =
      no_wrap seconds data_rate short rate in
    let limited : MusicIdClient = record m {
      precapture_duration_seconds = seconds;
      precapture_size_bytes = u32 (seconds * data_rate);
      queue_upper_limit_bytes = u32 (n * data_rate);
    } in
    let (t, (runs, valid')) =
      trim_queue-Trimmed limited h
        (record { holds = valid.holds; counted = valid.counted; small = valid.small })
        (rw exact (omega (arith, times_le n 120 data_rate most))) in
    (
      record limited { queue = t.rest; total_size = t.left },
      t.heap,
      runs,
      valid',
      rw exact (times_le seconds n data_rate (max_length_of-ge seconds m.requests)),
      size,
    )
