-- ===== src/IpOut/Opening.antt =====
-- src/ip_out.cpp: the paths that `open_output` tries.
use rdk_audiocapturemgr.Prelude.{
  Bool-cases, sym, ℕ, zero, suc, ◌+◌, ◌<◌, ◌^◌, ◌≡◌, ◌⊎◌, inl, inr, refl, List, true, arith,
}
use rdk_audiocapturemgr.Prelude.Int.{negsuc}
use rdk_audiocapturemgr.Audio.{u32}
use rdk_audiocapturemgr.Socket.{Bind, bound, in_use, refused, close_fd}
use rdk_audiocapturemgr.IpOut.{
  open_fd, is_empty_path, false, pos, ltb_ℤ, ℤ, open_output, IpOutClient, sockpath, retry_loop,
}

-- What n attempts from a ticker on come to: one binds, behind k whose paths are in use; one fails; or
-- all paths are in use.
pub record Bound (bind : List ℕ → Bind) (n ticker : ℕ) (o : IpOutClient) (x : ℕ × IpOutClient)
    (k : ℕ) : Type 0 where
  pub within : k < n
  pub free : bind (sockpath (ticker + k)) ≡ bound
  pub tried : (j : ℕ) → j < k → bind (sockpath (ticker + j)) ≡ in_use
  pub result : x ≡ (ticker + k + 1, record o { data_path = sockpath (ticker + k); joinable = true })

pub record Refused (bind : List ℕ → Bind) (n ticker : ℕ) (o : IpOutClient) (x : ℕ × IpOutClient)
    (k : ℕ) : Type 0 where
  pub within : k < n
  pub fails : bind (sockpath (ticker + k)) ≡ refused
  pub tried : (j : ℕ) → j < k → bind (sockpath (ticker + j)) ≡ in_use
  pub result :
      x
      ≡ (ticker + k + 1, record o { opened = close_fd o.listen_fd o.opened; listen_fd = negsuc 0 })

pub record AllUsed (bind : List ℕ → Bind) (n ticker : ℕ) (o : IpOutClient) (x : ℕ × IpOutClient)
    : Type 0 where
  pub tried : (j : ℕ) → j < n → bind (sockpath (ticker + j)) ≡ in_use
  pub result : x ≡ (ticker + n, o)

abbrev pub Outcome : (List ℕ → Bind) → ℕ → ℕ → IpOutClient → ℕ × IpOutClient → Type 0
Outcome bind n ticker o x =
    ((k : ℕ) × Bound bind n ticker o x k)
    ⊎ (((k : ℕ) × Refused bind n ticker o x k) ⊎ AllUsed bind n ticker o x)

tried_more :
    (bind : List ℕ → Bind) (k ticker : ℕ)
    → bind (sockpath ticker) ≡ in_use
    → ((j : ℕ) → j < k → bind (sockpath (suc ticker + j)) ≡ in_use)
    → (j : ℕ) → j < suc k
    → bind (sockpath (ticker + j)) ≡ in_use
tried_more bind k ticker used tried zero h =
    let same : ticker + 0 ≡ ticker = omega arith in rw same used
tried_more bind k ticker used tried (suc j) h =
    let same : ticker + suc j ≡ suc ticker + j = omega arith in rw same (tried j (omega arith))

retried-Outcome :
    (bind : List ℕ → Bind) (n ticker : ℕ) (o : IpOutClient) (x : ℕ × IpOutClient)
    → bind (sockpath ticker) ≡ in_use
    → Outcome bind n (suc ticker) o x
    → Outcome bind (suc n) ticker o x
retried-Outcome bind n ticker o x used (inl (k, r)) =
    let same : suc ticker + k ≡ ticker + suc k = omega arith in
    inl (
      suc k,
      record {
        within = omega (arith, r.within);
        free = rw (sym same) r.free;
        tried = tried_more bind k ticker used r.tried;
        result = rw (sym same) r.result;
      },
    )
retried-Outcome bind n ticker o x used (inr (inl (k, r))) =
    let same : suc ticker + k ≡ ticker + suc k = omega arith in
    inr (
      inl (
        suc k,
        record {
          within = omega (arith, r.within);
          fails = rw (sym same) r.fails;
          tried = tried_more bind k ticker used r.tried;
          result = rw (sym same) r.result;
        },
      ))
retried-Outcome bind n ticker o x used (inr (inr r)) =
    let same : suc ticker + n ≡ ticker + suc n = omega arith in
    inr (
      inr
        (record { tried = tried_more bind n ticker used r.tried; result = rw (sym same) r.result }))

Bind-cases : (b : Bind) → (b ≡ in_use) ⊎ ((b ≡ bound) ⊎ (b ≡ refused))
Bind-cases in_use = inl refl
Bind-cases bound = inr (inl refl)
Bind-cases refused = inr (inr refl)

pub retry_loop-Outcome :
    (bind : List ℕ → Bind) (n ticker : ℕ) (o : IpOutClient)
    → ticker + n < 2 ^ 32
    → Outcome bind n ticker o (retry_loop bind n ticker o)
unfolding retry_loop
retry_loop-Outcome bind zero ticker o small =
    inr (inr (record { tried = λ j h. ground (arith, h); result = ground arith }))
retry_loop-Outcome bind (suc n) ticker o small =
    let next : u32 (suc ticker) ≡ suc ticker = omega arith in
    let first : ticker + 0 ≡ ticker = omega arith in
    let second : ticker + 1 ≡ suc ticker = omega arith in
    elim (Bind-cases (bind (sockpath ticker))) [
      | inl used ↦
          rw (used, next)
            (retried-Outcome bind n ticker o _ used
              (retry_loop-Outcome bind n (suc ticker) o (omega arith)))
      | inr (inl free) ↦ rw free (
          inl (
            0,
            record {
              within = omega arith;
              free = rw first free;
              tried = λ j h. ground (arith, h);
              result = rw (first, second, next);
            },
          ))
      | inr (inr fails) ↦ rw fails (
          inr (
            inl (
              0,
              record {
                within = omega arith;
                fails = rw first fails;
                tried = λ j h. ground (arith, h);
                result = rw (first, second, next);
              },
            )))
    ]

-- A client without a path whose socket is created, with a ticker that does not wrap round: one of at most
-- six attempts, each at the path of the next ticker, binds, behind attempts whose paths are in use,
-- and the client has that path and a thread; or one fails, and the socket is closed; or all six paths
-- are in use, and the socket stays open without a path or a thread. A client with a path is left
-- alone.
pub open_output-Outcome :
    (bind : List ℕ → Bind) (fd : ℤ) (ticker : ℕ) (o : IpOutClient)
    → ltb_ℤ fd (pos 0) ≡ false
    → ticker + 6 < 2 ^ 32
    → ((is_empty_path o.data_path ≡ true)
        × Outcome bind 6 ticker
            (record o { listen_fd = fd; opened = open_fd fd o.opened })
            (open_output bind fd ticker o))
      ⊎ ((is_empty_path o.data_path ≡ false) × (open_output bind fd ticker o ≡ (ticker, o)))
unfolding open_output
open_output-Outcome bind fd ticker o good small = elim (Bool-cases (is_empty_path o.data_path)) [
  | inl closed ↦ inl (
    closed,
    rw (closed, good)
        (retry_loop-Outcome bind 6 ticker
          (record o { listen_fd = fd; opened = open_fd fd o.opened }) small),
  )
  | inr named ↦ inr (named, rw named refl)
]
