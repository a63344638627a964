-- ===== src/Transfers/Upload.antt =====
-- The upload endpoint of transfers.py: what is received before a file is pushed into its guest.
use beacon_mcp.Base.{
  ℕ, ◌+◌, ◌≤◌, String, ◌≡◌, refl, Bool, false, Option, none, some, List, [], ◌∷◌, arith, ltb,
  nat_eq, if◌then◌else◌, string_has_eq, Result, ok, err, Option-cases, Bool-cases, inl, inr,
}
use beacon_mcp.Transfers.{PushResult, UploadLinkStore, claim, finish}

-- What the endpoint reads of a request: whether its content type is a multipart form, its declared
-- length where that is a number, and the lengths of the chunks of its body.
pub record Request : Type 0 where
  pub multipart : Bool
  pub declared : Option ℕ
  pub chunks : List ℕ

-- `_error`
abbrev pub error_result : PushResult
error_result = record { status = some "error"; guest_status = false; bytes = none }

-- The `async for`: none when the body goes over the cap, and else its length.
unfoldable pub read_chunks : ℕ → ℕ → List ℕ → Option ℕ
read_chunks cap received [] = some received
read_chunks cap received (n ∷ chunks) =
    let rest = read_chunks cap (received + n) chunks in
    if ltb cap (received + n) then none else rest

-- `_status_code`
unfoldable pub status_code : PushResult → ℕ
status_code r =
    if elim r.status [ none ↦ false | some word ↦ string_has_eq.beq word "success" ]
    then 200
    else if r.guest_status
    then 409
    else 500

-- `result.setdefault("bytes", received)`
abbrev pub with_bytes : ℕ → PushResult → PushResult
with_bytes received r = elim r.bytes [ none ↦ record r { bytes = some received } | some n ↦ r ]

-- `declared.isdigit() and int(declared) > link.max_bytes`
abbrev pub over_cap : ℕ → Option ℕ → Bool
over_cap max_bytes none = false
over_cap max_bytes (some n) = ltb max_bytes n

-- What the push answers, or an error where it raises, with its `bytes`; and its HTTP status.
abbrev pub reply : {E : Type 0} → ℕ → Result E PushResult → PushResult × ℕ
reply received (err e) =
    (with_bytes received error_result, status_code (with_bytes received error_result))
reply received (ok r) = (with_bytes received r, status_code (with_bytes received r))

-- `_receive_and_push`. The pusher is given the number of staged bytes, and may raise.
unfoldable pub receive_and_push :
    {E : Type 0} → Option (ℕ → Result E PushResult) → ℕ → Request → PushResult × ℕ
unfolding read_chunks
receive_and_push none max_bytes r =
    if r.multipart
    then (error_result, 415)
    else if over_cap max_bytes r.declared
    then (error_result, 413)
    else (error_result, 503)
receive_and_push (some push) max_bytes r =
    if r.multipart
    then (error_result, 415)
    else if over_cap max_bytes r.declared
    then (error_result, 413)
    else elim (read_chunks max_bytes 0 r.chunks) [
      | none ↦ (error_result, 413)
      | some received ↦
          if nat_eq received 0 then (error_result, 400) else reply received (push received)
    ]

-- `upload_endpoint`: a token that cannot be claimed is answered by 404; else the link is settled. The
-- claim and the settling read the clock.
pub upload_endpoint :
    {E : Type 0}
    → Option (ℕ → Result E PushResult)
    → String
    → ℕ
    → ℕ
    → Request
    → UploadLinkStore
    → (PushResult × ℕ) × UploadLinkStore
unfolding receive_and_push
upload_endpoint pusher token t0 t1 r s =
    if string_has_eq.beq token ""
    then ((error_result, 404), s)
    else let (claimed, s') = claim token t0 s in
      elim claimed [
        | none ↦ ((error_result, 404), s')
        | some (ref, link) ↦
            let (result, code) = receive_and_push pusher link.max_bytes r in
            ((result, code), finish ref result t1 s')
      ]

read_chunks-bound :
    (cap received : ℕ) (chunks : List ℕ) (n : ℕ)
    → received ≤ cap
    → read_chunks cap received chunks ≡ some n
    → n ≤ cap
unfolding read_chunks
read_chunks-bound cap received [] n le h = ground arith
read_chunks-bound cap received (m ∷ chunks) n le h =
    ground (arith, read_chunks-bound cap (received + m) chunks n)

-- A pusher is only ever given a body that is not empty and not over the link's cap: two pushers that
-- agree on the lengths from 1 to the cap make the same answer to every request.
pub receive-within_cap :
    {E : Type 0} (push other : ℕ → Result E PushResult) (max_bytes : ℕ) (r : Request)
    → ((n : ℕ) → 1 ≤ n → n ≤ max_bytes → push n ≡ other n)
    → receive_and_push (some push) max_bytes r ≡ receive_and_push (some other) max_bytes r
unfolding receive_and_push
receive-within_cap push other max_bytes r same =
    elim (Option-cases (read_chunks max_bytes 0 r.chunks)) [
      | inl over ↦ rw (over, receive_and_push) refl
      | inr (n, read) ↦
          let le = read_chunks-bound max_bytes 0 r.chunks n (omega arith) read in
          rw (read, receive_and_push)
            (elim (Bool-cases (nat_eq n 0)) [
              | inl none_read ↦ rw none_read refl
              | inr some_read ↦ rw (some_read, same n (ground arith) le) refl
            ])
    ]

-- `_receive_and_push` answers 200 only when the request is no multipart form, its whole body fits in the
-- link's cap and is not empty, and the push of that body was answered by the result with status 200.
pub upload-success :
    {E : Type 0} (push : ℕ → Result E PushResult) (max_bytes : ℕ) (r : Request)
    (result : PushResult)
    → receive_and_push (some push) max_bytes r ≡ (result, 200)
    → (n : ℕ) × (read_chunks max_bytes 0 r.chunks ≡ some n)
      × (1 ≤ n)
      × (n ≤ max_bytes)
      × (reply n (push n) ≡ (result, 200))
      × (r.multipart ≡ false)
unfolding receive_and_push
upload-success push max_bytes r result h = elim (Option-cases (read_chunks max_bytes 0 r.chunks)) [
  | inl over ↦ ground (arith, over)
  | inr (n, read) ↦
      let le = read_chunks-bound max_bytes 0 r.chunks n (omega arith) read in
      (n, read, ground (arith, read), le, ground (arith, read), ground arith)
]
