-- ===== src/Oauth/Flow/Keeps.antt =====
-- What is pending and issued at the endpoints of __main__.py stays backed by the log of accepted second factors.
use beacon_mcp.Base.{
  ℕ, ◌+◌, ◌≤◌, String, ◌≡◌, refl, sym, subst, inl, inr, Bool, true, false, not, Option, none, some,
  ◌∷◌, arith, Bool-cases, string_has_eq, ◌==◌, length, ltb, leb,
}
use beacon_mcp.Base.Dict.{
  Dict, lookup, insert, erase, retain, Every-map, Every-insert, Every-erase, Every-retain,
  Every-lookup, length-insert-le, length-erase-le, length-retain-le, length-erase_found,
}
use beacon_mcp.Clock.{seconds}
use beacon_mcp.Auth.Codes as Codes
use beacon_mcp.Auth.Codes.{AuthCode}
use beacon_mcp.Oauth.{
  AuthorizeParams, PendingAuthorizations, consume_pending, peek_pending, issue_pending,
  prune_pending, unless_late, pending_authorization_ttl,
}
use beacon_mcp.Oauth.Server.{Server, Response, approved}
use beacon_mcp.Oauth.Authorize.{Readings, authorize_finalize, finalize_with, authorize_redirect}
use beacon_mcp.Oauth.Approved.{Untouched, Decides}
use beacon_mcp.Oauth.Flow.{Log, InLog, noted, counted, IsIssued, Backed, IsBacked}

noted-grows :
    (accepted : Bool) (o : Option AuthorizeParams) (p : AuthorizeParams) (log : Log)
    → InLog p log
    → InLog p (noted accepted o log)
noted-grows true (some q) p log h = inr h
noted-grows true none p log h = h
noted-grows _ o p log h = h

noted-length :
    (accepted : Bool) (o : Option AuthorizeParams) (log : Log)
    → length log ≤ length (noted accepted o log)
noted-length true (some q) log = omega arith
noted-length true none log = omega arith
noted-length _ o log = omega arith

pub Backed-grow :
    (accepted : Bool) (o : Option AuthorizeParams) (log : Log) (n : ℕ)
    (pending : PendingAuthorizations) (codes : Dict String AuthCode)
    → Backed log n pending codes
    → Backed (noted accepted o log) n pending codes
Backed-grow accepted o log n pending codes b = record {
  approvals =
      Every-map (λ _ e. InLog e.0 log) (λ _ e. InLog e.0 (noted accepted o log)) pending
        (λ k e h. noted-grows accepted o e.0 log h) b.approvals;
  issued =
      Every-map (IsIssued log) (IsIssued (noted accepted o log)) codes
        (λ k c (p, there, for). (p, noted-grows accepted o p log there, for)) b.issued;
  room = omega (arith, noted-length accepted o log, b.room);
}

Backed-issue :
    (p : AuthorizeParams) (ticket : String) (t0 t1 : ℕ) (log : Log) (n : ℕ)
    (pending : PendingAuthorizations) (codes : Dict String AuthCode)
    → Backed log n pending codes
    → Backed (p ∷ log) n (issue_pending p ticket t0 t1 pending) codes
unfolding issue_pending prune_pending
Backed-issue p ticket t0 t1 log n pending codes b =
    let entry : AuthorizeParams × ℕ = (p, t1 + seconds pending_authorization_ttl) in
    let live = λ (e : AuthorizeParams × ℕ). not (ltb e.1 t0) in
    record {
      approvals =
          Every-insert (λ _ e. InLog e.0 (p ∷ log)) ticket entry (retain live pending)
            (λ j e. inl refl)
            (Every-retain (λ _ e. InLog e.0 (p ∷ log)) live pending
              (Every-map (λ _ e. InLog e.0 log) (λ _ e. InLog e.0 (p ∷ log)) pending
                (λ k e h. inr h) b.approvals));
      issued =
          Every-map (IsIssued log) (IsIssued (p ∷ log)) codes
            (λ k c (q, there, for). (q, inr there, for)) b.issued;
      room = omega (
        arith,
        b.room,
        length-insert-le ticket entry (retain live pending),
        length-retain-le live pending,
      );
    }

pub Decides-Backed :
    (p : AuthorizeParams) (ticket : String) (clock : Readings) (accepted : Bool) (log : Log) (n : ℕ)
    (s t : Server) (r : Response)
    → (r ≡ approved ticket (clock.issue + seconds pending_authorization_ttl) → accepted ≡ true)
    → Decides p ticket clock s (r, t)
    → IsBacked log n s
    → IsBacked (noted accepted (some p) log) n t
Decides-Backed p ticket clock accepted log n s t r only (same, inl kept) b =
    subst (λ d. Backed (noted accepted (some p) log) n d t.codes) (sym kept)
      (subst (λ c. Backed (noted accepted (some p) log) n s.pending c) (sym same)
        (Backed-grow accepted (some p) log n s.pending s.codes b))
Decides-Backed p ticket clock accepted log n s t r only (same, inr (answer, added)) b =
    subst (λ a. Backed (noted a (some p) log) n t.pending t.codes) (sym (only answer))
      (subst (λ d. Backed (p ∷ log) n d t.codes) (sym added)
        (subst
          (λ c. Backed (p ∷ log) n (issue_pending p ticket clock.prune clock.issue s.pending) c)
          (sym same) (Backed-issue p ticket clock.prune clock.issue log n s.pending s.codes b)))

pub Untouched-Backed :
    (log : Log) (n : ℕ) (s t : Server) → Untouched s t → IsBacked log n s → IsBacked log n t
Untouched-Backed log n s t (kept, same) b =
    subst (λ d. Backed log n d t.codes) (sym kept)
      (subst (λ c. Backed log n s.pending c) (sym same) b)

Backed-prune :
    (now : ℕ) (log : Log) (n : ℕ) (pending : PendingAuthorizations) (codes : Dict String AuthCode)
    → Backed log n pending codes
    → Backed log n (prune_pending now pending) codes
unfolding prune_pending
Backed-prune now log n pending codes b =
    let live = λ (e : AuthorizeParams × ℕ). not (ltb e.1 now) in
    record {
      approvals = Every-retain (λ _ e. InLog e.0 log) live pending b.approvals;
      issued = b.issued;
      room = omega (arith, b.room, length-retain-le live pending);
    }

Backed-erase :
    (ticket : String) (log : Log) (n : ℕ) (pending : PendingAuthorizations)
    (codes : Dict String AuthCode)
    → Backed log n pending codes
    → Backed log n (erase ticket pending) codes
Backed-erase ticket log n pending codes b = record {
  approvals = Every-erase (λ _ e. InLog e.0 log) ticket pending b.approvals;
  issued = b.issued;
  room = omega (arith, b.room, length-erase-le ticket pending);
}

-- A ticket becomes a code for its parameters.
Backed-mint :
    (ticket code : String) (p : AuthorizeParams) (expires_at t0 t1 : ℕ) (log : Log) (n : ℕ)
    (pending : PendingAuthorizations) (codes : Dict String AuthCode)
    → lookup ticket pending ≡ some (p, expires_at)
    → Backed log n pending codes
    → Backed log n
        (erase ticket pending)
        (Codes.issue p.client_id p.redirect_uri p.code_challenge p.code_challenge_method code t0 t1
          codes).1
unfolding Codes.issue Codes.cleanup
Backed-mint ticket code p expires_at t0 t1 log n pending codes found b =
    let entry : AuthCode = record {
      code = code;
      client_id = p.client_id;
      redirect_uri = p.redirect_uri;
      code_challenge = p.code_challenge;
      code_challenge_method = p.code_challenge_method;
      expires_at = t0 + seconds Codes.code_ttl;
    } in
    let live = λ (c : AuthCode). not (ltb c.expires_at t1) in
    let there =
      Every-lookup (λ _ e. InLog e.0 log) ticket (p, expires_at) pending b.approvals found in
    record {
      approvals = Every-erase (λ _ e. InLog e.0 log) ticket pending b.approvals;
      issued = Every-retain (IsIssued log) live (insert code entry codes) (
          Every-insert (IsIssued log) code entry codes (λ j e. (p, there, (refl, refl, refl, refl)))
            b.issued);
      room = omega (
        arith,
        b.room,
        length-erase_found ticket (p, expires_at) pending found,
        length-retain-le live (insert code entry codes),
        length-insert-le code entry codes,
      );
    }

pub peek-Backed :
    (ticket : String) (p0 p1 : ℕ) (log : Log) (n : ℕ) (s : Server)
    → IsBacked log n s
    → Backed log n (peek_pending ticket p0 p1 s.pending).1 s.codes
unfolding peek_pending
peek-Backed ticket p0 p1 log n s b = Backed-prune p0 log n s.pending s.codes b

finalize_with-Backed :
    (ticket code : String) (p1 t0 t1 : ℕ) (log : Log) (n : ℕ) (s : Server)
    (pending : PendingAuthorizations) (found : Option (AuthorizeParams × ℕ))
    → lookup ticket pending ≡ found
    → Backed log n pending s.codes
    → IsBacked log n
        (finalize_with
          (unless_late p1 found)
          code
          t0
          t1
          (record s { pending = erase ticket pending })).1
unfolding finalize_with authorize_redirect
finalize_with-Backed ticket code p1 t0 t1 log n s pending none e b =
    Backed-erase ticket log n pending s.codes b
finalize_with-Backed ticket code p1 t0 t1 log n s pending (some (p, expires_at)) e b =
    elim (Bool-cases (leb p1 expires_at)) [
      | inr late ↦ rw late (Backed-erase ticket log n pending s.codes b)
      | inl live ↦ rw live (Backed-mint ticket code p expires_at t0 t1 log n pending s.codes e b)
    ]

pub finalize-Backed :
    (ticket code : String) (p0 p1 t0 t1 : ℕ) (log : Log) (n : ℕ) (s : Server)
    → IsBacked log n s
    → IsBacked log n (authorize_finalize ticket code p0 p1 t0 t1 s).1
unfolding authorize_finalize consume_pending
finalize-Backed ticket code p0 p1 t0 t1 log n s b =
    let pruned = prune_pending p0 s.pending in
    elim (Bool-cases (ticket == "")) [
      | inl empty ↦ rw empty b
      | inr given ↦ rw given (
          finalize_with-Backed ticket code p1 t0 t1 log n s pruned (lookup ticket pruned) refl
            (Backed-prune p0 log n s.pending s.codes b))
    ]

pub Backed-spend :
    (code : String) (exchange : Bool) (log : Log) (n : ℕ) (pending : PendingAuthorizations)
    (codes : Dict String AuthCode)
    → (exchange ≡ true → (c : AuthCode) × (lookup code codes ≡ some c))
    → Backed log n pending codes
    → Backed log (counted exchange n) pending (erase code codes)
Backed-spend code false log n pending codes only b = record {
  approvals = b.approvals;
  issued = Every-erase (IsIssued log) code codes b.issued;
  room = omega (arith, b.room, length-erase-le code codes);
}
Backed-spend code true log n pending codes only b =
    let (c, found) = only refl in
    record {
      approvals = b.approvals;
      issued = Every-erase (IsIssued log) code codes b.issued;
      room = omega (arith, b.room, length-erase_found code c codes found);
    }
