-- ===== src/Web/Internal/Errors.antt =====
-- What a refused call of the internal API leaves: app/internal/web/internal.go.
use tunnel_service.Prelude.{
  ℕ, ◌≤◌, ◌⊎◌, text_eq, text_eq→eq, ◌==◌, ◌≡◌, ap, refl, Text, Bool, true, false, Option, none,
  some, arith, Option-cases, inl, inr,
}
use tunnel_service.Model.{Time}
use tunnel_service.Store.Db.{Db}
use tunnel_service.Service.Names.{trim_space, byte_length}
use tunnel_service.Web.Internal.{
  Endpoint, authorize, connect, disconnect, telemetry, elsewhere, Response, status, allowed, handle,
  protect, serve, refusal, check_token, pass_or, Caller, granted,
}

-- A response that says the call was done.
abbrev pub is_done : Response → Bool
is_done (status code) = code == 204
is_done (allowed g) = true

-- A caller at a loopback address with the token of the file, of 32 bytes at least.
pub record Trusted (c : Caller) : Type 0 where
  pub near : c.loopback ≡ true
  pub file : Text
  pub read : c.token_file ≡ some file
  pub same : c.token ≡ trim_space file
  pub long : 32 ≤ byte_length c.token

refusal-ne-204 : (c : Caller) (code : ℕ) → refusal c ≡ some code → (code == 204) ≡ false
unfolding refusal
refusal-ne-204 c code h = ground arith

check_token-parts :
    (file got : Text)
    → check_token (some file) got ≡ none
    → (text_eq got (trim_space file) ≡ true) × (32 ≤ byte_length (trim_space file))
check_token-parts file got h = (ground arith, ground arith)

check_token-some :
    (o : Option Text) (got : Text) → check_token o got ≡ none → (file : Text) × (o ≡ some file)
check_token-some none got h = cc
check_token-some (some file) got h = (file, refl)

refusal-parts :
    (c : Caller)
    → refusal c ≡ none
    → (c.loopback ≡ true) × (check_token c.token_file c.token ≡ none)
unfolding refusal
refusal-parts c h = ground arith

refusal-Trusted : (c : Caller) → refusal c ≡ none → Trusted c
refusal-Trusted c h =
    let (near, checked) = refusal-parts c h in
    let (file, read) = check_token-some c.token_file c.token checked in
    let (same, long) = check_token-parts file c.token (rw read at checked) in
    let token = text_eq→eq c.token (trim_space file) same in
    record { near = near; file = file; read = read; same = token; long = rw token long }

module _ (to_lower : ℕ → ℕ) (domain : Text) (now : Time) where
  handle-kept :
      (e : Endpoint) (db : Db)
      → (is_done (handle to_lower domain now e db).0 ≡ true)
        ⊎ (((handle to_lower domain now e db).1 ≡ db)
            × (is_done (handle to_lower domain now e db).0 ≡ false))
  unfolding handle granted
  handle-kept (authorize (some q)) db = ground arith
  handle-kept (connect (some e)) db = ground arith
  handle-kept (disconnect id (some q)) db = ground arith
  handle-kept (telemetry (some q)) db = ground arith
  handle-kept (authorize none) db = ground arith
  handle-kept (connect none) db = ground arith
  handle-kept (disconnect id none) db = ground arith
  handle-kept (telemetry none) db = ground arith
  handle-kept (elsewhere known) db = ground arith

  serve-pass :
      (c : Caller) (e : Endpoint) (db : Db)
      → refusal c ≡ none
      → serve to_lower domain now c e db ≡ handle to_lower domain now e db
  unfolding serve protect
  serve-pass c e db r = ap (λ o. pass_or o (handle to_lower domain now e) db) r

  serve-refuse :
      (c : Caller) (e : Endpoint) (db : Db) {code : ℕ}
      → refusal c ≡ some code
      → serve to_lower domain now c e db ≡ (status code, db)
  unfolding serve protect
  serve-refuse c e db r = ap (λ o. pass_or o (handle to_lower domain now e) db) r

  -- Whatever the caller sends to the internal API, the database stays and no bind is allowed, or the
  -- caller is at a loopback address with the token of the file, of 32 bytes at least, and the answer
  -- is that the call was done.
  pub serve_changes :
      (c : Caller) (e : Endpoint) (db : Db)
      → (((serve to_lower domain now c e db).1 ≡ db)
          × (is_done (serve to_lower domain now c e db).0 ≡ false))
        ⊎ (Trusted c × (is_done (serve to_lower domain now c e db).0 ≡ true))
  serve_changes c e db = elim (Option-cases (refusal c)) [
    | inr (code, r) ↦ inl (rw (serve-refuse c e db r) (refl, refusal-ne-204 c code r))
    | inl r ↦ elim (handle-kept e db) [
      | inl good ↦ inr (refusal-Trusted c r, rw (serve-pass c e db r) good)
      | inr kept ↦ inl (rw (serve-pass c e db r) kept)
    ]
  ]
