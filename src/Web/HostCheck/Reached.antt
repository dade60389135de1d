-- ===== src/Web/HostCheck/Reached.antt =====
-- Whether `hostCheck` of app/internal/web/server.go lets a browser reach the callback that `Load`
-- of app/internal/config/config.go has accepted.
use tunnel_service.Prelude.{
  ℕ, suc, ◌≤◌, ◌<◌, ◌≡◌, ◌≢◌, ◌⊎◌, refl, sym, ap, ◌∙◌, inl, inr, arith, Text, text_eq→eq,
  text_eq_self, Bool, true, false, Option, none, some, [], ◌∷◌, ◌++◌, map, length, Bool-cases,
}
use tunnel_service.Service.Worker.{trim_dot}
use tunnel_service.Service.Resources.{empty}
use tunnel_service.Config.{Platform, ParsedUrl, Config, loaded, equal_fold, host_part, load}
use tunnel_service.Config.Sound.{IsPublic, load-IsSound}
use tunnel_service.Web.HostCheck.{host_check}

abbrev pub has_none {ℓ} : {A : Type ℓ} → Option A → Bool
has_none none = true
has_none (some a) = false

-- `net.SplitHostPort` takes its parts from `host:port` or from `[host]:port`.
abbrev pub IsSplit : Platform → Type 0
IsSplit o =
    (s host port : Text)
    → o.split_host_port s ≡ some (host, port)
    → (s ≡ host ++ (b':' ∷ port)) ⊎ (s ≡ b'[' ∷ (host ++ (b']' ∷ b':' ∷ port)))

length-map : (f : ℕ → ℕ) (s : Text) → length (map f s) ≡ length s
length-map f [] = refl
length-map f (c ∷ s) = ap suc (length-map f s)

length-trim_dot : (s : Text) → length (trim_dot s) ≤ length s
unfolding trim_dot
length-trim_dot [] = omega arith
length-trim_dot (c ∷ []) = ground arith
length-trim_dot (c ∷ d ∷ s) = let rest = length-trim_dot (d ∷ s) in omega arith

-- A dot at the end of a port, or none, is all that is cut off.
colon_stays : (p : Text) → 0 < length (trim_dot (b':' ∷ p))
unfolding trim_dot
colon_stays [] = ground arith
colon_stays (d ∷ p) = omega arith

port_stays : (h p : Text) → length h < length (trim_dot (h ++ (b':' ∷ p)))
unfolding trim_dot
port_stays [] p = colon_stays p
port_stays (c ∷ []) p = let rest = colon_stays p in omega arith
port_stays (c ∷ d ∷ h) p = let rest = port_stays (d ∷ h) p in omega arith

bracket_stays : (h p : Text) → length h < length (trim_dot (h ++ (b']' ∷ b':' ∷ p)))
unfolding trim_dot
bracket_stays [] p = let rest = colon_stays p in omega arith
bracket_stays (c ∷ []) p = let rest = colon_stays p in omega arith
bracket_stays (c ∷ d ∷ h) p = let rest = bracket_stays (d ∷ h) p in omega arith

longer_whole :
    (o : Platform) (s h p : Text)
    → IsSplit o
    → o.split_host_port s ≡ some (h, p)
    → length (trim_dot h) < length (trim_dot s)
unfolding trim_dot
longer_whole o s h p reads e = elim (reads s h p e) [
  | inl plain ↦
      let near = length-trim_dot h in
      let far = port_stays h p in let same = ap (λ t. length (trim_dot t)) plain in omega arith
  | inr bracketed ↦
      let near = length-trim_dot h in
      let far = bracket_stays h p in
      let same = ap (λ t. length (trim_dot t)) bracketed in
      let more = bracketed_more (h ++ (b']' ∷ b':' ∷ p)) in omega arith
]
  where
    bracketed_more : (t : Text) → length (trim_dot t) ≤ length (trim_dot (b'[' ∷ t))
    bracketed_more [] = omega arith
    bracketed_more (c ∷ t) = omega arith

equal_fold-map : (o : Platform) (s t : Text) → equal_fold o s t ≡ true → map o.fold s ≡ map o.fold t
unfolding equal_fold
equal_fold-map o s t h = text_eq→eq (map o.fold s) (map o.fold t) h

equal_fold-length : (o : Platform) (s t : Text) → equal_fold o s t ≡ true → length s ≡ length t
equal_fold-length o s t h =
    sym (length-map o.fold s) ∙ ap length (equal_fold-map o s t h) ∙ length-map o.fold t

equal_fold-sym : (o : Platform) (s t : Text) → equal_fold o s t ≡ true → equal_fold o t s ≡ true
unfolding equal_fold
equal_fold-sym o s t h = rw (equal_fold-map o s t h) (text_eq_self (map o.fold t))

compared :
    (o : Platform) (whole name : Text) (split : Option (Text × Text))
    → IsSplit o
    → o.split_host_port whole ≡ split
    → equal_fold o (trim_dot (host_part o split whole)) (trim_dot name) ≡ true
    → equal_fold o (trim_dot name) (trim_dot whole) ≡ has_none split
compared o whole name none reads e h = equal_fold-sym o (trim_dot whole) (trim_dot name) h
compared o whole name (some (host, port)) reads e h =
    elim (Bool-cases (equal_fold o (trim_dot name) (trim_dot whole))) [
      | inr off ↦ off
      | inl on ↦
          let long = longer_whole o whole host port reads e in
          let first = equal_fold-length o (trim_dot host) (trim_dot name) h in
          let second = equal_fold-length o (trim_dot name) (trim_dot whole) on in
          absurd (let bad : ⊥ = omega arith in bad)
    ]

-- Where Load has accepted the configuration, CONTROL_PLANE_HOST is set, and `split_host_port` takes
-- its parts from `host:port` or `[host]:port`, a request for the host of the redirect URI (with or
-- without a port) passes hostCheck exactly where CONTROL_PLANE_HOST is written without a port.
pub host_check_exact :
    (o : Platform) (c : Config) (u : ParsedUrl) (host : Text)
    → IsSplit o
    → load o ≡ loaded c
    → c.public_host ≢ []
    → o.parse_url c.discord_redirect_uri ≡ some u
    → host_part o (o.split_host_port host) host ≡ u.hostname
    → host_check o c host ≡ has_none (o.split_host_port c.public_host)
unfolding host_check
host_check_exact o c u host reads accepted given parsed names =
    let sound = load-IsSound o c accepted in
    let same : some sound.redirect ≡ some u = sym sound.redirect_read ∙ parsed in
    rw (given_test c.public_host given, names)
      (compared o c.public_host u.hostname (o.split_host_port c.public_host) reads refl
        (public_part sound.redirect (same_url same) sound.public))
  where
    given_test : (s : Text) → s ≢ [] → empty s ≡ false
    given_test [] h = absurd (h refl)
    given_test (x ∷ s) h = refl

    same_url : {a b : ParsedUrl} → some a ≡ some b → a ≡ b
    same_url e = cc

    public_part :
        (r : ParsedUrl)
        → r ≡ u
        → IsPublic o c r
        → equal_fold o
            (trim_dot (host_part o (o.split_host_port c.public_host) c.public_host))
            (trim_dot u.hostname)
          ≡ true
    public_part r e (inl none_given) = absurd (given none_given)
    public_part r e (inr equal) = rw e at equal
