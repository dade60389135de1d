-- ===== src/Web/Action/Paths.antt =====
-- The paths that the routes of app/internal/web/server.go are written in, and how `apiAction` reads
-- one back with `strings.Trim` and `strings.Split`.
use tunnel_service.Prelude.{
  ◌≡◌, ◌≢◌, refl, sym, ap, ◌∙◌, Text, false, arith, List, [], ◌∷◌, ◌++◌, All, any, ◌==◌,
}
use tunnel_service.Web.Action.{split_slash, drop_slashes, drop_last_slashes, trim_slashes}

-- A segment of a path: some bytes, no slash among them.
pub record IsSegment (s : Text) : Type 0 where
  pub some_byte : s ≢ []
  pub no_slash : any (λ c. c == b'/') s ≡ false

unfoldable pub path_of : List Text → Text
path_of [] = []
path_of (s ∷ segments) = b'/' ∷ (s ++ path_of segments)

drop_last-append :
    (s t : Text) → t ≢ [] → drop_last_slashes t ≡ t → drop_last_slashes (s ++ t) ≡ s ++ t
unfolding drop_last_slashes
drop_last-append [] t n h = h
drop_last-append (c ∷ s) [] n h = absurd (n refl)
drop_last-append (c ∷ []) (d ∷ t) n h = rw h
drop_last-append (c ∷ e ∷ s) (d ∷ t) n h = rw (drop_last-append (e ∷ s) (d ∷ t) n h)

drop_last-segment : (s : Text) → any (λ c. c == b'/') s ≡ false → drop_last_slashes s ≡ s
unfolding drop_last_slashes any
drop_last-segment [] h = refl
drop_last-segment (c ∷ []) h = ground arith
drop_last-segment (c ∷ d ∷ s) h = rw (drop_last-segment (d ∷ s) (ground arith))

split-segment : (s : Text) → any (λ c. c == b'/') s ≡ false → split_slash s ≡ s ∷ []
unfolding split_slash any
split-segment [] h = refl
split-segment (c ∷ s) h = let rest = split-segment s (ground arith) in rw rest (ground arith)

split-join :
    (s t : Text)
    → any (λ c. c == b'/') s ≡ false
    → split_slash (s ++ (b'/' ∷ t)) ≡ s ∷ split_slash t
unfolding split_slash any
split-join [] t h = refl
split-join (c ∷ s) t h = let rest = split-join s t (ground arith) in rw rest (ground arith)

append_nil : (s : Text) → s ++ [] ≡ s
append_nil [] = refl
append_nil (c ∷ s) = ap (λ t. c ∷ t) (append_nil s)

append-not_nil : (s t : Text) → s ≢ [] → s ++ t ≢ []
append-not_nil [] t n = absurd (n refl)
append-not_nil (c ∷ s) t n = λ e. cc

drop_slashes-path : (s t : Text) → IsSegment s → drop_slashes (b'/' ∷ (s ++ t)) ≡ s ++ t
unfolding drop_slashes any
drop_slashes-path [] t h = absurd (h.some_byte refl)
drop_slashes-path (c ∷ s) t h = let free = h.no_slash in ground arith

drop_last-path :
    (s : Text) (segments : List Text)
    → IsSegment s
    → All IsSegment segments
    → drop_last_slashes (s ++ path_of segments) ≡ s ++ path_of segments
unfolding path_of
drop_last-path s [] h w = rw (append_nil s) (drop_last-segment s h.no_slash)
drop_last-path s (t ∷ segments) h w =
    drop_last-append s (b'/' ∷ (t ++ path_of segments)) (λ e. cc)
      (drop_last-append (b'/' ∷ []) (t ++ path_of segments) (append-not_nil t _ w.0.some_byte)
        (drop_last-path t segments w.0 w.1))

split-path :
    (s : Text) (segments : List Text)
    → IsSegment s
    → All IsSegment segments
    → split_slash (s ++ path_of segments) ≡ s ∷ segments
unfolding path_of
split-path s [] h w = rw (append_nil s) (split-segment s h.no_slash)
split-path s (t ∷ segments) h w =
    split-join s (t ++ path_of segments) h.no_slash
    ∙ ap (λ x. s ∷ x) (split-path t segments w.0 w.1)

-- A path that is written from segments is read back as the same segments.
pub split-path_of :
    (s : Text) (segments : List Text)
    → IsSegment s
    → All IsSegment segments
    → split_slash (trim_slashes (path_of (s ∷ segments))) ≡ s ∷ segments
unfolding path_of trim_slashes
split-path_of s segments h w =
    ap (λ t. split_slash (drop_last_slashes t)) (drop_slashes-path s (path_of segments) h)
    ∙ ap split_slash (drop_last-path s segments h w)
    ∙ split-path s segments h w

-- Two paths of segments are equal only when the segments are.
pub path_of_inj :
    (s t : Text) (us vs : List Text)
    → IsSegment s
    → All IsSegment us
    → IsSegment t
    → All IsSegment vs
    → path_of (s ∷ us) ≡ path_of (t ∷ vs)
    → s ∷ us ≡ t ∷ vs
path_of_inj s t us vs hs hu ht hv e =
    sym (split-path_of s us hs hu)
    ∙ ap (λ p. split_slash (trim_slashes p)) e
    ∙ split-path_of t vs ht hv
