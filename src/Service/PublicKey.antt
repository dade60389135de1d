-- ===== src/Service/PublicKey.antt =====
-- `ValidatePublicKey` of app/internal/service/service.go, over the package golang.org/x/crypto/ssh.
use tunnel_service.Prelude.{
  ℕ, ◌*◌, Text, String, Bool, true, false, not, ◌||◌, Option, none, some, List, [], ◌∷◌, ◌++◌, any,
  ltb, ◌==◌, if◌then◌else◌,
}
use tunnel_service.Model.{Result, ok, err, invalid_key, key_too_large}
use tunnel_service.Service.Names.{trim_space, byte_length}

-- What `ssh.ParseAuthorizedKey` returns.
pub record Parsed (K : Type 0) : Type 0 where
  pub key : K
  pub comment : Text
  pub options : List Text
  pub rest : Text

-- The functions of the package that the source calls.
pub record Ssh (K : Type 0) : Type 0 where
  pub parse_authorized_key : Text → Option (Parsed K)
  pub marshal_authorized_key : K → Text
  pub fingerprint_sha256 : K → String

abbrev pub max_public_key_bytes : ℕ
max_public_key_bytes = 16 * 1024

abbrev empty {ℓ} : {A : Type ℓ} → List A → Bool
empty [] = true
empty (x ∷ xs) = false

module _ {K : Type 0} (ssh : Ssh K) where
  unfoldable pub canonical : Parsed K → Text
  canonical p =
      let body = trim_space (ssh.marshal_authorized_key p.key) in
      if empty p.comment then body else body ++ (b' ' ∷ trim_space p.comment)

  unfoldable pub accept : Option (Parsed K) → Result (Text × String)
  accept none = err invalid_key
  accept (some p) =
      if not (empty p.options) || not (empty (trim_space p.rest))
      then err invalid_key
      else ok (canonical p, ssh.fingerprint_sha256 p.key)

  unfoldable pub validate_public_key : Text → Result (Text × String)
  unfolding accept canonical
  validate_public_key raw =
      let trimmed = trim_space raw in
      if ltb max_public_key_bytes (byte_length raw)
      then err key_too_large
      else if empty trimmed || any (λ c. c == 0) trimmed
      then err invalid_key
      else accept (ssh.parse_authorized_key trimmed)
