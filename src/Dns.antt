-- ===== src/Dns.antt =====
-- The DNS check of app/internal/integration/vercel.go: `HasExactRecord` and `paginationValue`.
pub mod Pages
mod Tests
use tunnel_service.Prelude.{
  ℕ, zero, suc, Text, codes, text_eq, Bool, true, false, not, ◌&&◌, ◌||◌, ◌==◌, Option, none, some,
  List, [], ◌∷◌, ◌++◌, map, any, if◌then◌else◌,
}
use tunnel_service.Model.{Result, ok, err, dns_unavailable}
use tunnel_service.Service.Names.{trim_space}
use tunnel_service.Service.Resources.{empty}
use tunnel_service.Service.Worker.{trim_dot}

-- `encoding/json` on the raw bytes of a value: a string, and a number as it is written.
pub record Json : Type 0 where
  pub string : Text → Option Text
  pub number : Text → Option Text

-- The body of an answer: the names of its records, and the raw bytes of `pagination.next` where it
-- has a pagination.
pub record Body : Type 0 where
  pub names : List Text
  pub next : Option Text

-- No answer, or a status and the body where it decodes.
pub data Fetched : Type 0 where
  no_answer : Fetched
  answer : ℕ → Option Body → Fetched

pub data Cursor : Type 0 where
  last invalid : Cursor
  at : Text → Cursor

abbrev cursor_of : Option Text → Cursor
cursor_of none = invalid
cursor_of (some []) = invalid
cursor_of (some (c ∷ s)) = at (c ∷ s)

abbrev pub first_is_quote : Text → Bool
first_is_quote [] = false
first_is_quote (c ∷ s) = c == b'"'

unfoldable pub pagination_value : Json → Text → Cursor
pagination_value json raw =
    let s = trim_space raw in
    if empty s
    then invalid
    else if text_eq s (codes "null")
    then last
    else if first_is_quote s
    then cursor_of (json.string s)
    else cursor_of (json.number s)

-- What one page decides.
pub data Turn : Type 0 where
  unavailable found finished : Turn
  onward : Text → Turn

abbrev pub turn_next : Json → Option Text → Turn
turn_next json none = unavailable
turn_next json (some raw) = elim (pagination_value json raw) [
  | last ↦ finished
  | invalid ↦ unavailable
  | at c ↦ onward c
]

module _ (to_lower : ℕ → ℕ) (json : Json) where
  unfoldable pub record_name : Text → Text
  record_name name = map to_lower (trim_dot (trim_space name))

  -- A record of the label or of the full name; one with a star is passed over.
  unfoldable pub is_exact : Text → Text → Text → Bool
  unfolding record_name
  is_exact label fqdn name =
      not (any (λ c. c == b'*') (record_name name))
      && (text_eq (record_name name) label || text_eq (record_name name) fqdn)

  abbrev pub turn_body : Text → Text → Option Body → Turn
  turn_body label fqdn none = unavailable
  turn_body label fqdn (some b) =
      if any (is_exact label fqdn) b.names then found else turn_next json b.next

  unfoldable pub turn_of : Text → Text → Fetched → Turn
  unfolding is_exact
  turn_of label fqdn no_answer = unavailable
  turn_of label fqdn (answer status body) =
      if status == 200 then turn_body label fqdn body else unavailable

abbrev pub decide : Turn → (Text → Option Bool) → Text → List Text → Option Bool
decide unavailable next until seen = none
decide found next until seen = some true
decide finished next until seen = some false
decide (onward c) next until seen =
    if any (λ s. text_eq s c) seen || text_eq c until then none else next c

-- The loop over the pages, `until` the cursor of the next one; none is an error.
unfoldable pub read_pages : (Text → Turn) → ℕ → Text → List Text → Option Bool
read_pages turn zero until seen = none
read_pages turn (suc n) until seen =
    decide (turn until) (λ c. read_pages turn n c (c ∷ seen)) until seen

abbrev pub max_pages : ℕ
max_pages = 100

abbrev pub answer_of : Option Bool → Result Bool
answer_of none = err dns_unavailable
answer_of (some b) = ok b

module _ (to_lower : ℕ → ℕ) (json : Json) (token : Text) (domain : Text)
    (fetch : Text → Fetched) where
  unfoldable pub exact_label : Text → Text
  exact_label label = map to_lower (trim_dot label)

  unfoldable pub exact_fqdn : Text → Text
  unfolding exact_label
  exact_fqdn label = exact_label label ++ (b'.' ∷ map to_lower (trim_dot domain))

  -- The page that a cursor fetches.
  unfoldable pub turn_at : Text → Text → Turn
  unfolding turn_of exact_fqdn
  turn_at label until = turn_of to_lower json (exact_label label) (exact_fqdn label) (fetch until)

  unfoldable pub has_exact_record : Text → Result Bool
  unfolding turn_at
  has_exact_record label =
      if empty token
      then err dns_unavailable
      else answer_of (read_pages (turn_at label) max_pages [] [])
