-- ===== src/Dns/Tests.antt =====
-- The DNS check of app/internal/integration/vercel.go on two pages of records.
use tunnel_service.Prelude.{ℕ, ◌≡◌, ◌↔◌, ◌≤◌, refl, Text, codes, false, none, some, [], ◌∷◌, lower}
use tunnel_service.Model.{ok}
use tunnel_service.Dns.{Json, Fetched, answer, turn_at, max_pages, has_exact_record}
use tunnel_service.Dns.Pages.{Leads, has_exact_record_iff}

abbrev json : Json
json = record { string = λ s. none; number = λ s. some s }

-- The first page hands on to the cursor 42, and the page of 42 is the last.
abbrev fetch : Text → Fetched
fetch [] = answer 200 (some (record { names = []; next = some (codes "42") }))
fetch (c ∷ s) =
    answer 200 (some (record { names = codes "later" ∷ []; next = some (codes "null") }))

has_exact_record_iff_example :
    (has_exact_record lower json (codes "token") (codes "example.com") fetch (codes "blog")
      ≡ ok false)
    ↔ ((k : ℕ) × Leads
          (turn_at lower json (codes "token") (codes "example.com") fetch (codes "blog"))
          []
          false
          k
        × (k ≤ max_pages))
has_exact_record_iff_example =
    has_exact_record_iff lower json (codes "token") (codes "example.com") fetch (codes "blog") false
      refl
