-- ===== src/Store/Cursors.antt =====
-- The cursors of app/internal/store/hardening.go: a cursor that is at a sequence of its source or
-- past it.
use tunnel_service.Prelude.{
  ℕ, ◌≤◌, ◌≡◌, ◌∙◌, refl, String, Bool, true, false, ◌&&◌, List, [], ◌∷◌, arith, any, str_eq,
  eq_refl, eq_iff, All, All-intro, All-Row, any-Row, Row-any, if◌then◌else◌, update_where,
  Row-update_where, Bool-cases, inl, inr, &&_parts,
}
use tunnel_service.Model.{EventCursor, ok}
use tunnel_service.Store.Db.{Db}
use tunnel_service.Store.Tunnels.{move_cursor, behind}

-- The condition of `move_cursor` on a row.
abbrev pub moves : String → String → ℕ → EventCursor → Bool
moves id source n c = str_eq c.tunnel_id id && behind source n c

-- Every cursor of the tunnel is at the sequence or past it, and there is one.
pub record Passed (id source : String) (n : ℕ) (db : Db) : Type 0 where
  pub there : any (λ (c : EventCursor). str_eq c.tunnel_id id) db.cursors ≡ true
  pub past : All (λ c. moves id source n c ≡ false) db.cursors

abbrev set : String → ℕ → Bool → EventCursor → EventCursor
set source n gone c = record c { source_id = source; sequence = n; disconnected = gone }

-- A condition that the update keeps holds of as many rows after it.
any-kept :
    {A : Type 0} (p : A → Bool) (f : A → A) (q : A → Bool)
    → ((a : A) → q (f a) ≡ q a)
    → (xs : List A) → any q (update_where p f xs) ≡ any q xs
unfolding any update_where
any-kept p f q kept [] = refl
any-kept p f q kept (x ∷ xs) = ground (arith, kept x, any-kept p f q kept xs)

none-row : {A : Type 0} (p : A → Bool) (xs : List A) → any p xs ≡ false → All (λ a. p a ≡ false) xs
none-row p xs h =
    All-intro _ xs
      λ a r. elim (Bool-cases (p a)) [ inl e ↦ let on = Row-any p r e in cc | inr e ↦ e ]

set_stays :
    (id source : String) (n : ℕ) (gone : Bool) (b : EventCursor)
    → moves id source n (if moves id source n b then set source n gone b else b) ≡ false
set_stays id source n gone b = elim (Bool-cases (moves id source n b)) [
  | inl e ↦ rw e (ground (arith, eq_refl source))
  | inr e ↦ rw (e, e) refl
]

updated :
    (id source : String) (n : ℕ) (gone : Bool) (cs : List EventCursor)
    → All
        (λ c. moves id source n c ≡ false)
        (update_where (moves id source n) (set source n gone) cs)
updated id source n gone cs = All-intro _ _ λ a r.
    let (b, s, e) = Row-update_where (moves id source n) (set source n gone) cs a r in
    rw e (set_stays id source n gone b)

abbrev pub here : String → EventCursor → Bool
here id c = str_eq c.tunnel_id id

abbrev at_end : String → String → ℕ → Bool → EventCursor
at_end id source n gone = record {
  tunnel_id = id;
  source_id = source;
  sequence = n;
  disconnected = gone;
}

cursor_update :
    (id source : String) (n : ℕ) (gone : Bool) (db db' : Db) {b : Bool}
    → any (here id) db.cursors ≡ true
    → move_cursor id source n gone db ≡ ok (b, db')
    → db'.cursors ≡ update_where (moves id source n) (set source n gone) db.cursors
unfolding move_cursor
cursor_update id source n gone db db' e h = ground arith

cursor_insert :
    (id source : String) (n : ℕ) (gone : Bool) (db db' : Db) {b : Bool}
    → any (here id) db.cursors ≡ false
    → move_cursor id source n gone db ≡ ok (b, db')
    → db'.cursors ≡ at_end id source n gone ∷ db.cursors
unfolding move_cursor
cursor_insert id source n gone db db' e h = ground arith

-- No row of another tunnel moves.
elsewhere :
    (id source : String) (n : ℕ) (cs : List EventCursor)
    → any (here id) cs ≡ false
    → All (λ c. moves id source n c ≡ false) cs
elsewhere id source n cs e =
    All-intro _ cs
      λ a r. let off : here id a ≡ false = All-Row _ r (none-row (here id) cs e) in rw off refl

any-head :
    (id source : String) (n : ℕ) (gone : Bool) (cs : List EventCursor)
    → any (here id) (at_end id source n gone ∷ cs) ≡ true
unfolding any
any-head id source n gone cs = ground (arith, eq_refl id)

head_stays :
    (id source : String) (n : ℕ) (gone : Bool) → moves id source n (at_end id source n gone) ≡ false
head_stays id source n gone = ground (arith, eq_refl source)

pub move_cursor-Passed :
    (id source : String) (n : ℕ) (gone : Bool) (db db' : Db) {b : Bool}
    → move_cursor id source n gone db ≡ ok (b, db')
    → Passed id source n db'
move_cursor-Passed id source n gone db db' h = elim (Bool-cases (any (here id) db.cursors)) [
  | inl e ↦
      let cs = cursor_update id source n gone db db' e h in
      record {
        there =
            rw cs (
              any-kept (moves id source n) (set source n gone) (here id) (λ a. refl) db.cursors
              ∙ e);
        past = rw cs (updated id source n gone db.cursors);
      }
  | inr e ↦
      let cs = cursor_insert id source n gone db db' e h in
      record {
        there = rw cs (any-head id source n gone db.cursors);
        past = rw cs (head_stays id source n gone, elsewhere id source n db.cursors e);
      }
]

behind_less :
    (source : String) (m n : ℕ) (c : EventCursor)
    → m ≤ n
    → behind source m c ≡ true
    → behind source n c ≡ true
behind_less source m n c le h = ground arith

pub no_move :
    (id source : String) (m n : ℕ) (db : Db)
    → m ≤ n
    → Passed id source n db
    → any (moves id source m) db.cursors ≡ false
no_move id source m n db le p = elim (Bool-cases (any (moves id source m) db.cursors)) [
  | inr e ↦ e
  | inl e ↦
      let (c, r, is) = any-Row (moves id source m) db.cursors e in
      let (on, back) = &&_parts (here id c) (behind source m c) is in
      let off = All-Row _ r p.past in
      let far = behind_less source m n c le back in
      let both : moves id source n c ≡ true = rw (on, far) refl in cc
]

any-tail :
    {A : Type 0} (p : A → Bool) (x : A) (xs : List A) → any p xs ≡ true → any p (x ∷ xs) ≡ true
unfolding any
any-tail p x xs h = ground arith

still_passed :
    (id source t : String) (n m : ℕ) (gone : Bool) (c : EventCursor)
    → moves id source n c ≡ false
    → moves id source n (if moves t source m c then set source m gone c else c) ≡ false
still_passed id source t n m gone c h = ground (arith, eq_refl source)

not_here :
    (id t source : String) (n m : ℕ) (gone : Bool) (cs : List EventCursor)
    → any (here id) cs ≡ true
    → any (here t) cs ≡ false
    → moves id source n (at_end t source m gone) ≡ false
not_here id t source n m gone cs a b = elim (Bool-cases (str_eq t id)) [
  | inr e ↦ rw e refl
  | inl e ↦ let same = (eq_iff t id).0 e in let c = rw same at b in cc
]

-- A cursor that is moved for its source stays at a sequence or past it.
pub move_cursor-keeps-Passed :
    (id source t : String) (n m : ℕ) (gone : Bool) (db db' : Db) {b : Bool}
    → move_cursor t source m gone db ≡ ok (b, db')
    → Passed id source n db
    → Passed id source n db'
move_cursor-keeps-Passed id source t n m gone db db' h p =
    elim (Bool-cases (any (here t) db.cursors)) [
      | inl e ↦
          let cs = cursor_update t source m gone db db' e h in
          record {
            there = rw cs (
                any-kept (moves t source m) (set source m gone) (here id) (λ a. refl) db.cursors
                ∙ p.there);
            past = rw cs (
                All-intro _ _ λ a r.
                  let (c, s, e) =
                    Row-update_where (moves t source m) (set source m gone) db.cursors a r in
                  rw e (still_passed id source t n m gone c (All-Row _ s p.past)));
          }
      | inr e ↦
          let cs = cursor_insert t source m gone db db' e h in
          record {
            there = rw cs (any-tail (here id) (at_end t source m gone) db.cursors p.there);
            past = rw cs (not_here id t source n m gone db.cursors p.there e, p.past);
          }
    ]
