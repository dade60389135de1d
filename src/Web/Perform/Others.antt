-- ===== src/Web/Perform/Others.antt =====
-- The changes of a member in app/internal/web/server.go stop at the resources of other users.
use tunnel_service.Prelude.{
  ℕ, ◌≡◌, ◌≢◌, refl, subst, ap, ◌∙◌, String, Text, Bool, true, false, Option, none, some, ◌==◌,
  ==_iff, Bool-cases, inl, inr,
}
use tunnel_service.Model.{Result, Error, err, forbidden, storage, SshKey, Subdomain, TcpPort}
use tunnel_service.Store.Db.{Db}
use tunnel_service.Store.Tx.{demand, found}
use tunnel_service.Store.Keys.{key_by_id}
use tunnel_service.Store.Reservations.{subdomain_by_id, tcp_port_by_id}
use tunnel_service.Service.World.{
  World, Fault, works, fails_before, fails_after, Io, ◌>>=◌, ◌>>◌, fail, stored, continue, transact,
  settle, lose, next_fault, rest_of,
}
use tunnel_service.Service.Keys.{allow, switch_key, discard_key}
use tunnel_service.Service.PublicKey.{Ssh}
use tunnel_service.Service.Resources.{release_subdomain, release_tcp_port}
use tunnel_service.Web.Session.{Request, Form, Current}
use tunnel_service.Web.Action.{Action, key_set, key_delete, subdomain_release, tcp_port_release}
use tunnel_service.Web.Perform.{
  Reply, Message, to_error, json_error, path_id, perform, action_redirect, with_id, public_error,
}

-- The action is a member's, and the row that its {id} names belongs to another user.
pub data IsOfAnother (actor : ℕ) (db : Db) : Action → Type 0 where
  of_key_set :
      (enabled : Bool) (id : Text) (n : ℕ) (k : SshKey)
      → path_id id ≡ some n
      → key_by_id n db ≡ some k
      → k.user_id ≢ actor
      → IsOfAnother actor db (key_set false enabled id)
  of_key_delete :
      (id : Text) (n : ℕ) (k : SshKey)
      → path_id id ≡ some n
      → key_by_id n db ≡ some k
      → k.user_id ≢ actor
      → IsOfAnother actor db (key_delete false id)
  of_subdomain :
      (id : Text) (n : ℕ) (d : Subdomain)
      → path_id id ≡ some n
      → subdomain_by_id n db ≡ some d
      → d.user_id ≢ actor
      → IsOfAnother actor db (subdomain_release false id)
  of_tcp_port :
      (id : Text) (n : ℕ) (p : TcpPort)
      → path_id id ≡ some n
      → tcp_port_by_id n db ≡ some p
      → p.user_id ≢ actor
      → IsOfAnother actor db (tcp_port_release false id)

-- The error that the first call of the store leaves the refusal with.
abbrev pub refusal_error : Fault → Error
refusal_error works = forbidden
refusal_error fails_before = storage
refusal_error fails_after = storage

abbrev pub shown_message : Reply → Option Message
shown_message (to_error path m) = some m
shown_message (json_error flash m) = some m
shown_message other = none

refuse-allow :
    (owner actor : ℕ) → owner ≢ actor → (w : World) → allow actor false owner w ≡ (err forbidden, w)
unfolding allow fail
refuse-allow owner actor n w = elim (Bool-cases (owner == actor)) [
  | inl e ↦ absurd (n ((==_iff owner actor).0 e))
  | inr e ↦ rw e refl
]

-- An operation that reads a row and then asks `allow` ends there.
refuse-owner :
    {A B : Type 0} (q : Db → Option A) (owner : A → ℕ) (actor : ℕ) (rest : A → Io B) (w : World)
    (a : A)
    → q w.db ≡ some a
    → owner a ≢ actor
    → (stored (demand q) >>= λ k. allow actor false (owner k) >> rest k) w
      ≡ (err (refusal_error (next_fault w.faults)), rest_of w)
unfolding ◌>>=◌ stored demand
refuse-owner {A} {B} q owner actor rest w a e n = go (next_fault w.faults)
  where
    next : A → Io B
    next k = allow actor false (owner k) >> rest k

    go :
        (f : Fault)
        → continue (transact f (demand q) (rest_of w)) next ≡ (err (refusal_error f), rest_of w)
    go works =
        ap (λ o. continue (settle (rest_of w) (found o w.db)) next) e
        ∙ ap (λ x. continue x (λ _. rest a)) (refuse-allow (owner a) actor n (rest_of w))
    go fails_before = refl
    go fails_after = ap (λ o. continue (lose (rest_of w) (found o w.db)) next) e

-- What a refusal leaves: the same database and files, and the message of the error.
pub record IsRefusal (w : World) (answer : Reply × World) : Type 0 where
  pub same_db : answer.1.db ≡ w.db
  pub same_files : answer.1.files ≡ w.files
  pub message : shown_message answer.0 ≡ some (public_error (refusal_error (next_fault w.faults)))

redirect-message :
    (A : Type 0) (json : Bool) (path flash : String) (e : Error)
    → shown_message (action_redirect {A = A} json path flash (err e)) ≡ some (public_error e)
unfolding action_redirect
redirect-message A true path flash e = refl
redirect-message A false path flash e = refl

with_id-IsRefusal :
    {A : Type 0} (json : Bool) (o : Option ℕ) (n : ℕ) (path flash : String) (call : ℕ → Io A)
    (w : World)
    → o ≡ some n
    → call n w ≡ (err (refusal_error (next_fault w.faults)), rest_of w)
    → IsRefusal w (with_id json o path flash call w)
with_id-IsRefusal {A} json none n path flash call w e h = cc
with_id-IsRefusal {A} json (some m) n path flash call w e h =
    let same : n ≡ m = cc in
    let ends =
      subst (λ x. call x w ≡ (err (refusal_error (next_fault w.faults)), rest_of w)) same h in
    record {
      same_db = ap (λ x. x.1.db) ends;
      same_files = ap (λ x. x.1.files) ends;
      message =
          ap (λ (x : Result A × World). shown_message (action_redirect json path flash x.0)) ends
          ∙ redirect-message A json path flash _;
    }

module _ {K : Type 0} (ssh : Ssh K) (to_lower : ℕ → ℕ) (dns : Text → Result Bool)
    (control_plane : Text) (r : Request) (f : Form) (c : Current) (w : World) where
  -- A member's change of a key, a subdomain or a TCP port that another user holds is refused: the
  -- database and the key files stay as they were, whatever calls fail, and the answer shows the
  -- error `forbidden`, or that the action was not completed when the first call of the store fails.
  pub perform_others :
      (a : Action)
      → IsOfAnother c.user.id w.db a
      → IsRefusal w (perform ssh to_lower dns control_plane a r f c w)
  unfolding perform switch_key discard_key release_subdomain release_tcp_port
  perform_others a (of_key_set enabled id n k i q o) =
      with_id-IsRefusal _ (path_id id) n _ _ (λ x. switch_key c.user.id false x enabled r.source_ip)
        w i (refuse-owner (key_by_id n) (λ (x : SshKey). x.user_id) c.user.id _ w k q o)
  perform_others a (of_key_delete id n k i q o) =
      with_id-IsRefusal _ (path_id id) n _ _ (λ x. discard_key c.user.id false x r.source_ip) w i
        (refuse-owner (key_by_id n) (λ (x : SshKey). x.user_id) c.user.id _ w k q o)
  perform_others a (of_subdomain id n d i q o) =
      with_id-IsRefusal _ (path_id id) n _ _ (λ x. release_subdomain c.user.id false x r.source_ip)
        w i (refuse-owner (subdomain_by_id n) (λ (x : Subdomain). x.user_id) c.user.id _ w d q o)
  perform_others a (of_tcp_port id n p i q o) =
      with_id-IsRefusal _ (path_id id) n _ _ (λ x. release_tcp_port c.user.id false x r.source_ip) w
        i (refuse-owner (tcp_port_by_id n) (λ (x : TcpPort). x.user_id) c.user.id _ w p q o)
