-- ===== src/Ledger/AuditTrail.antt =====
-- The ledger only grows, every administrator's entry is audited, and only a platform administrator with a reason can make one.
use mathlib.Core.List.{Memᴰ}
use qc_backend.Base.{
  String, List, [], ◌∷◌, ◌++◌, Option, some, none, true, false, ◌≡◌, ◌⊎◌, inl, inr, refl, ap,
  is_empty, All, Result, ok, from_result, ◌>>=◌, ◌>>◌, Result-cases, string_has_eq, is_blank,
  is_empty-trim, trim, Bool-cases, sym, ◌∙◌, arith,
}
use qc_backend.Ledger.Types.{
  Error, Role, platform_admin, Actor, Mutation, AuditRecord, Entry, Store,
}
use qc_backend.Ledger.Guards.{
  Call, is_platform_admin, ensure_platform_actor, require_reason, or_else,
}
use qc_backend.Ledger.Table.{inserted}
use qc_backend.Ledger.Admin.{grant_credits, adjust_credits, revoke_credits}
use qc_backend.Ledger.Outcomes.{Outcome, rejected, replayed, written, audited}
use qc_backend.Ledger.Commands.{
  Command, grant, adjust, revoke, perform, perform_all, perform_all-keeps,
}

-- The rows of before are the last rows of after.
abbrev pub Extends : List Entry → List Entry → Type 0
Extends before after = (new : List Entry) × (after ≡ new ++ before)

Outcome-Extends :
    (base : List Entry) (t : String) (key : Option String) (s : Store)
    (r : Result Error Entry × Store)
    → Outcome t key s r
    → Extends base s.entries
    → Extends base r.1.entries
Outcome-Extends base t key s r (rejected e h) v = rw h v
Outcome-Extends base t key s r (replayed e found h) v = rw h v
Outcome-Extends base t key s r (written d a same n h) v =
    rw h (inserted d s ∷ v.0, ap (λ l. inserted d s ∷ l) v.1)
Outcome-Extends base t key s r (audited d x a same n h) v =
    rw h (inserted d s ∷ v.0, ap (λ l. inserted d s ∷ l) v.1)

-- No run of calls changes or removes an entry: the old rows stay, new rows come on top.
pub perform_all-Extends :
    (cs : List Command) (s : Store) → Extends s.entries (perform_all cs s).entries
perform_all-Extends cs s =
    perform_all-keeps (λ t. Extends s.entries t.entries) (Outcome-Extends s.entries) cs s ([], refl)

-- The audit log has a row about this entry, unless no administrator wrote it.
abbrev pub IsLogged : List AuditRecord → Entry → Type 0
IsLogged log e =
    (e.actor_user_id ≡ none)
    ⊎ ((a : AuditRecord) × Memᴰ a log
        × (a.resource_id ≡ e.id)
        × (some a.actor_user_id ≡ e.actor_user_id)
        × (a.amount ≡ e.amount)
        × (a.available_delta ≡ e.available_delta))

IsLogged-more :
    (a : AuditRecord) (log : List AuditRecord) (e : Entry) → IsLogged log e → IsLogged (a ∷ log) e
IsLogged-more a log e (inl nobody) = inl nobody
IsLogged-more a log e (inr (b, listed, id, author, amount, delta)) =
    inr (b, Memᴰ.tail listed, id, author, amount, delta)

All-IsLogged-more :
    (a : AuditRecord) (log : List AuditRecord) (rows : List Entry)
    → All (IsLogged log) rows
    → All (IsLogged (a ∷ log)) rows
All-IsLogged-more a log [] h = tt
All-IsLogged-more a log (e ∷ es) h = (IsLogged-more a log e h.0, All-IsLogged-more a log es h.1)

Outcome-IsLogged :
    (t : String) (key : Option String) (s : Store) (r : Result Error Entry × Store)
    → Outcome t key s r
    → All (IsLogged s.audit) s.entries
    → All (IsLogged r.1.audit) r.1.entries
Outcome-IsLogged t key s r (rejected e h) v = rw h v
Outcome-IsLogged t key s r (replayed e found h) v = rw h v
Outcome-IsLogged t key s r (written d a same n h) v = rw h (inl n, v)
Outcome-IsLogged t key s r (audited d x a same n h) v = rw h (
  inr (x, Memᴰ.head refl, n.resource, n.actor, n.amount, n.available),
  All-IsLogged-more x s.audit s.entries v,
)

-- In every run, each entry that an administrator wrote has a row in the audit log with its id,
-- its author, its amount and its available delta.
pub perform_all-IsLogged :
    (cs : List Command) (s : Store)
    → All (IsLogged s.audit) s.entries
    → All (IsLogged (perform_all cs s).audit) (perform_all cs s).entries
perform_all-IsLogged cs s h =
    perform_all-keeps (λ t. All (IsLogged t.audit) t.entries) Outcome-IsLogged cs s h

-- What an administrative call must show: the reason of the request or, failing that, the
-- actor's is a text with more than white space in it.
pub record IsPrivileged (actor : Actor) (p : Mutation) : Type 0 where
  pub known : is_empty actor.actor_user_id ≡ false
  pub role : actor.role ≡ platform_admin
  pub reason : (r : String) × (or_else p.reason actor.reason ≡ some r) × (is_blank r ≡ false)

require_reason-ok :
    (o : Option String) (reason : String)
    → require_reason o ≡ ok reason
    → (r : String) × (o ≡ some r) × (is_blank r ≡ false)
unfolding require_reason
require_reason-ok none reason h = absurd cc
require_reason-ok (some r) reason h = elim (Bool-cases (is_empty (trim r))) [
  | inl empty ↦ let refused = (rw empty at h) in absurd cc
  | inr full ↦ (r, refl, sym (is_empty-trim r) ∙ full)
]

platform_admin-role : (r : Role) → is_platform_admin r ≡ true → r ≡ platform_admin
platform_admin-role platform_admin h = refl
platform_admin-role _ h = cc

ensure_platform_actor-ok :
    (actor : Actor)
    → ensure_platform_actor actor ≡ ok tt
    → (is_empty actor.actor_user_id ≡ false) × (actor.role ≡ platform_admin)
unfolding ensure_platform_actor
ensure_platform_actor-ok actor h = ground (arith, platform_admin-role actor.role)

module _ (actor : Actor) (p : Mutation) (s s' : Store) (e : Entry) where
  guards_passed-IsPrivileged :
      (rest : String → Call Entry)
      → (do
        from_result (ensure_platform_actor actor)
        reason ← from_result (require_reason (or_else p.reason actor.reason))
        rest reason)
          s
        ≡ (ok e, s')
      → IsPrivileged actor p
  guards_passed-IsPrivileged rest h = elim (Result-cases (ensure_platform_actor actor)) [
    | inr (x, denied) ↦ let r = rw denied at h in cc
    | inl (_, allowed) ↦ elim (Result-cases (require_reason (or_else p.reason actor.reason))) [
      | inr (x, blank) ↦ let r = rw (allowed, blank) at h in cc
      | inl (reason, given) ↦
          let (known, role) = ensure_platform_actor-ok actor allowed in
          record { known = known; role = role; reason = require_reason-ok _ reason given }
    ]
  ]

-- The three administrative calls.
pub data AdminKind : Type 0 where
  granting adjusting revoking : AdminKind

abbrev pub admin_command : AdminKind → Actor → String → Mutation → Command
admin_command granting = grant
admin_command adjusting = adjust
admin_command revoking = revoke

-- A grant, an adjustment or a revocation succeeds only for an actor with a user id and the role
-- of a platform administrator, and with a reason that is not blank.
pub admin_command-IsPrivileged :
    (k : AdminKind) (actor : Actor) (tenant : String) (p : Mutation) (s s' : Store) (e : Entry)
    → perform (admin_command k actor tenant p) s ≡ (ok e, s')
    → IsPrivileged actor p
unfolding perform grant_credits adjust_credits revoke_credits
admin_command-IsPrivileged granting actor tenant p s s' e h =
    guards_passed-IsPrivileged actor p s s' e _ h
admin_command-IsPrivileged adjusting actor tenant p s s' e h =
    guards_passed-IsPrivileged actor p s s' e _ h
admin_command-IsPrivileged revoking actor tenant p s s' e h =
    guards_passed-IsPrivileged actor p s s' e _ h
