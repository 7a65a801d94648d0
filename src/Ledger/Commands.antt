-- ===== src/Ledger/Commands.antt =====
-- Every call of the ledger that writes, as one type of commands, and runs of commands.
use Prim.Native.String.{◌++◌}
use qc_backend.Base.{String, Option, some, List, [], ◌∷◌, Result}
use qc_backend.Ledger.Types.{Error, Operational, Mutation, Actor, Entry, Store}
use qc_backend.Ledger.Operations.{
  reserve_credits, consume_reserved_credits, release_reserved_credits, record_purchased_credits,
}
use qc_backend.Ledger.Admin.{grant_credits, adjust_credits, revoke_credits}
use qc_backend.Ledger.Registration.{grant_initial_registration_bonus}
use qc_backend.Ledger.Outcomes.{Outcome}
use qc_backend.Ledger.Operational.{
  reserve_credits-Outcome, consume_reserved_credits-Outcome, release_reserved_credits-Outcome,
  record_purchased_credits-Outcome,
}
use qc_backend.Ledger.Administrative.{
  grant_credits-Outcome, adjust_credits-Outcome, revoke_credits-Outcome,
  grant_initial_registration_bonus-Outcome,
}

pub data Command : Type 0 where
  reserve consume release purchase : Operational → Command
  grant adjust revoke : Actor → String → Mutation → Command
  bonus : (tenant user metadata : String) → Command

unfoldable pub perform : Command → Store → Result Error Entry × Store
perform (reserve p) = reserve_credits p
perform (consume p) = consume_reserved_credits p
perform (release p) = release_reserved_credits p
perform (purchase p) = record_purchased_credits p
perform (grant actor tenant p) = grant_credits actor tenant p
perform (adjust actor tenant p) = adjust_credits actor tenant p
perform (revoke actor tenant p) = revoke_credits actor tenant p
perform (bonus tenant user metadata) = grant_initial_registration_bonus tenant user metadata

unfoldable pub perform_all : List Command → Store → Store
perform_all [] s = s
perform_all (c ∷ cs) s = perform_all cs (perform c s).1

-- The tenant and the idempotency key that a command carries.
abbrev pub tenant_of : Command → String
tenant_of (reserve p) = p.tenant_id
tenant_of (consume p) = p.tenant_id
tenant_of (release p) = p.tenant_id
tenant_of (purchase p) = p.tenant_id
tenant_of (grant actor tenant p) = tenant
tenant_of (adjust actor tenant p) = tenant
tenant_of (revoke actor tenant p) = tenant
tenant_of (bonus tenant user metadata) = tenant

abbrev pub key_of : Command → Option String
key_of (reserve p) = some p.idempotency_key
key_of (consume p) = some p.idempotency_key
key_of (release p) = some p.idempotency_key
key_of (purchase p) = some p.idempotency_key
key_of (grant actor tenant p) = p.idempotency_key
key_of (adjust actor tenant p) = p.idempotency_key
key_of (revoke actor tenant p) = p.idempotency_key
key_of (bonus tenant user metadata) = some ("registration-bonus:" ++ user)

pub perform-Outcome : (c : Command) (s : Store) → Outcome (tenant_of c) (key_of c) s (perform c s)
unfolding perform
perform-Outcome (reserve p) s = reserve_credits-Outcome p s
perform-Outcome (consume p) s = consume_reserved_credits-Outcome p s
perform-Outcome (release p) s = release_reserved_credits-Outcome p s
perform-Outcome (purchase p) s = record_purchased_credits-Outcome p s
perform-Outcome (grant actor tenant p) s = grant_credits-Outcome actor tenant p s
perform-Outcome (adjust actor tenant p) s = adjust_credits-Outcome actor tenant p s
perform-Outcome (revoke actor tenant p) s = revoke_credits-Outcome actor tenant p s
perform-Outcome (bonus tenant user metadata) s =
    grant_initial_registration_bonus-Outcome tenant user metadata s

-- A property of the tables that every outcome keeps holds after every run.
pub perform_all-keeps {κ} :
    (P : Store → Type κ)
    → ((tenant : String) (key : Option String) (s : Store) (r : Result Error Entry × Store)
        → Outcome tenant key s r
        → P s
        → P r.1)
    → (cs : List Command) (s : Store) → P s
    → P (perform_all cs s)
unfolding perform_all
perform_all-keeps P keep [] s h = h
perform_all-keeps P keep (c ∷ cs) s h =
    perform_all-keeps P keep cs _ (keep _ _ s (perform c s) (perform-Outcome c s) h)
