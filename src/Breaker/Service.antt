-- ===== src/Breaker/Service.antt =====
-- CircuitBreakerService.ts. The states of the chains, the panic log, and whether the contracts of the
-- EVM chains are paused, which their `togglePause` flips.
use qc_backend.Base.{
  ℕ, nat_eq, String, List, [], ◌∷◌, Option, some, none, Bool, true, false, not, ◌&&◌, ◌||◌, map,
  is_empty, trim, truthy, if◌then◌else◌, Result, ok, err, Action, pure, raise, raise_if,
  from_result, modify, ◌>>=◌, ◌>>◌,
}

-- `SupportedChain`
pub data Chain : Type 0 where
  algorand ethereum polygon solana stellar : Chain

abbrev pub chain_number : Chain → ℕ
chain_number algorand = 0
chain_number ethereum = 1
chain_number polygon = 2
chain_number solana = 3
chain_number stellar = 4

abbrev pub same_chain : Chain → Chain → Bool
same_chain a b = nat_eq (chain_number a) (chain_number b)

abbrev pub is_evm : Chain → Bool
is_evm ethereum = true
is_evm polygon = true
is_evm _ = false

-- `CircuitBreakerState`
pub data State : Type 0 where
  active paused : State

-- `CircuitBreakerStatus`, without its dates
pub record ChainStatus : Type 0 where
  pub chain : Chain
  pub state : State
  pub tx_hash : Option String

-- A row of PanicLog; `chain_scope` is `none` for ALL.
pub record PanicLog : Type 0 where
  pub triggered_by : String
  pub chain_scope : Option Chain
  pub is_resolved : Bool

pub record World : Type 0 where
  pub chain_states : Chain → State
  pub contract_paused : Chain → Bool
  pub panic_logs : List PanicLog

pub data Fault : Type 0 where
  invalid_signature pubkey_not_configured adapter_missing facet_not_configured : Fault
  chain_unreachable transaction_failed : Fault

pub data BreakerAction : Type 0 where
  pause resume : BreakerAction

-- What becomes of a toggle that is sent: it is refused, or not mined; it is mined, but waiting for it
-- rejects; or it is mined and confirmed under a hash.
pub data Toggling : Type 0 where
  refused unconfirmed : Toggling
  confirmed : (hash : String) → Toggling

-- The outside world: the environment, the check of a signature, whether a chain has an adapter, the
-- address of its contract (`none` where it, or a key to use it, is not configured), whether the
-- contract can be read, and what becomes of a toggle, which is mined before the call ends or never.
pub record Outside : Type 0 where
  pub admin_pubkey : Option String
  pub is_production : Bool
  pub verify_signature : BreakerAction → Chain → (signature pubkey : String) → Bool
  pub has_adapter : Chain → Bool
  pub facet_address : Chain → Option String
  pub answers : Chain → Bool
  pub toggle_pause : Chain → (address : String) → Toggling

abbrev pub Call : Type 0 → Type 0
Call A = Action World Fault A

abbrev pub set_at : {A : Type 0} → Chain → A → (Chain → A) → Chain → A
set_at key a f c = if same_chain c key then a else f c

abbrev pub set_state : Chain → State → World → World
set_state c s w = record w { chain_states = set_at c s w.chain_states }

abbrev pub set_contract : Chain → Bool → World → World
set_contract c b w = record w { contract_paused = set_at c b w.contract_paused }

abbrev pub with_pubkey :
    Outside → BreakerAction → Chain → String → Option String → Result Fault Bool
with_pubkey o action chain signature none =
    if o.is_production then err pubkey_not_configured else ok false
with_pubkey o action chain signature (some key) = ok (o.verify_signature action chain signature key)

-- `verifyAdminSignature`
unfoldable pub verify_admin_signature : Outside → BreakerAction → Chain → String → Result Fault Bool
verify_admin_signature o action chain signature =
    if is_empty signature || is_empty (trim signature)
    then ok false
    else with_pubkey o action chain signature (truthy o.admin_pubkey)

-- How `pauseEVMChain` or `resumeEVMChain` ends: it throws with the contract as it was, it throws
-- with the contract toggled, or it returns, with a hash if a transaction was sent.
pub data Toggled : Type 0 where
  stopped : Fault → Toggled
  lost : Toggled
  settled : (hash : Option String) → Toggled

abbrev pub waited : Toggling → Toggled
waited refused = stopped transaction_failed
waited unconfirmed = lost
waited (confirmed hash) = settled (some hash)

abbrev pub sent : Outside → Chain → Bool → String → Toggled
sent o chain true address = settled none
sent o chain false address = waited (o.toggle_pause chain address)

abbrev pub toggled : Outside → Chain → Bool → Option String → Toggled
toggled o chain is_there none = stopped facet_not_configured
toggled o chain is_there (some address) =
    if o.answers chain then sent o chain is_there address else stopped chain_unreachable

-- `pauseEVMChain` and `resumeEVMChain`, by whether the contract is as it is to be already.
unfoldable pub toggle_evm_chain : Outside → Chain → Bool → Toggled
toggle_evm_chain o chain is_there = toggled o chain is_there (truthy (o.facet_address chain))

abbrev pub panic : String → Option Chain → World → World
panic by scope w = record w {
  panic_logs =
      record { triggered_by = by; chain_scope = scope; is_resolved = false } ∷ w.panic_logs;
}

-- What follows a pause of the contract.
abbrev pub paused_evm : Chain → Toggled → Call ChainStatus
paused_evm c (stopped e) = raise e
paused_evm c lost = do modify (set_contract c true); raise transaction_failed
paused_evm c (settled hash) = do
  modify (set_contract c true)
  modify (set_state c paused)
  pure (record { chain = c; state = paused; tx_hash = hash })

-- The pause itself, as `pauseChain` and `pauseChainInternal` share it.
abbrev pub pause_by : Outside → String → Chain → Bool → Call ChainStatus
pause_by o by c true w = paused_evm c (toggle_evm_chain o c (w.contract_paused c)) w
pause_by o by c false w = (
  ok (record { chain = c; state = paused; tx_hash = none }),
  panic by (some c) (set_state c paused w),
)

unfoldable pub pause_chain_internal : Outside → String → Chain → Call ChainStatus
pause_chain_internal o by c = pause_by o by c (is_evm c)

unfoldable pub pause_chain : Outside → Chain → String → Call ChainStatus
unfolding verify_admin_signature
pause_chain o c signature = do
  valid ← from_result (verify_admin_signature o pause c signature)
  raise_if (not valid) invalid_signature
  raise_if (not (o.has_adapter c)) adapter_missing
  pause_by o "CircuitBreakerService" c (is_evm c)

abbrev pub resumed_evm : Chain → Toggled → Call ChainStatus
resumed_evm c (stopped e) = raise e
resumed_evm c lost = do modify (set_contract c false); raise transaction_failed
resumed_evm c (settled hash) = do
  modify (set_contract c false)
  modify (set_state c active)
  pure (record { chain = c; state = active; tx_hash = hash })

abbrev is_scope_of : Chain → Option Chain → Bool
is_scope_of c none = false
is_scope_of c (some k) = same_chain c k

abbrev resolved : Chain → PanicLog → PanicLog
resolved c l =
    if is_scope_of c l.chain_scope && not l.is_resolved then record l { is_resolved = true } else l

abbrev pub resume_by : Outside → Chain → Bool → Call ChainStatus
resume_by o c true w = resumed_evm c (toggle_evm_chain o c (not (w.contract_paused c))) w
resume_by o c false w = (
  ok (record { chain = c; state = active; tx_hash = none }),
  record (set_state c active w) { panic_logs = map (resolved c) w.panic_logs },
)

unfoldable pub resume_chain : Outside → Chain → String → Call ChainStatus
unfolding verify_admin_signature
resume_chain o c signature = do
  valid ← from_result (verify_admin_signature o resume c signature)
  raise_if (not valid) invalid_signature
  resume_by o c (is_evm c)

abbrev pub all_chains : List Chain
all_chains = algorand ∷ ethereum ∷ polygon ∷ solana ∷ stellar ∷ []

-- A chain whose pause fails is reported with the state that it has.
abbrev pub reported : Chain → Result Fault ChainStatus × World → ChainStatus × World
reported c (ok s, w) = (s, w)
reported c (err e, w) = (record { chain = c; state = w.chain_states c; tx_hash = none }, w)

abbrev pub consed : ChainStatus → List ChainStatus × World → List ChainStatus × World
consed s (ss, w) = (s ∷ ss, w)

unfoldable pub pause_each : Outside → String → List Chain → World → List ChainStatus × World
unfolding pause_chain_internal
pause_each o by [] w = ([], w)
pause_each o by (c ∷ cs) w =
    let r = reported c (pause_chain_internal o by c w) in consed r.0 (pause_each o by cs r.1)

abbrev pub with_global_panic : String → List ChainStatus × World → List ChainStatus × World
with_global_panic by (ss, w) = (ss, panic by none w)

unfoldable pub pause_all_chains : Outside → String → World → List ChainStatus × World
unfolding pause_each
pause_all_chains o by w = with_global_panic by (pause_each o by all_chains w)

abbrev pub is_paused : State → Bool
is_paused paused = true
is_paused active = false

unfoldable pub is_chain_paused : Chain → World → Bool
is_chain_paused c w = is_paused (w.chain_states c)

abbrev pub status_of : World → Chain → ChainStatus
status_of w c = record { chain = c; state = w.chain_states c; tx_hash = none }

unfoldable pub get_all_statuses : World → List ChainStatus
get_all_statuses w = map (status_of w) all_chains
