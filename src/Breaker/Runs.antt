-- ===== src/Breaker/Runs.antt =====
-- A chain that is paused here is paused by its contract.
use qc_backend.Base.{
  ℕ, nat_eq, nat_eq_iff, String, List, [], ◌∷◌, Bool, true, not, ◌&&◌, ◌||◌, ◌≡◌, refl, ◌∙◌, sym,
  ap, Result, Bool-cases, All, false, Option, some, none, truthy, inl, inr, arith, left_by, Kept,
  finished, failed, Kept-left_by, Kept-then, Kept-raise_if, Kept-from_result,
}
use qc_backend.Breaker.Reports.{Toggled-cases}
use qc_backend.Breaker.Service.{
  Chain, algorand, ethereum, polygon, solana, stellar, chain_number, same_chain, is_evm,
  ChainStatus, World, Outside, Fault, invalid_signature, adapter_missing, pause, resume,
  verify_admin_signature, toggle_evm_chain, Toggling, refused, unconfirmed, confirmed, Toggled,
  stopped, lost, settled, waited, toggled, pause_by, pause_chain_internal, pause_chain, resume_by,
  resume_chain, all_chains, reported, pause_each, pause_all_chains, is_paused,
}

-- Where the chain is an EVM chain and paused, its contract is.
abbrev pub is_halted : Chain → World → Bool
is_halted c w = not (is_evm c && is_paused (w.chain_states c)) || w.contract_paused c

evm_number : ℕ → Bool
evm_number n = nat_eq n 1 || nat_eq n 2

is_evm-number : (c : Chain) → is_evm c ≡ evm_number (chain_number c)
unfolding evm_number
is_evm-number algorand = refl
is_evm-number ethereum = refl
is_evm-number polygon = refl
is_evm-number solana = refl
is_evm-number stellar = refl

same_evm : (a b : Chain) → same_chain a b ≡ true → is_evm a ≡ is_evm b
same_evm a b h =
    is_evm-number a
    ∙ ap evm_number ((nat_eq_iff (chain_number a) (chain_number b)).0 h)
    ∙ sym (is_evm-number b)

abbrev pub is_unconfirmed : Toggling → Bool
is_unconfirmed refused = false
is_unconfirmed unconfirmed = true
is_unconfirmed (confirmed hash) = false

-- No toggle of this chain is mined without its confirmation.
abbrev pub NeverUnconfirmed : Outside → Chain → Type 0
NeverUnconfirmed o c = (address : String) → is_unconfirmed (o.toggle_pause c address) ≡ false

abbrev is_lost : Toggled → Bool
is_lost (stopped e) = false
is_lost lost = true
is_lost (settled hash) = false

is_lost-waited : (t : Toggling) → is_lost (waited t) ≡ is_unconfirmed t
is_lost-waited refused = refl
is_lost-waited unconfirmed = refl
is_lost-waited (confirmed hash) = refl

is_lost-toggled :
    (o : Outside) (k : Chain) (b : Bool) (address : Option String)
    → NeverUnconfirmed o k
    → is_lost (toggled o k b address) ≡ false
is_lost-toggled o k b none waits = refl
is_lost-toggled o k true (some a) waits = ground arith
is_lost-toggled o k false (some a) waits = elim (Bool-cases (o.answers k)) [
  | inl there ↦ rw there (is_lost-waited (o.toggle_pause k a) ∙ waits a)
  | inr silent ↦ rw silent
]

never-lost :
    (o : Outside) (k : Chain) (b : Bool) → NeverUnconfirmed o k → toggle_evm_chain o k b ≡ lost → ⊥
unfolding toggle_evm_chain
never-lost o k b waits h =
    let f = is_lost-toggled o k b (truthy (o.facet_address k)) waits in let g = ap is_lost h in cc

module _ (c : Chain) where
  abbrev Halted : World → Type 0
  Halted w = is_halted c w ≡ true

  pause_by-Halted :
      (o : Outside) (by : String) (k : Chain) (w : World)
      → Halted w
      → Kept Halted (λ _. Unit {0}) (pause_by o by k (is_evm k) w)
  pause_by-Halted o by k w h = elim (Bool-cases (is_evm k)) [
    | inr other ↦ let same = same_evm c k in rw other (finished (ground arith) tt)
    | inl evm ↦ elim (Toggled-cases (toggle_evm_chain o k (w.contract_paused k))) [
      | inl (e, bad) ↦ rw (evm, bad) (failed h)
      | inr (inl mined) ↦ rw (evm, mined) (failed (ground arith))
      | inr (inr (hash, done)) ↦ rw (evm, done) (finished (ground arith) tt)
    ]
  ]

  resume_by-Halted :
      (o : Outside) (k : Chain) (w : World)
      → NeverUnconfirmed o k
      → Halted w
      → Kept Halted (λ _. Unit {0}) (resume_by o k (is_evm k) w)
  resume_by-Halted o k w waits h = elim (Bool-cases (is_evm k)) [
    | inr other ↦ let same = same_evm c k in rw other (finished (ground arith) tt)
    | inl evm ↦ elim (Toggled-cases (toggle_evm_chain o k (not (w.contract_paused k)))) [
      | inl (e, bad) ↦ rw (evm, bad) (failed h)
      | inr (inl mined) ↦ absurd (never-lost o k _ waits mined)
      | inr (inr (hash, done)) ↦ rw (evm, done) (finished (ground arith) tt)
    ]
  ]

  pause_chain-Halted :
      (o : Outside) (k : Chain) (signature : String) (w : World)
      → Halted w
      → Kept Halted (λ _. Unit {0}) (pause_chain o k signature w)
  unfolding pause_chain
  pause_chain-Halted o k signature w h =
      Kept-then _ _ (Kept-from_result (verify_admin_signature o pause k signature) w h)
        λ valid w h _. Kept-then _ _ (Kept-raise_if (not valid) invalid_signature w h) λ _ w h _.
          Kept-then _ _ (Kept-raise_if (not (o.has_adapter k)) adapter_missing w h)
            λ _ w h _. pause_by-Halted o "CircuitBreakerService" k w h

  resume_chain-Halted :
      (o : Outside) (k : Chain) (signature : String) (w : World)
      → NeverUnconfirmed o k
      → Halted w
      → Kept Halted (λ _. Unit {0}) (resume_chain o k signature w)
  unfolding resume_chain
  resume_chain-Halted o k signature w waits h =
      Kept-then _ _ (Kept-from_result (verify_admin_signature o resume k signature) w h)
        λ valid w h _.
          Kept-then _ _ (Kept-raise_if (not valid) invalid_signature w h)
            λ _ w h _. resume_by-Halted o k w waits h

  reported-Halted :
      (k : Chain) (r : Result Fault ChainStatus × World)
      → Kept Halted (λ _. Unit {0}) r
      → Halted (reported k r).1
  reported-Halted k _ (finished h q) = h
  reported-Halted k _ (failed h) = h

  pause_each-Halted :
      (o : Outside) (by : String) (ks : List Chain) (w : World)
      → Halted w
      → Halted (pause_each o by ks w).1
  unfolding pause_each pause_chain_internal
  pause_each-Halted o by [] w h = h
  pause_each-Halted o by (k ∷ ks) w h =
      pause_each-Halted o by ks (reported k (pause_chain_internal o by k w)).1
        (reported-Halted k (pause_chain_internal o by k w) (pause_by-Halted o by k w h))

pub data Step : Type 0 where
  stop_one : (chain : Chain) (signature : String) → Step
  restart : (chain : Chain) (signature : String) → Step
  stop_all : (by : String) → Step

unfoldable pub run_step : Outside → Step → World → World
run_step o (Step.stop_one k signature) w = left_by (pause_chain o k signature w)
run_step o (Step.restart k signature) w = left_by (resume_chain o k signature w)
run_step o (Step.stop_all by) w = (pause_all_chains o by w).1

-- Each step with the world outside that it meets.
unfoldable pub run_steps : List (Outside × Step) → World → World
run_steps [] w = w
run_steps ((o, s) ∷ ss) w = run_steps ss (run_step o s w)

-- A resumption is not mined without its confirmation.
abbrev pub Confirms : Outside × Step → Type 0
Confirms (o, Step.stop_one k signature) = Unit
Confirms (o, Step.restart k signature) = NeverUnconfirmed o k
Confirms (o, Step.stop_all by) = Unit

run_step-Halted :
    (c : Chain) (o : Outside) (s : Step) (w : World)
    → Confirms (o, s)
    → is_halted c w ≡ true
    → is_halted c (run_step o s w) ≡ true
unfolding run_step pause_all_chains
run_step-Halted c o (Step.stop_one k signature) w good h =
    Kept-left_by _ (pause_chain-Halted c o k signature w h)
run_step-Halted c o (Step.restart k signature) w good h =
    Kept-left_by _ (resume_chain-Halted c o k signature w good h)
run_step-Halted c o (Step.stop_all by) w good h = pause_each-Halted c o by all_chains w h

-- Whatever pauses, resumptions and global pauses run, with whatever signatures and failures, but for
-- a resumption whose toggle is mined while the wait for it rejects: an EVM chain that the service
-- takes for paused has a paused contract, if this holds at the start.
pub run_steps-is_halted :
    (c : Chain) (ss : List (Outside × Step)) (w : World)
    → All Confirms ss
    → is_halted c w ≡ true
    → is_halted c (run_steps ss w) ≡ true
unfolding run_steps
run_steps-is_halted c [] w good h = h
run_steps-is_halted c ((o, s) ∷ ss) w good h =
    run_steps-is_halted c ss (run_step o s w) good.1 (run_step-Halted c o s w good.0 h)
