-- ===== src/Device/Replay.antt =====
-- No counter of a device is accepted twice, in whatever order the halves of taps run.
use qc_backend.Base.{
  ℕ, List, [], ◌∷◌, Bool, true, false, not, ◌&&◌, ◌||◌, leb, ltb, nat_eq, ◌==◌, ◌≡◌, refl, any,
  every, every-map, every-map_to, nat_has_eq, arith, Bool-cases, inl, inr, if◌then◌else◌, Kept,
  finished, failed, nat_eq_iff,
}
use qc_backend.Device.Types.{TapVerdict, valid, Device, TapLog, World, Tap}
use qc_backend.Device.Guard.{tap_log, log_tap, is_behind, advanced, write_tap}

abbrev pub is_valid : TapVerdict → Bool
is_valid valid = true
is_valid _ = false

-- The counters that were accepted for a device, newest first.
abbrev pub valid_counters : ℕ → List TapLog → List ℕ
valid_counters id [] = []
valid_counters id (l ∷ ls) =
    let rest = valid_counters id ls in
    if l.device_id == id && is_valid l.verdict then l.counter_value ∷ rest else rest

-- Each number is below the one before it.
abbrev pub IsDecreasing : List ℕ → Type 0
IsDecreasing [] = Unit
IsDecreasing (c ∷ cs) = (every (λ d. ltb d c) cs ≡ true) × IsDecreasing cs

-- Every one of these counters is at most this one.
abbrev pub reaches : List ℕ → ℕ → Bool
reaches [] last = true
reaches (c ∷ cs) last = leb c last && reaches cs last

-- The row's counter has reached all of these, if it is the device's row.
abbrev pub covers : ℕ → List ℕ → Device → Bool
covers id cs d = not (d.id == id) || reaches cs d.last_counter

-- What a device's rows and taps have in common: the accepted counters grow, and no row of the device
-- is behind them; its id has been drawn.
abbrev pub IsGuarded : ℕ → World → Type 0
IsGuarded id w =
    IsDecreasing (valid_counters id w.taps)
    × (every (covers id (valid_counters id w.taps)) w.devices ≡ true)
    × (ltb id w.next_id ≡ true)

below-covers :
    (c : ℕ) (last : ℕ) (cs : List ℕ)
    → ltb last c ≡ true
    → reaches cs last ≡ true
    → every (λ d. ltb d c) cs ≡ true
below-covers c last [] h k = refl
below-covers c last (d ∷ ds) h k = let rest = below-covers c last ds h in ground arith

ltb-every-leb :
    (c last : ℕ) (cs : List ℕ)
    → leb c last ≡ true
    → every (λ d. ltb d c) cs ≡ true
    → reaches cs last ≡ true
ltb-every-leb c last [] h k = refl
ltb-every-leb c last (d ∷ ds) h k = let rest = ltb-every-leb c last ds h in ground arith

-- A row that the update would advance shows that the counter is above all accepted ones.
any-behind :
    (id ctr : ℕ) (cs : List ℕ) (ds : List Device)
    → any (is_behind id ctr) ds ≡ true
    → every (covers id cs) ds ≡ true
    → every (λ c. ltb c ctr) cs ≡ true
any-behind id ctr cs [] h k = cc
any-behind id ctr cs (d ∷ ds) h k = elim (Bool-cases (is_behind id ctr d)) [
  | inl behind ↦ below-covers ctr d.last_counter cs (ground arith) (ground arith)
  | inr ahead ↦ any-behind id ctr cs ds (ground arith) (ground arith)
]

advanced-is_behind :
    (id : ℕ) (p : Tap) (d : Device)
    → is_behind id p.ctr d ≡ true
    → ((advanced id p d).id ≡ d.id) × ((advanced id p d).last_counter ≡ p.ctr)
unfolding advanced
advanced-is_behind id p d behind = rw behind (refl, refl)

advanced_ahead :
    (id : ℕ) (p : Tap) (d : Device) → is_behind id p.ctr d ≡ false → advanced id p d ≡ d
unfolding advanced
advanced_ahead id p d ahead = rw ahead

advanced-covers :
    (id : ℕ) (p : Tap) (cs : List ℕ) (d : Device)
    → every (λ c. ltb c p.ctr) cs ≡ true
    → covers id cs d ≡ true
    → covers id (p.ctr ∷ cs) (advanced id p d) ≡ true
advanced-covers id p cs d above h = elim (Bool-cases (is_behind id p.ctr d)) [
  | inl behind ↦
      let reached = ltb-every-leb p.ctr p.ctr cs (ground arith) above in
      let (same, now) = advanced-is_behind id p d behind in rw (same, now) (ground arith)
  | inr ahead ↦ rw (advanced_ahead id p d ahead) (ground arith)
]

advanced-other :
    (id other : ℕ) (p : Tap) (cs : List ℕ) (d : Device)
    → nat_eq other id ≡ false
    → covers id cs d ≡ true
    → covers id cs (advanced other p d) ≡ true
advanced-other id other p cs d differs h = elim (Bool-cases (is_behind other p.ctr d)) [
  | inl behind ↦
      let (same, now) = advanced-is_behind other p d behind in rw (same, now) (ground arith)
  | inr ahead ↦ rw (advanced_ahead other p d ahead) h
]

module _ (id : ℕ) where
  -- The rows and taps after a written tap.
  pub write_tap-IsGuarded :
      (d : Device) (p : Tap) (w : World)
      → IsGuarded id w
      → Kept (IsGuarded id) (λ _. Unit {0}) (write_tap d p w)
  unfolding write_tap
  write_tap-IsGuarded d p w (falls, covered, drawn) =
      elim (Bool-cases (any (is_behind d.id p.ctr) w.devices)) [
        | inr ahead ↦ rw ahead (failed (falls, covered, drawn))
        | inl behind ↦ elim (Bool-cases (nat_eq d.id id)) [
          | inr other ↦ rw behind (
              finished
                (rw other (
                  falls,
                  every-map (covers id (valid_counters id w.taps)) (advanced d.id p) w.devices
                      (λ r. advanced-other id d.id p (valid_counters id w.taps) r other) covered,
                  drawn,
                ))
                tt)
          | inl own ↦
              let same : d.id ≡ id = (nat_eq_iff d.id id).0 own in
              let cs = valid_counters id w.taps in
              let above = any-behind id p.ctr cs w.devices (rw same at behind) covered in
              rw behind (
                finished
                  (rw own (
                    (above, falls),
                    every-map_to (covers id cs) (covers id (p.ctr ∷ cs)) (advanced d.id p) w.devices
                        (λ r. rw same (advanced-covers id p cs r above)) covered,
                    drawn,
                  ))
                  tt)
        ]
      ]

  -- A tap that is not VALID is logged beside the accepted ones.
  valid_counters-log :
      (l : TapLog) (ls : List TapLog)
      → is_valid l.verdict ≡ false
      → valid_counters id (l ∷ ls) ≡ valid_counters id ls
  valid_counters-log l ls h = ground arith

  pub log_tap-IsGuarded :
      (device : ℕ) (b : Bool) (v : TapVerdict) (p : Tap) (w : World)
      → is_valid v ≡ false
      → IsGuarded id w
      → Kept (IsGuarded id) (λ _. Unit {0}) (log_tap device b v p w)
  unfolding log_tap
  log_tap-IsGuarded device b v p w h (falls, covered, drawn) =
      finished (rw (valid_counters-log (tap_log device b v p) w.taps h) (falls, covered, drawn)) tt
