-- ===== src/Background/Exclusive.antt =====
-- One live run for each session, over every interleaving of callers and run goroutines.
use sonalmod.Base.{
  ℕ, ◌<◌, ◌≡◌, refl, false, Option, none, some, List, [], ◌∷◌, Text, text_eq, nat_eq, ◌==◌, lookup,
  lookup-insert, lookup-erase, if◌then◌else◌, arith, text_beq_iff, Dict,
}
use mathlib.Core.Path.{subst}
use sonalmod.EventBus.{Outcome, done, blocks, ◌>>=◌, bind-done, Bus, publish, close}
use sonalmod.Background.Runs.{
  ActiveRun, Runner, busy, set_bus, new_background_runner, admit, remove_active_run, shutdown,
  cancel_all,
}

-- What a caller or the goroutine of bus `k` does next.
pub data Action (E X : Type 0) : Type 0 where
  admit_ : Text → ℕ → Action E X
  publish_ : ℕ → E → Action E X
  close_ : ℕ → Option X → Action E X
  -- the goroutine's last step
  remove_ : ℕ → Action E X
  shutdown_ : Action E X

module _ {E X : Type 0} where
  abbrev pub bus_step : ℕ → (Bus E X → Outcome (Bus E X)) → Runner E X → Outcome (Runner E X)
  bus_step k f r = f (r.buses k) >>= λ b. done (record r { buses = set_bus r.buses k b })

  -- Only a live goroutine moves.
  unfoldable pub remove_of : Option Text → ℕ → Runner E X → Outcome (Runner E X)
  remove_of none k r = blocks
  remove_of (some sid) k r = done (record (remove_active_run sid r) {
    goroutines = λ j. if k == j then none else r.goroutines j;
  })

  unfoldable pub step : Action E X → Runner E X → Outcome (Runner E X)
  unfolding remove_of
  step (admit_ sid count) r = done (admit sid count r).0
  step (publish_ k e) r = bus_step k (publish e) r
  step (close_ k err) r = bus_step k (close err) r
  step (remove_ k) r = remove_of (r.goroutines k) k r
  step shutdown_ r = done (shutdown r)

  unfoldable pub run_all : List (Action E X) → Runner E X → Outcome (Runner E X)
  run_all [] r = done r
  run_all (a ∷ l) r = step a r >>= run_all l

-- The bus of the session's entry.
abbrev pub bus_of : Option ActiveRun → Option ℕ
bus_of none = none
bus_of (some a) = some a.event_bus

cancel_all-bus_of :
    (sid : Text) (d : Dict Text ActiveRun)
    → bus_of (lookup sid (cancel_all d)) ≡ bus_of (lookup sid d)
unfolding cancel_all lookup
cancel_all-bus_of sid [] = refl
cancel_all-bus_of sid ((s, a) ∷ d) = ground (arith, cancel_all-bus_of sid d)

module _ {E X : Type 0} where
  -- A bus that nothing came through, with the subscription 0 alone.
  pub record IsJoined (b : Bus E X) : Type 0 where
    pub subscribers : b.subscribers ≡ 0 ∷ []
    pub channel : b.chans 0 ≡ record { queue = []; closed = false }
    pub buffer : b.buffer ≡ []
    pub opened : b.closed ≡ false

  -- The entries of the map are those of the live goroutines.
  pub record IsTracked (r : Runner E X) (k : ℕ) (sid : Text) : Type 0 where
    pub entry : r.goroutines k ≡ some sid → bus_of (lookup sid r.active_runs) ≡ some k
    pub alive : bus_of (lookup sid r.active_runs) ≡ some k → r.goroutines k ≡ some sid
    pub old : r.goroutines k ≡ some sid → k < r.next_bus

  abbrev pub Inv : Runner E X → Type 0
  Inv r = (k : ℕ) (sid : Text) → IsTracked r k sid

  new-Inv : Inv (new_background_runner {E = E} {X = X})
  unfolding lookup
  new-Inv k sid = record { entry = λ h. cc; alive = λ h. cc; old = λ h. cc }

  admit-Inv : (sid : Text) (count : ℕ) (r : Runner E X) → Inv r → Inv (admit sid count r).0
  unfolding admit
  admit-Inv sid count r v k s =
      let w = v k s in
      let m =
        lookup-insert s sid
          (record { event_bus = r.next_bus; pre_run_event_count = count; cancelled = false })
          r.active_runs in
      ground (arith, text_beq_iff sid s)

  remove-Inv :
      (g : Option Text) (k : ℕ) (r r' : Runner E X)
      → r.goroutines k ≡ g
      → Inv r
      → remove_of g k r ≡ done r'
      → Inv r'
  unfolding remove_of remove_active_run
  remove-Inv none k r r' live v e j s = cc
  remove-Inv (some sid) k r r' live v e j s =
      let w = v j s in
      let own = v k sid in
      let m = lookup-erase s sid r.active_runs in ground (arith, text_beq_iff sid s)

  done_injective : {s t : Runner E X} → done s ≡ done t → s ≡ t
  done_injective e = cc

  bus_step-Inv :
      (k : ℕ) (f : Bus E X → Outcome (Bus E X)) (r r' : Runner E X)
      → Inv r
      → bus_step k f r ≡ done r'
      → Inv r'
  bus_step-Inv k f r r' v e =
      let m =
        bind-done (f (r.buses k)) (λ b. done (record r { buses = set_bus r.buses k b })) r' e in
      subst Inv (done_injective m.2) (λ j s. let w = v j s in ground arith)

  step-Inv : (a : Action E X) (r r' : Runner E X) → Inv r → step a r ≡ done r' → Inv r'
  unfolding step
  step-Inv (admit_ sid count) r r' v e = subst Inv (done_injective e) (admit-Inv sid count r v)
  step-Inv (publish_ k x) r r' v e = bus_step-Inv k (publish x) r r' v e
  step-Inv (close_ k err) r r' v e = bus_step-Inv k (close err) r r' v e
  step-Inv (remove_ k) r r' v e = remove-Inv (r.goroutines k) k r r' refl v e
  step-Inv shutdown_ r r' v e =
      subst Inv (done_injective e) (
        unfold shutdown in
        λ j s. let w = v j s in ground (arith, cancel_all-bus_of s r.active_runs))

  run_all-Inv : (l : List (Action E X)) (r r' : Runner E X) → Inv r → run_all l r ≡ done r' → Inv r'
  unfolding run_all
  run_all-Inv [] r r' v e = subst Inv (done_injective e) v
  run_all-Inv (a ∷ l) r r' v e =
      let m = bind-done (step a r) (run_all l) r' e in
      run_all-Inv l m.0 r' (step-Inv a r m.0 v m.1) m.2

  -- After any interleaving of admissions, events, ends and shutdowns from an empty runner: two
  -- live goroutines of one session are the same goroutine; the session of a live goroutine has
  -- its entry, with that goroutine's bus; and a further `Run` of it is refused, with nothing
  -- changed.
  pub one_run_per_session :
      (l : List (Action E X)) (r : Runner E X) (j k count : ℕ) (sid : Text)
      → run_all l new_background_runner ≡ done r
      → r.goroutines j ≡ some sid
      → r.goroutines k ≡ some sid
      → (j ≡ k) × (bus_of (lookup sid r.active_runs) ≡ some k) × (admit sid count r ≡ (r, busy))
  unfolding admit
  one_run_per_session l r j k count sid reached live_j live_k =
      let v = run_all-Inv l new_background_runner r new-Inv reached in
      let wj = v j sid in let wk = v k sid in (ground arith, ground arith, ground arith)
