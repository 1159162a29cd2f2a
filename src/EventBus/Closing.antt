-- ===== src/EventBus/Closing.antt =====
-- `Close`, and the invariant along every run.
use sonalmod.Base.{
  ℕ, ◌≡◌, refl, Bool, true, false, Option, List, [], ◌∷◌, ◌++◌, append-nil, arith, nat_eq,
  if◌then◌else◌, ◌∙◌,
}
use sonalmod.EventBus.Channels.{
  Outcome, done, blocks, panics, ◌>>=◌, Chan, send, close_chan, close_all, close_done, close,
  update, contains, remove, replay_snapshot,
}
use sonalmod.EventBus.System.{
  Lock, free, publishing, Sys, Action, start_publish, deliver, end_publish, subscribe_, replay_,
  unsubscribe_, close_, receive, deliver_to, release, receive_from, step, attach_live, locked,
}
use sonalmod.EventBus.Invariant.{IsNodup, handed, Inv}
use sonalmod.EventBus.Preservation.{
  publish_started, delivered, registered, published, unsubscribed, received,
}

module _ {E : Type 0} where
  abbrev shut_chan : Chan E → Chan E
  shut_chan c = record c { closed = true }

  -- The channels after `close_all` of distinct open channels.
  IsClosing : List ℕ → (ℕ → Chan E) → (ℕ → Chan E) → Type 0
  IsClosing l m m' = (i : ℕ) → m' i ≡ (if contains i l then shut_chan (m i) else m i)

  close_all_lem :
      (l : List ℕ) (m : ℕ → Chan E)
      → IsNodup l
      → ((i : ℕ) → contains i l ≡ true → (m i).closed ≡ false)
      → (m' : ℕ → Chan E) × (close_all l m ≡ done m') × IsClosing l m m'
  unfolding close_all close_chan contains IsClosing
  close_all_lem [] m d o = (m, refl, λ i. refl)
  close_all_lem (j ∷ l) m d o =
      let opened : (m j).closed ≡ false = o j (ground arith) in
      let shut_first : ℕ → Chan E = update m j (shut_chan (m j)) in
      let rest = close_all_lem l shut_first d.1 (λ i h. ground (arith, d.0, o i)) in
      (rest.0, ground (arith, rest.1), λ i. ground (arith, rest.2 i, d.0))

module _ {E X : Type 0} (s : Sys E X) (v : Inv s) where
  closed_with :
      (err : Option X)
      → s.lock ≡ free
      → s.bus.closed ≡ false
      → (m : ℕ → Chan E) → IsClosing s.bus.subscribers s.bus.chans m
      → Inv (record s {
        bus = record s.bus {
          closed = true;
          final_err = err;
          chans = m;
          subscribers = [];
          done_closed = true;
        };
      })
  unfolding contains IsClosing
  closed_with err unlocked opened m c = record {
    sound = let w = v.sound in ground arith;
    served = λ i.
        let w = v.served i in
        record {
          live = λ h. cc;
          ended = λ h. ground (arith, c i, append-nil (handed s i));
          gone = λ h. ((w.gone h).0, ground (arith, c i, (w.gone h).1));
          bounded = ground (arith, c i);
          known = λ h. cc;
          owed = λ h. ground arith;
          open_chan = λ h. cc;
          shut = λ h. refl;
        };
  }

-- The outcome is no panic, and the invariant holds of the new state if there is one.
module _ {E X : Type 0} where
  abbrev pub IsFine : Outcome (Sys E X) → Type 0
  IsFine (done s) = Inv s
  IsFine blocks = Unit
  IsFine panics = ⊥

  if-IsFine :
      (b : Bool) (x y : Outcome (Sys E X))
      → (b ≡ true → IsFine x)
      → (b ≡ false → IsFine y)
      → IsFine (if b then x else y)
  if-IsFine true x y f g = f refl
  if-IsFine false x y f g = g refl

  IsFine-if :
      {P : Type 0} (f : P → Outcome (Sys E X)) (b : Bool) (p q : P)
      → (b ≡ true → IsFine (f p))
      → (b ≡ false → IsFine (f q))
      → IsFine (f (if b then p else q))
  IsFine-if f true p q yes_ no_ = yes_ refl
  IsFine-if f false p q yes_ no_ = no_ refl

module _ {E X : Type 0} (s : Sys E X) (v : Inv s) where
  start_publish-IsFine :
      (e : E) (k : Lock E)
      → s.lock ≡ k
      → IsFine (
          locked k (
            if s.bus.closed
            then done s
            else done (record s {
              bus = record s.bus { buffer = s.bus.buffer ++ e ∷ [] };
              lock = publishing e s.bus.subscribers;
            })))
  start_publish-IsFine e free unlocked =
      if-IsFine s.bus.closed _ _ (λ shut. v) (λ opened. publish_started s v e unlocked opened)
  start_publish-IsFine e (publishing _ _) held = tt

  send-IsFine :
      (e : E) (pending : List ℕ) (j : ℕ)
      → s.lock ≡ publishing e pending
      → contains j pending ≡ true
      → (r : Outcome (Chan E)) → send e (s.bus.chans j) ≡ r
      → IsFine (
          r >>= λ c. done (record s {
            bus = record s.bus { chans = update s.bus.chans j c };
            lock = publishing e (remove j pending);
          }))
  unfolding send
  send-IsFine e pending j held owed (done c) sent =
      delivered s v e pending j c held owed (ground arith)
  send-IsFine e pending j held owed blocks sent = tt
  send-IsFine e pending j held owed panics sent = let w = v.served j in ground arith

  deliver-IsFine : (j : ℕ) (k : Lock E) → s.lock ≡ k → IsFine (deliver_to j k s)
  unfolding deliver_to
  deliver-IsFine j free unlocked = tt
  deliver-IsFine j (publishing e pending) held =
      if-IsFine (contains j pending) _ _
        (λ owed. send-IsFine e pending j held owed (send e (s.bus.chans j)) refl) (λ not_owed. tt)

  release-IsFine : (k : Lock E) → s.lock ≡ k → IsFine (release k s)
  unfolding release
  release-IsFine (publishing e []) held = published s v e held
  release-IsFine (publishing e (i ∷ l)) held = tt
  release-IsFine free unlocked = tt

  receive-IsFine : (j : ℕ) (q : List E) → (s.bus.chans j).queue ≡ q → IsFine (receive_from j q s)
  unfolding receive_from
  receive-IsFine j [] none_left = if-IsFine (s.bus.chans j).closed _ _ (λ shut. v) (λ opened. tt)
  receive-IsFine j (e ∷ rest) queued = received s v j e rest queued

  unlocked-IsFine :
      (k : Lock E)
      → s.lock ≡ k
      → (r : Outcome (Sys E X)) → (s.lock ≡ free → IsFine r)
      → IsFine (locked k r)
  unlocked-IsFine free unlocked r fine = fine unlocked
  unlocked-IsFine (publishing _ _) held r fine = tt

  replay-IsFine : s.lock ≡ free → IsFine (attach_live s (replay_snapshot s.bus))
  unfolding replay_snapshot
  replay-IsFine u =
      IsFine-if (attach_live s) s.bus.closed _ _ (λ shut. v) (λ opened. registered s v u)

  close-IsFine :
      (err : Option X)
      → s.lock ≡ free
      → IsFine (close err s.bus >>= λ b. done (record s { bus = b }))
  unfolding close
  close-IsFine err u =
      IsFine-if (λ r. r >>= λ b. done (record s { bus = b })) s.bus.closed _ _ (λ shut. v)
        λ opened.
          let all =
            close_all_lem s.bus.subscribers s.bus.chans v.sound.distinct
              (λ i h. (v.served i).open_chan h) in
          let not_done : s.bus.done_closed ≡ false = v.sound.done_once ∙ opened in
          rw (all.1, close_done, not_done) (closed_with s v err u opened all.0 all.2)

  pub step-IsFine : (a : Action E X) → IsFine (step a s)
  unfolding step
  step-IsFine (start_publish e) = start_publish-IsFine e s.lock refl
  step-IsFine (deliver j) = deliver-IsFine j s.lock refl
  step-IsFine end_publish = release-IsFine s.lock refl
  step-IsFine subscribe_ = unlocked-IsFine s.lock refl _ λ u. registered s v u
  step-IsFine replay_ = unlocked-IsFine s.lock refl _ replay-IsFine
  step-IsFine (unsubscribe_ j) = unlocked-IsFine s.lock refl _ λ u. unsubscribed s v j u
  step-IsFine (close_ err) = unlocked-IsFine s.lock refl _ (close-IsFine err)
  step-IsFine (receive j) = receive-IsFine j (s.bus.chans j).queue refl
