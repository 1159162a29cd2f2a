-- ===== src/EventBus/Publishing.antt =====
-- What `Publish` does when it does not block, by its effects and through the interleavings.
use sonalmod.Base.{
  Bool-cases, inl, inr, ◌⊎◌, true, ap, append-nil, if◌then◌else◌, ℕ, ◌≡◌, refl, true, false, List,
  [], ◌∷◌, ◌++◌, arith, ◌==◌, nat_eq, sym, ◌∙◌, if_false,
}
use sonalmod.EventBus.Channels.{
  done, bind-done, Chan, send, send_all, Bus, publish, contains, remove, update,
}
use sonalmod.EventBus.System.{
  free, publishing, Sys, Action, start_publish, deliver, end_publish, deliver_to, release, step,
  run,
}
use sonalmod.EventBus.Invariant.{Inv, IsNodup}

remove_absent : (i : ℕ) (l : List ℕ) → contains i l ≡ false → remove i l ≡ l
unfolding contains remove
remove_absent i [] h = refl
remove_absent i (j ∷ l) h = ground (arith, remove_absent i l)

module _ {E : Type 0} where
  send-queue : (e : E) (c c' : Chan E) → send e c ≡ done c' → c'.queue ≡ c.queue ++ e ∷ []
  unfolding send
  send-queue e c c' h = ground arith

  -- Each channel of the list gets the event, and no other.
  send_all-queue :
      (e : E) (l : List ℕ) (m m' : ℕ → Chan E) (j : ℕ)
      → IsNodup l
      → send_all e l m ≡ done m'
      → (m' j).queue ≡ (m j).queue ++ (if contains j l then e ∷ [] else [])
  unfolding send_all contains
  send_all-queue e [] m m' j d sent =
      let same : m ≡ m' = ground arith in
      ap (λ (k : ℕ → Chan E). (k j).queue) (sym same) ∙ sym (append-nil (m j).queue)
  send_all-queue e (i ∷ l) m m' j d sent =
      let next = bind-done (send e (m i)) (λ c. send_all e l (update m i c)) m' sent in
      let rest = send_all-queue e l (update m i next.0) m' j d.1 next.2 in
      let own = send-queue e (m i) next.0 next.1 in
      elim (Bool-cases (i == j)) [
        | inl same ↦
            let here : i ≡ j = ground arith in
            let absent : contains j l ≡ false = ap (λ k. contains k l) (sym here) ∙ d.0 in
            let empty = append-nil next.0.queue in
            let at = ap (λ k. (m k).queue) here in ground arith
        | inr other ↦ ground arith
      ]

module _ {E X : Type 0} where
  -- The actions of one `Publish` that sends in the order of a list.
  abbrev pub sends : List ℕ → List (Action E X)
  sends [] = end_publish ∷ []
  sends (i ∷ l) = deliver i ∷ sends l

  deliver-first :
      (e : E) (i : ℕ) (l : List ℕ) (s : Sys E X) (c : Chan E)
      → contains i l ≡ false
      → s.lock ≡ publishing e (i ∷ l)
      → send e (s.bus.chans i) ≡ done c
      → step (deliver i) s
        ≡ done (record s {
          bus = record s.bus { chans = update s.bus.chans i c };
          lock = publishing e l;
        })
  unfolding step deliver_to contains remove
  deliver-first e i l s c new held sent = rw held (ground (arith, remove_absent i l))

  pub run-sends :
      (e : E) (l : List ℕ) (s : Sys E X) (m' : ℕ → Chan E)
      → IsNodup l
      → s.lock ≡ publishing e l
      → send_all e l s.bus.chans ≡ done m'
      → run (sends l) s ≡ done (record s { bus = record s.bus { chans = m' }; lock = free })
  unfolding run release send_all
  run-sends e [] s m' d held sent = unfold step in ground arith
  run-sends e (i ∷ l) s m' d held sent =
      let next =
        bind-done (send e (s.bus.chans i)) (λ c. send_all e l (update s.bus.chans i c)) m' sent in
      let t : Sys E X = record s {
        bus = record s.bus { chans = update s.bus.chans i next.0 };
        lock = publishing e l;
      } in
      let rest = run-sends e l t m' d.1 refl next.2 in
      let first : step (deliver i) s ≡ done t = deliver-first e i l s next.0 d.0 held next.1 in
      rw first rest

  publish-done :
      (e : E) (b b' : Bus E X)
      → b.closed ≡ false
      → publish e b ≡ done b'
      → (m : ℕ → Chan E) × (send_all e b.subscribers b.chans ≡ done m)
        × (b' ≡ record b { buffer = b.buffer ++ e ∷ []; chans = m })
  unfolding publish
  publish-done e b b' opened h =
      let sent =
        bind-done (send_all e b.subscribers b.chans)
          (λ m. done (record b { buffer = b.buffer ++ e ∷ []; chans = m })) b'
          (sym (if_false b.closed _ _ opened) ∙ h) in
      (sent.0, sent.1, cc (sent.2))

  publish-first :
      (e : E) (s : Sys E X)
      → s.lock ≡ free
      → s.bus.closed ≡ false
      → step (start_publish e) s
        ≡ done (record s {
          bus = record s.bus { buffer = s.bus.buffer ++ e ∷ [] };
          lock = publishing e s.bus.subscribers;
        })
  unfolding step
  publish-first e s unlocked opened = ground arith

  -- A publication on an open bus, as far as the channel `j` shows: the event is the last of the
  -- buffer, and the last in the queue of each subscriber and of no other channel; the subscribers
  -- are the same; and the steps of the publisher, which locks, sends and unlocks, lead there too.
  pub record IsPublished (e : E) (j : ℕ) (s : Sys E X) (b : Bus E X) : Type 0 where
    pub buffer : b.buffer ≡ s.bus.buffer ++ e ∷ []
    pub queue :
        (b.chans j).queue
        ≡ (s.bus.chans j).queue ++ (if contains j s.bus.subscribers then e ∷ [] else [])
    pub subscribers : b.subscribers ≡ s.bus.subscribers
    pub steps : run (start_publish e ∷ sends s.bus.subscribers) s ≡ done (record s { bus = b })

  open_publish :
      (e : E) (s : Sys E X) (b : Bus E X) (j : ℕ)
      → Inv s
      → s.lock ≡ free
      → s.bus.closed ≡ false
      → publish e s.bus ≡ done b
      → IsPublished e j s b
  unfolding run
  open_publish e s b j v unlocked opened h =
      let sent = publish-done e s.bus b opened h in
      let t : Sys E X = record s {
        bus = record s.bus { buffer = s.bus.buffer ++ e ∷ [] };
        lock = publishing e s.bus.subscribers;
      } in
      let first : step (start_publish e) s ≡ done t = publish-first e s unlocked opened in
      let rest = run-sends e s.bus.subscribers t sent.0 v.sound.distinct refl sent.1 in
      let queues =
        send_all-queue e s.bus.subscribers s.bus.chans sent.0 j v.sound.distinct sent.1 in
      record {
        buffer = ap (λ k. k.buffer) sent.2;
        queue = ap (λ k. (k.chans j).queue) sent.2 ∙ queues;
        subscribers = ap (λ k. k.subscribers) sent.2;
        steps = rw (first, rest) (ground (arith, sent.2));
      }

  closed_publish : (e : E) (b b' : Bus E X) → b.closed ≡ true → publish e b ≡ done b' → b' ≡ b
  unfolding publish
  closed_publish e b b' closed h = ground arith

  -- From a state in which the invariant holds, with the mutex free: a `Publish` that does not block
  -- leaves a closed bus as it is; on an open one it puts the event at the end of the buffer and of
  -- the queue of each subscriber, changes no other queue and no subscription, and does what its
  -- lock, its sends in the order of the subscribers and its unlock do as steps.
  pub publish_lem :
      (e : E) (s : Sys E X) (b : Bus E X) (j : ℕ)
      → Inv s
      → s.lock ≡ free
      → publish e s.bus ≡ done b
      → ((s.bus.closed ≡ true) × (b ≡ s.bus)) ⊎ ((s.bus.closed ≡ false) × IsPublished e j s b)
  publish_lem e s b j v unlocked h = elim (Bool-cases s.bus.closed) [
    | inl closed ↦ inl (closed, closed_publish e s.bus b closed h)
    | inr opened ↦ inr (opened, open_publish e s b j v unlocked opened h)
  ]
