-- ===== src/EventBus/Preservation.antt =====
-- Every action keeps the invariant, and none of them panics.
use sonalmod.Base.{
  ℕ, ◌≡◌, true, false, List, [], ◌∷◌, ◌++◌, append-nil, append_assoc, length-append, arith, ◌==◌,
  nat_eq, Bool-cases, sym, ◌∙◌, ap, inl, inr,
}
use sonalmod.EventBus.Channels.{done, Chan, send, update, contains, remove, unsubscribe, register}
use sonalmod.EventBus.System.{free, publishing, Sys, attach, set_reader}
use sonalmod.EventBus.Invariant.{contains-remove, IsStart, IsNodup, handed, Inv}

module _ {E : Type 0} where
  IsStart-append : (l m : List E) (e : E) → IsStart l m → IsStart l (m ++ e ∷ [])
  IsStart-append l m e (rest, p) = (rest ++ e ∷ [], simp (← append_assoc) (ap (λ x. x ++ e ∷ []) p))

  IsStart-eq : (l m : List E) → l ≡ m → IsStart l m
  IsStart-eq l m p = ([], append-nil l ∙ p)

  extend : (h buffer : List E) (e : E) → h ++ [] ≡ buffer → h ++ e ∷ [] ≡ buffer ++ e ∷ []
  extend h buffer e p = ap (λ l. l ++ e ∷ []) (sym (append-nil h) ∙ p)

  hand_over : (b x q : List E) (e : E) → (b ++ (x ++ q)) ++ e ∷ [] ≡ b ++ (x ++ (q ++ e ∷ []))
  hand_over b x q e = simp append_assoc

  take_one : (b x q : List E) (e : E) → b ++ ((x ++ e ∷ []) ++ q) ≡ b ++ (x ++ e ∷ q)
  take_one b x q e = simp append_assoc

remove-IsNodup : (i : ℕ) (l : List ℕ) → IsNodup l → IsNodup (remove i l)
unfolding remove
remove-IsNodup i [] h = h
remove-IsNodup i (j ∷ l) h = ground (arith, remove-IsNodup i l h.1, contains-remove i j l)

module _ {E X : Type 0} (s : Sys E X) (v : Inv s) where
  pub publish_started :
      (e : E)
      → s.lock ≡ free
      → s.bus.closed ≡ false
      → Inv (record s {
        bus = record s.bus { buffer = s.bus.buffer ++ e ∷ [] };
        lock = publishing e s.bus.subscribers;
      })
  publish_started e unlocked opened = record {
    sound = let w = v.sound in ground arith;
    served = λ i.
        let w = v.served i in
        record {
          live = λ m. ground (arith, extend (handed s i) s.bus.buffer e);
          ended = λ m. ground arith;
          gone = λ h. IsStart-append (handed s i) s.bus.buffer e (w.gone h);
          bounded = w.bounded;
          known = w.known;
          owed = λ m. m;
          open_chan = w.open_chan;
          shut = w.shut;
        };
  }

  caught_up :
      (e : E) (pending : List ℕ) (j : ℕ)
      → s.lock ≡ publishing e pending
      → contains j pending ≡ true
      → (s.readers j).before ++ ((s.readers j).received ++ ((s.bus.chans j).queue ++ e ∷ []))
        ≡ s.bus.buffer
  caught_up e pending j held owed =
      let w = v.served j in
      let r = s.readers j in ground (arith, hand_over r.before r.received (s.bus.chans j).queue e)

  pub delivered :
      (e : E) (pending : List ℕ) (j : ℕ) (c : Chan E)
      → s.lock ≡ publishing e pending
      → contains j pending ≡ true
      → send e (s.bus.chans j) ≡ done c
      → Inv (record s {
        bus = record s.bus { chans = update s.bus.chans j c };
        lock = publishing e (remove j pending);
      })
  unfolding send
  delivered e pending j c held owed sent =
      let full = caught_up e pending j held owed in
      record {
        sound = let w = v.sound in ground arith;
        served = λ i.
            let w = v.served i in
            record {
              live = λ m. ground (
                arith,
                contains-remove j i pending,
                append-nil (handed s i),
                append-nil s.bus.buffer,
              );
              ended = λ m. ground arith;
              gone = λ h. elim (Bool-cases (j == i)) [
                | inl same ↦ ([], ground (arith, append-nil s.bus.buffer))
                | inr other ↦ ((w.gone h).0, ground (arith, (w.gone h).1))
              ];
              bounded = ground (arith, length-append (s.bus.chans j).queue (e ∷ []));
              known = w.known;
              owed = λ m. ground (arith, contains-remove j i pending);
              open_chan = ground arith;
              shut = ground arith;
            };
      }

  pub registered : s.lock ≡ free → Inv (attach s (register s.bus))
  unfolding contains
  registered unlocked = record {
    sound = let w = v.sound in ground (arith, (v.served s.bus.next_id));
    served = λ i.
        let w = v.served i in
        record {
          live = λ m. ground (arith, append-nil s.bus.buffer);
          ended = λ m. ground arith;
          gone = λ h. elim (Bool-cases (s.bus.next_id == i)) [
            | inl same ↦ ([], ground (arith, append-nil s.bus.buffer))
            | inr other ↦
                let old : IsStart (handed s i) s.bus.buffer = w.gone (ground arith) in
                (old.0, ground (arith, old.1))
          ];
          bounded = ground arith;
          known = ground arith;
          owed = ground arith;
          open_chan = ground arith;
          shut = ground arith;
        };
  }

  pub published : (e : E) → s.lock ≡ publishing e [] → Inv (record s { lock = free })
  unfolding contains
  published e held = record {
    sound = let w = v.sound in ground arith;
    served = λ i.
        let w = v.served i in
        record {
          live = λ m. ground arith;
          ended = w.ended;
          gone = w.gone;
          bounded = w.bounded;
          known = w.known;
          owed = λ m. cc;
          open_chan = w.open_chan;
          shut = w.shut;
        };
  }

  pub unsubscribed : (j : ℕ) → s.lock ≡ free → Inv (record s { bus = unsubscribe j s.bus })
  unfolding unsubscribe
  unsubscribed j unlocked = record {
    sound =
        let w = v.sound in
        record {
          distinct = remove-IsNodup j s.bus.subscribers w.distinct;
          done_once = w.done_once;
          publishing_open = w.publishing_open;
        };
    served = λ i.
        let w = v.served i in
        let m = contains-remove j i s.bus.subscribers in
        record {
          live = λ h. w.live (ground arith);
          ended = w.ended;
          gone = w.gone;
          bounded = w.bounded;
          known = λ h. w.known (ground arith);
          owed = λ h. ground arith;
          open_chan = λ h. w.open_chan (ground arith);
          shut = w.shut;
        };
  }

  pub received :
      (j : ℕ) (e : E) (rest : List E)
      → (s.bus.chans j).queue ≡ e ∷ rest
      → Inv (record s {
        bus = record s.bus {
          chans = update s.bus.chans j (record (s.bus.chans j) { queue = rest });
        };
        readers =
            set_reader s.readers j
              (record (s.readers j) { received = (s.readers j).received ++ e ∷ [] });
      })
  received j e rest queued = record {
    sound = let w = v.sound in ground arith;
    served = λ i.
        let w = v.served i in
        let r = s.readers j in
        let moved = take_one r.before r.received rest e in
        record {
          live = λ h. ground arith;
          ended = λ h. ground arith;
          gone = λ h. ((w.gone h).0, ground (arith, (w.gone h).1));
          bounded = ground arith;
          known = w.known;
          owed = w.owed;
          open_chan = λ h. ground arith;
          shut = λ h. ground arith;
        };
  }
