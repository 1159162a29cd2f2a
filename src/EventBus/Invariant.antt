-- ===== src/EventBus/Invariant.antt =====
-- What holds of the bus, its channels and their readers between any two actions.
use sonalmod.Base.{
  ℕ, ◌≤◌, ◌<◌, ◌≡◌, refl, Bool, true, false, List, [], ◌∷◌, ◌++◌, length, arith, ◌==◌, nat_eq,
  if◌then◌else◌,
}
use sonalmod.EventBus.Channels.{contains, remove, subscriber_chan_buf}
use sonalmod.EventBus.System.{Lock, free, publishing, Sys, initial}

pub contains-remove :
    (i j : ℕ) (l : List ℕ) → contains j (remove i l) ≡ (if i == j then false else contains j l)
unfolding contains remove
contains-remove i j [] = ground arith
contains-remove i j (k ∷ l) = ground (arith, contains-remove i j l)

module _ {E : Type 0} where
  -- A list and the events that follow it.
  abbrev pub IsStart : List E → List E → Type 0
  IsStart l m = (rest : List E) × (l ++ rest ≡ m)

  -- The event that the publisher still owes to a reader.
  abbrev pub in_flight : Lock E → ℕ → List E
  in_flight free i = []
  in_flight (publishing e pending) i = if contains i pending then e ∷ [] else []

  abbrev pub owes : Lock E → ℕ → Bool
  owes free i = false
  owes (publishing e pending) i = contains i pending

  abbrev pub is_publishing : Lock E → Bool
  is_publishing free = false
  is_publishing (publishing e pending) = true

abbrev pub IsNodup : List ℕ → Type 0
IsNodup [] = Unit
IsNodup (i ∷ l) = (contains i l ≡ false) × IsNodup l

module _ {E X : Type 0} where
  -- What a reader has been handed so far: published before it registered, received, and queued.
  abbrev pub handed : Sys E X → ℕ → List E
  handed s i = (s.readers i).before ++ ((s.readers i).received ++ (s.bus.chans i).queue)

  -- The facts about the reader of one channel.
  pub record IsServed (s : Sys E X) (i : ℕ) : Type 0 where
    pub live : contains i s.bus.subscribers ≡ true → handed s i ++ in_flight s.lock i ≡ s.bus.buffer
    pub ended : (s.bus.chans i).closed ≡ true → handed s i ≡ s.bus.buffer
    pub gone : i < s.bus.next_id → IsStart (handed s i) s.bus.buffer
    pub bounded : length (s.bus.chans i).queue ≤ subscriber_chan_buf
    pub known : contains i s.bus.subscribers ≡ true → i < s.bus.next_id
    pub owed : owes s.lock i ≡ true → contains i s.bus.subscribers ≡ true
    pub open_chan : contains i s.bus.subscribers ≡ true → (s.bus.chans i).closed ≡ false
    pub shut : (s.bus.chans i).closed ≡ true → s.bus.closed ≡ true

  -- The facts about the bus itself.
  pub record IsSound (s : Sys E X) : Type 0 where
    pub distinct : IsNodup s.bus.subscribers
    pub done_once : s.bus.done_closed ≡ s.bus.closed
    pub publishing_open : is_publishing s.lock ≡ true → s.bus.closed ≡ false

  pub record Inv (s : Sys E X) : Type 0 where
    pub sound : IsSound s
    pub served : (i : ℕ) → IsServed s i

  pub initial-Inv : Inv (initial {E = E} {X = X})
  unfolding contains
  initial-Inv = record {
    sound = record { distinct = tt; done_once = refl; publishing_open = λ h. cc };
    served = λ i. record {
      live = λ h. cc;
      ended = λ h. cc;
      gone = λ h. elim h [ ];
      bounded = omega arith;
      known = λ h. cc;
      owed = λ h. cc;
      open_chan = λ h. cc;
      shut = λ h. cc;
    };
  }
