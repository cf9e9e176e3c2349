-- ===== src/Queue/Lasting/States.antt =====
-- The order of the states.
use agentqueue.Prelude.{true, false, ◌≡◌, refl}
use agentqueue.Data.{State, pending, claimed, done}
use agentqueue.Queue.Kept.{IsForward}
use agentqueue.Queue.Mailbox.{state_eq}
use agentqueue.Queue.Lasting.{IsOnward}

pub state_eq_iff : (a b : State) → state_eq a b ≡ true → a ≡ b
state_eq_iff pending pending h = refl
state_eq_iff pending claimed h = cc
state_eq_iff pending done h = cc
state_eq_iff claimed pending h = cc
state_eq_iff claimed claimed h = refl
state_eq_iff claimed done h = cc
state_eq_iff done pending h = cc
state_eq_iff done claimed h = cc
state_eq_iff done done h = refl

pub state_eq_self : (a : State) → state_eq a a ≡ true
state_eq_self pending = refl
state_eq_self claimed = refl
state_eq_self done = refl

pub IsForward-ne : (a b : State) → IsForward a b → state_eq a b ≡ false
IsForward-ne pending claimed f = refl
IsForward-ne pending done f = refl
IsForward-ne claimed done f = refl
IsForward-ne pending pending f = absurd f
IsForward-ne claimed pending f = absurd f
IsForward-ne claimed claimed f = absurd f
IsForward-ne done pending f = absurd f
IsForward-ne done claimed f = absurd f
IsForward-ne done done f = absurd f

pub IsOnward-self : (a : State) → IsOnward a a
IsOnward-self pending = tt
IsOnward-self claimed = tt
IsOnward-self done = tt

pub IsOnward-forward : (st a b : State) → IsOnward st a → IsForward a b → IsOnward st b
IsOnward-forward pending a b o f = tt
IsOnward-forward claimed claimed done o f = tt
IsOnward-forward claimed pending b o f = absurd o
IsOnward-forward claimed claimed pending o f = absurd f
IsOnward-forward claimed claimed claimed o f = absurd f
IsOnward-forward claimed done pending o f = absurd f
IsOnward-forward claimed done claimed o f = absurd f
IsOnward-forward claimed done done o f = absurd f
IsOnward-forward done pending b o f = absurd o
IsOnward-forward done claimed b o f = absurd o
IsOnward-forward done done pending o f = absurd f
IsOnward-forward done done claimed o f = absurd f
IsOnward-forward done done done o f = absurd f
