-- ===== src/States/Lifecycle.antt =====
-- What the transition table of qntyspot/states.py allows over whole lifecycles: any number of legal
-- transitions, one after another.
use qnty_spot.Prelude.{
  ℕ, suc, ◌+◌, ◌≤◌, ◌<◌, ◌≡◌, refl, Bool, true, false, not, ◌||◌, ◌&&◌, List, [], ◌∷◌, any, arith,
}
use qnty_spot.States.{
  IntentState, armed, reserved, included, confirmed, reconciled, filled, cancelled, expired,
  is_legal_transition, is_state, in_states, rank, terminal_states, pre_commitment_states,
  budget_holding_states, all_illegal_transitions,
}

-- A sequence of legal transitions.
pub data Lifecycle (s : IntentState) : IntentState → Type 0 where
  here : Lifecycle s s
  then_to :
      {t : IntentState} (u : IntentState)
      → Lifecycle s t
      → is_legal_transition t u ≡ true
      → Lifecycle s u

abbrev pub steps : {s t : IntentState} → Lifecycle s t → ℕ
steps here = 0
steps (then_to _ l _) = suc (steps l)

-- Whether a lifecycle is at some moment in the given state.
abbrev pub visits : {s t : IntentState} → Lifecycle s t → IntentState → Bool
visits {s} here x = is_state s x
visits (then_to u l _) x = is_state u x || visits l x

-- A transition leads further down the enumeration.
pub legal-rank-lt :
    (src dst : IntentState) → is_legal_transition src dst ≡ true → rank src < rank dst
unfolding is_legal_transition
legal-rank-lt src dst h = ground arith

rank-le : (s : IntentState) → rank s ≤ 14
rank-le s = ground arith

steps-rank : {s t : IntentState} (l : Lifecycle s t) → steps l + rank s ≤ rank t
steps-rank here = omega arith
steps-rank (then_to {t = m} u l h) = omega (arith, steps-rank l, legal-rank-lt m u h)

-- Every transition takes a lifecycle at least one place down the enumeration of fifteen states: none
-- has more than fourteen transitions, and none comes back to a state that it has left.
pub lifecycle_terminates :
    {s t : IntentState} (l : Lifecycle s t) → (steps l + rank s ≤ rank t) × (rank t ≤ 14)
lifecycle_terminates {s} {t} l = (steps-rank l, rank-le t)

abbrev pub is_abandoned : IntentState → Bool
is_abandoned s = in_states s (cancelled ∷ expired ∷ [])

-- The states from SIGNED onwards, in which an action may already exist outside the process.
abbrev pub is_committed : IntentState → Bool
is_committed s = not (in_states s pre_commitment_states || is_abandoned s)

legal-is_committed :
    (src dst : IntentState)
    → is_legal_transition src dst ≡ true
    → is_committed src ≡ true
    → is_committed dst ≡ true
unfolding is_legal_transition
legal-is_committed src dst h c = ground arith

-- From a state that is neither pre-commitment nor CANCELLED nor EXPIRED, no lifecycle leads to
-- a pre-commitment state, to CANCELLED or to EXPIRED.
pub committed_stays_committed :
    {s t : IntentState} → Lifecycle s t → is_committed s ≡ true → is_committed t ≡ true
committed_stays_committed here c = c
committed_stays_committed (then_to {t = m} u l h) c =
    legal-is_committed m u h (committed_stays_committed l c)

-- SAFE_HALT is a legal target exactly of the states that are not terminal, and no state at all is
-- a legal target of a terminal state.
pub terminal_exactly :
    (s t : IntentState)
    → (is_legal_transition s IntentState.safe_halt ≡ not (in_states s terminal_states))
      × ((in_states s terminal_states && is_legal_transition s t) ≡ false)
unfolding is_legal_transition
terminal_exactly s t = (ground arith, ground arith)

-- A region of states that is entered through its gate alone.
pub record IsGate (gate : IntentState) (region : IntentState → Bool) : Type 0 where
  pub enter :
      (t u : IntentState)
      → is_legal_transition t u ≡ true
      → region u ≡ true
      → (is_state u gate || region t) ≡ true

or_mono : (a b v : Bool) → (a || b) ≡ true → (b ≡ true → v ≡ true) → (a || v) ≡ true
or_mono true b v h k = refl
or_mono false b v h k = k h

visits-gate :
    (gate : IntentState) (region : IntentState → Bool)
    → IsGate gate region
    → {s t : IntentState} (l : Lifecycle s t) → region s ≡ false
    → region t ≡ true
    → visits l gate ≡ true
visits-gate gate region g here out inside = cc
visits-gate gate region g (then_to {t = m} u l h) out inside =
    or_mono _ _ _ (g.enter m u h inside) (visits-gate gate region g l out)

abbrev from_reserved : IntentState → Bool
from_reserved s = in_states s (filled ∷ budget_holding_states)

abbrev from_included : IntentState → Bool
from_included s = in_states s (included ∷ confirmed ∷ reconciled ∷ filled ∷ [])

abbrev from_confirmed : IntentState → Bool
from_confirmed s = in_states s (confirmed ∷ reconciled ∷ filled ∷ [])

abbrev from_reconciled : IntentState → Bool
from_reconciled s = in_states s (reconciled ∷ filled ∷ [])

reserved-IsGate : IsGate reserved from_reserved
unfolding is_legal_transition
reserved-IsGate = record { enter = λ t u h r. ground arith }

included-IsGate : IsGate included from_included
unfolding is_legal_transition
included-IsGate = record { enter = λ t u h r. ground arith }

confirmed-IsGate : IsGate confirmed from_confirmed
unfolding is_legal_transition
confirmed-IsGate = record { enter = λ t u h r. ground arith }

reconciled-IsGate : IsGate reconciled from_reconciled
unfolding is_legal_transition
reconciled-IsGate = record { enter = λ t u h r. ground arith }

-- Every lifecycle from ARMED to FILLED passes through RESERVED, INCLUDED, CONFIRMED and
-- RECONCILED.
pub filled_was_reserved_and_proved :
    (l : Lifecycle armed filled)
    → (visits l reserved ≡ true)
      × (visits l included ≡ true)
      × (visits l confirmed ≡ true)
      × (visits l reconciled ≡ true)
filled_was_reserved_and_proved l = (
  visits-gate _ from_reserved reserved-IsGate l refl refl,
  visits-gate _ from_included included-IsGate l refl refl,
  visits-gate _ from_confirmed confirmed-IsGate l refl refl,
  visits-gate _ from_reconciled reconciled-IsGate l refl refl,
)

abbrev pub lists_pair : IntentState → IntentState → List (IntentState × IntentState) → Bool
lists_pair src dst pairs = any (λ p. is_state src p.0 && is_state dst p.1) pairs

-- The list of illegal transitions holds exactly the pairs that are not legal.
pub all_illegal_transitions_exact :
    (src dst : IntentState)
    → lists_pair src dst all_illegal_transitions ≡ not (is_legal_transition src dst)
unfolding is_legal_transition all_illegal_transitions
all_illegal_transitions_exact src dst = ground arith
