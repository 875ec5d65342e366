-- ===== src/States.antt =====
-- qntyspot/states.py: the lifecycle states of an economic action and the transition table.
pub mod Lifecycle
use qnty_spot.Prelude.{
  ℕ, zero, suc, ◌≡◌, refl, ap, sym, ◌∙◌, Bool, true, false, List, [], ◌∷◌, ◌++◌, any, not, ◌==◌,
  ==_iff, arith, if◌then◌else◌,
}
use qnty_spot.Errors.{Error, Result, ok, err, require, state_transition}

pub data IntentState : Type 0 where
  armed triggered quote_pinned simulated reserved : IntentState
  signed submitted included confirmed reconciled filled : IntentState
  cancelled expired rejected safe_halt : IntentState

-- Position in the enumeration; two states are compared through it.
abbrev pub rank : IntentState → ℕ
rank armed = 0
rank triggered = 1
rank quote_pinned = 2
rank simulated = 3
rank reserved = 4
rank signed = 5
rank submitted = 6
rank included = 7
rank confirmed = 8
rank reconciled = 9
rank filled = 10
rank cancelled = 11
rank expired = 12
rank rejected = 13
rank safe_halt = 14

abbrev all_states : List IntentState
all_states =
    armed ∷ triggered ∷ quote_pinned ∷ simulated ∷ reserved ∷ signed ∷ submitted ∷ included
    ∷ confirmed ∷ reconciled ∷ filled ∷ cancelled ∷ expired ∷ rejected ∷ safe_halt ∷ []

-- `a is b`
abbrev pub is_state : IntentState → IntentState → Bool
is_state a b = rank a == rank b

-- `s in frozenset({...})`
abbrev pub in_states : IntentState → List IntentState → Bool
in_states s set = any (is_state s) set

abbrev pub terminal_states : List IntentState
terminal_states = filled ∷ cancelled ∷ expired ∷ rejected ∷ safe_halt ∷ []

abbrev pub pre_commitment_states : List IntentState
pre_commitment_states = armed ∷ triggered ∷ quote_pinned ∷ simulated ∷ reserved ∷ []

abbrev pub externally_ambiguous_states : List IntentState
externally_ambiguous_states = signed ∷ submitted ∷ included ∷ confirmed ∷ []

abbrev pub budget_holding_states : List IntentState
budget_holding_states = reserved ∷ signed ∷ submitted ∷ included ∷ confirmed ∷ reconciled ∷ []

abbrev abandon : List IntentState
abandon = cancelled ∷ expired ∷ []

abbrev pub transitions : IntentState → List IntentState
transitions armed = triggered ∷ abandon ++ rejected ∷ safe_halt ∷ []
transitions triggered = quote_pinned ∷ abandon ++ rejected ∷ safe_halt ∷ []
transitions quote_pinned = simulated ∷ abandon ++ rejected ∷ safe_halt ∷ []
transitions simulated = reserved ∷ abandon ++ rejected ∷ safe_halt ∷ []
transitions reserved = signed ∷ included ∷ abandon ++ rejected ∷ safe_halt ∷ []
transitions signed = submitted ∷ rejected ∷ safe_halt ∷ []
transitions submitted = included ∷ rejected ∷ safe_halt ∷ []
transitions included = confirmed ∷ rejected ∷ safe_halt ∷ []
transitions confirmed = reconciled ∷ safe_halt ∷ []
transitions reconciled = filled ∷ safe_halt ∷ []
transitions filled = []
transitions cancelled = []
transitions expired = []
transitions rejected = []
transitions safe_halt = []

unfoldable pub is_legal_transition : IntentState → IntentState → Bool
is_legal_transition src dst = in_states dst (transitions src)

unfoldable pub assert_legal_transition : IntentState → IntentState → Result (Unit {0})
unfolding is_legal_transition
assert_legal_transition src dst = require (is_legal_transition src dst) state_transition

-- `for dst in IntentState if dst not in TRANSITIONS[src]`
illegal_from : IntentState → List IntentState → List (IntentState × IntentState)
illegal_from src [] = []
illegal_from src (dst ∷ rest) =
    if in_states dst (transitions src)
    then illegal_from src rest
    else (src, dst) ∷ illegal_from src rest

illegal_pairs : List IntentState → List (IntentState × IntentState)
illegal_pairs [] = []
illegal_pairs (src ∷ rest) = illegal_from src all_states ++ illegal_pairs rest

-- Every ordered pair, including self-pairs, that the table forbids.
unfoldable pub all_illegal_transitions : List (IntentState × IntentState)
unfolding illegal_from illegal_pairs
all_illegal_transitions = illegal_pairs all_states
