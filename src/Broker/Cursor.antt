-- ===== src/Broker/Cursor.antt =====
-- The cursor of the broker's daemon never passes a command that was not executed
-- (src/vgen/broker/daemon.py).
use text.Mathlib.TextPositions.{eq_refl}
use text.Mathlib.Text.{◌==◌ as str_eq}
use vgen.Base.{
  some, [], ◌∷◌, inl, inr, true, false, refl, ◌≡◌, ◌⊎◌, ◌++◌, List, String, Bool, Bool-cases, ◌∙◌,
  if◌then◌else◌, ap,
}
use vgen.Broker.Daemon.{
  value, exception, Outside, BrokerCommand, finished, handled, execute, journal_failure,
  last_command, CallResult, execute_all,
}
use vgen.Broker.Journal.{look_up, upsert, Journal, get_state, set_state, append}

look_up-upsert :
    (key value_ : String) (rows : List (String × String))
    → look_up key (upsert key value_ rows) ≡ some value_
unfolding look_up upsert
look_up-upsert key value_ [] = rw (eq_refl key) refl
look_up-upsert key value_ ((k, v) ∷ rest) = elim (Bool-cases (str_eq k key)) [
  | inl same ↦ rw same (rw same refl)
  | inr other ↦ rw other (rw other (look_up-upsert key value_ rest))
]

-- The identifier of the last command, or the former cursor.
abbrev pub last_id : String → List BrokerCommand → String
last_id former [] = former
last_id former (c ∷ cs) = last_id c.id cs

module _ {W : Type 0} (out : Outside W) where
  -- Where the next poll starts.
  abbrev pub cursor : Journal × W → String
  cursor (j, w) = get_state last_command "" j

  cursor-set_state :
      (c : BrokerCommand) (j : Journal) (w : W) → cursor (set_state last_command c.id j, w) ≡ c.id
  unfolding get_state set_state
  cursor-set_state c j w = rw (look_up-upsert last_command c.id j.state) refl

  -- The command handler keeps its own entries of the journal's state, under other keys.
  abbrev pub KeepsCursor : Type 0
  KeepsCursor = (c : BrokerCommand) (s : Journal × W) → cursor (out.handle c s).1 ≡ cursor s

  abbrev Moved : BrokerCommand → Journal × W → Bool × (Journal × W) → Type 0
  Moved c s (true, t) = cursor t ≡ c.id
  Moved c s (false, t) = cursor t ≡ cursor s

  finished-Moved :
      (c : BrokerCommand) (s : Journal × W) (j : Journal) (v : W)
      → (m : CallResult String (Unit {0}) × W) → cursor (j, v) ≡ cursor s
      → Moved c s (finished out c j m)
  unfolding finished journal_failure append get_state
  finished-Moved c s j v (value done, u) kept = cursor-set_state c j u
  finished-Moved c s j v (exception error, u) kept = kept

  handled-Moved :
      (c : BrokerCommand) (s : Journal × W) (m : CallResult String String × (Journal × W))
      → cursor m.1 ≡ cursor s
      → Moved c s (handled out c m)
  unfolding handled journal_failure append get_state
  handled-Moved c s (value result, (j, v)) kept =
      finished-Moved c s j v (out.complete c.id result v) kept
  handled-Moved c s (exception error, (j, v)) kept = kept

  execute-Moved : KeepsCursor → (c : BrokerCommand) (s : Journal × W) → Moved c s (execute out c s)
  unfolding execute
  execute-Moved keeps c s = elim (Bool-cases (str_eq c.id "")) [
    | inl missing ↦ rw missing refl
    | inr named ↦ rw named (handled-Moved c s (out.handle c s) (keeps c s))
  ]

  -- The commands of a list were executed one after the other.
  pub data Executed : List BrokerCommand → Journal × W → Journal × W → Type 0 where
    nothing : {s : Journal × W} → Executed [] s s
    next :
        {c : BrokerCommand} {cs : List BrokerCommand} {s t u : Journal × W}
        → execute out c s ≡ (true, t)
        → Executed cs t u
        → Executed (c ∷ cs) s u

  -- What the loop did with a list of commands: `done` was executed, and the loop came to the list's
  -- end or stopped at the first command of the rest.
  pub record Stopped (cs : List BrokerCommand) (s u : Journal × W) : Type 0 where
    pub done : List BrokerCommand
    pub rest : List BrokerCommand
    pub at : Journal × W
    pub split : cs ≡ done ++ rest
    pub executed : Executed done s at
    pub halted :
        ((rest ≡ []) × (u ≡ at))
        ⊎ ((c : BrokerCommand) × (tail : List BrokerCommand) × (rest ≡ c ∷ tail)
            × (execute out c at ≡ (false, u)))
    pub cursor_eq : cursor u ≡ last_id (cursor s) done

  after_success :
      (c : BrokerCommand) (cs : List BrokerCommand) (s t u : Journal × W)
      → execute out c s ≡ (true, t)
      → cursor t ≡ c.id
      → Stopped cs t u
      → Stopped (c ∷ cs) s u
  after_success c cs s t u e moved r = record {
    done = c ∷ r.done;
    rest = r.rest;
    at = r.at;
    split = ap (λ xs. c ∷ xs) r.split;
    executed = next e r.executed;
    halted = r.halted;
    cursor_eq = r.cursor_eq ∙ ap (λ x. last_id x r.done) moved;
  }

  first_failure :
      (c : BrokerCommand) (cs : List BrokerCommand) (s u : Journal × W)
      → execute out c s ≡ (false, u)
      → cursor u ≡ cursor s
      → Stopped (c ∷ cs) s u
  first_failure c cs s u e moved = record {
    done = [];
    rest = c ∷ cs;
    at = s;
    split = refl;
    executed = nothing;
    halted = inr (c, cs, refl, e);
    cursor_eq = moved;
  }

  -- With a handler that leaves the cursor alone, the loop over the gateway's commands executes them in
  -- their order and stops at the first that is not executed; the cursor is then the last executed
  -- command, or where it was, so that the next poll starts before the command that failed.
  pub execute_all_lem :
      KeepsCursor
      → (cs : List BrokerCommand) (s : Journal × W) → Stopped cs s (execute_all out cs s)
  unfolding execute_all
  execute_all_lem keeps [] s = record {
    done = [];
    rest = [];
    at = s;
    split = refl;
    executed = nothing;
    halted = inl (refl, refl);
    cursor_eq = refl;
  }
  execute_all_lem keeps (c ∷ cs) s =
      go (execute out c s) refl (execute-Moved keeps c s)
        (execute_all_lem keeps cs (execute out c s).1)
    where
      go :
          (m : Bool × (Journal × W))
          → execute out c s ≡ m
          → Moved c s m
          → Stopped cs m.1 (execute_all out cs m.1)
          → Stopped (c ∷ cs) s (if m.0 then execute_all out cs m.1 else m.1)
      go (true, t) e moved r = after_success c cs s t _ e moved r
      go (false, t) e moved r = first_failure c cs s t e moved
