-- ===== src/Broker/Journal.antt =====
-- `BrokerJournal` (src/vgen/broker/journal.py). A payload and a stored value stand for what
-- `json.loads` gives back; the file, its permissions and its lock are left out.
use text.Mathlib.Text.{◌==◌ as str_eq}
use vgen.Base.{
  ℕ, zero, suc, String, Option, none, some, List, [], ◌∷◌, ◌==◌, ◌&&◌, ltb, is_none, if◌then◌else◌,
}

pub record Event : Type 0 where
  pub id : ℕ
  pub kind : String
  pub payload : List (String × String)
  pub created_at : ℕ
  pub delivered_at : Option ℕ

-- `fresh` is the supply of `uuid4`; the events stand in the order of their insertion.
pub record Journal : Type 0 where
  pub events : List Event
  pub state : List (String × String)
  pub fresh : ℕ

unfoldable pub add_event : Event → List Event → List Event
add_event e [] = e ∷ []
add_event e (f ∷ fs) = f ∷ add_event e fs

unfoldable pub append : String → List (String × String) → ℕ → Journal → ℕ × Journal
unfolding add_event
append kind payload stamp j = (
  j.fresh,
  record j {
    events =
        add_event
          (record {
            id = j.fresh;
            kind = kind;
            payload = payload;
            created_at = stamp;
            delivered_at = none;
          })
          j.events;
    fresh = suc j.fresh;
  },
)

insert_event : Event → List Event → List Event
insert_event e [] = e ∷ []
insert_event e (f ∷ fs) =
    let rest = insert_event e fs in if ltb f.created_at e.created_at then f ∷ rest else e ∷ f ∷ fs

undelivered : List Event → List Event
unfolding insert_event
undelivered [] = []
undelivered (e ∷ es) =
    let rest = undelivered es in if is_none e.delivered_at then insert_event e rest else rest

abbrev take_events : ℕ → List Event → List Event
take_events zero es = []
take_events (suc n) [] = []
take_events (suc n) (e ∷ es) = e ∷ take_events n es

-- ORDER BY created_at LIMIT
unfoldable pub pending : ℕ → Journal → List Event
unfolding undelivered
pending limit j = take_events limit (undelivered j.events)

deliver : ℕ → ℕ → List Event → List Event
deliver id stamp [] = []
deliver id stamp (e ∷ es) =
    let rest = deliver id stamp es in
    if e.id == id && is_none e.delivered_at
    then record e { delivered_at = some stamp } ∷ rest
    else e ∷ rest

unfoldable pub mark_delivered : ℕ → ℕ → Journal → Journal
unfolding deliver
mark_delivered id stamp j = record j { events = deliver id stamp j.events }

-- INSERT ... ON CONFLICT(key) DO UPDATE
unfoldable pub upsert : String → String → List (String × String) → List (String × String)
upsert key value [] = (key, value) ∷ []
upsert key value ((k, v) ∷ rest) =
    let others = upsert key value rest in
    if str_eq k key then (k, value) ∷ rest else (k, v) ∷ others

unfoldable pub look_up : String → List (String × String) → Option String
look_up key [] = none
look_up key ((k, v) ∷ rest) = if str_eq k key then some v else look_up key rest

unfoldable pub set_state : String → String → Journal → Journal
unfolding upsert
set_state key value j = record j { state = upsert key value j.state }

abbrev or_default : String → Option String → String
or_default default none = default
or_default default (some value) = value

unfoldable pub get_state : String → String → Journal → String
unfolding look_up
get_state key default j = or_default default (look_up key j.state)
