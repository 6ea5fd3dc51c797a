-- ===== src/Recipients/Search.antt =====
-- kbus_find_replier and kbus_find_listeners of kbus/kbus_main.c. The array of listeners is a list,
-- beside the `count` and `array_size` by which the code manages it.
use kbus.Prelude.{
  ℕ, ◌+◌, ◌-◌, not, ◌||◌, Option, none, some, List, [], ◌∷◌, ◌++◌, ◌==◌, ltb, if◌then◌else◌,
}
use kbus.CString.{byte_at, strlen, strncmp_eq}
use kbus.Size.{next_size}
use kbus.Name.{message_name_matches}
use kbus.Device.{Binding}

-- The loop of kbus_find_replier: the first replier that is bound to this very name.
unfoldable pub find_replier : ℕ → List ℕ → List Binding → Option Binding
find_replier name_len name [] = none
find_replier name_len name (b ∷ bs) =
    if b.is_replier == 0 || not (b.name_len == name_len) || not (strncmp_eq name_len name b.name)
    then find_replier name_len name bs
    else some b

pub data ReplierType : Type 0 where
  unset wild_star wild_percent specific : ReplierType

-- The order of enum kbus_replier_type.
abbrev pub rank : ReplierType → ℕ
rank unset = 0
rank wild_star = 1
rank wild_percent = 2
rank specific = 3

-- The type of a replier, from the last byte of the name that it is bound to.
unfoldable pub replier_type : List ℕ → ReplierType
unfolding strlen
replier_type name =
    let last = byte_at name (strlen name - 1) in
    if last == b'*' then wild_star else if last == b'%' then wild_percent else specific

-- The variables of the loop in kbus_find_listeners.
pub record Found : Type 0 where
  pub count : ℕ
  pub array_size : ℕ
  pub listeners : List Binding
  pub replier : Option Binding
  pub type : ReplierType

-- KBUS_INIT_LISTENER_ARRAY_SIZE
abbrev pub init_listener_array_size : ℕ
init_listener_array_size = 8

abbrev pub nothing_found : Found
nothing_found = record {
  count = 0;
  array_size = init_listener_array_size;
  listeners = [];
  replier = none;
  type = unset;
}

unfoldable pub add_replier : Found → Binding → Found
unfolding replier_type
add_replier s b = elim s.replier [
  | none ↦ record s { replier = some b; type = replier_type b.name }
  | some r ↦
      if ltb (rank s.type) (rank (replier_type b.name))
      then record s { replier = some b; type = replier_type b.name }
      else s
]

unfoldable pub add_listener : Found → Binding → Found
add_listener s b = record s {
  count = s.count + 1;
  array_size = if s.count == s.array_size then next_size s.array_size else s.array_size;
  listeners = s.listeners ++ b ∷ [];
}

-- One round of the loop.
unfoldable pub consider : ℕ → List ℕ → Found → Binding → Found
unfolding message_name_matches add_replier add_listener
consider name_len name s b =
    if not (message_name_matches name name_len b.name)
    then s
    else if not (b.is_replier == 0)
    then add_replier s b
    else add_listener s b

unfoldable pub search : ℕ → List ℕ → Found → List Binding → Found
search name_len name s [] = s
search name_len name s (b ∷ bs) = search name_len name (consider name_len name s b) bs

-- kbus_find_listeners
unfoldable pub find_listeners : ℕ → List ℕ → List Binding → Found
unfolding search consider
find_listeners name_len name bs = search name_len name nothing_found bs
