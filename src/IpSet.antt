-- ===== src/IpSet.antt =====
-- pkg/util/ipset/ipset.go: sets and entries, and the commands that EnnIPSet runs. The command
-- runner (k8s.io/utils/exec with the `ipset` program) is a parameter: it takes the arguments and
-- the state of the kernel, and returns the new state and the output, or `none` for an error.
pub mod Entries
pub mod Listing
pub mod Reading
use enn_policy.Prelude.{
  ℕ, ◌+◌, Bool, true, false, not, Option, none, some, List, [], ◌∷◌, ◌++◌, Str, str, if◌then◌else◌,
  length, ◌==◌,
}
use enn_policy.Strings.{ℤ, pos, atoi, split, has_prefix}
use enn_policy.Types.{str_equal}

abbrev pub type_hash_ip : Str
type_hash_ip = str "hash:ip"

abbrev pub type_hash_net : Str
type_hash_net = str "hash:net"

abbrev pub type_hash_ip_port : Str
type_hash_ip_port = str "hash:ip,port"

abbrev pub type_hash_net_port : Str
type_hash_net_port = str "hash:net,port"

pub record IpSet : Type 0 where
  pub name : Str
  pub type : Str
  pub family : Str
  pub hash_size : ℤ
  pub max_elem : ℤ
  pub reference : ℤ

-- `&IPSet{Name: name, Type: type}`
abbrev pub new_set : Str → Str → IpSet
new_set n t = record {
  name = n;
  type = t;
  family = [];
  hash_size = pos 0;
  max_elem = pos 0;
  reference = pos 0;
}

pub record Entry : Type 0 where
  pub type : Str
  pub ip : Str
  pub port : Str
  pub net : Str

abbrev pub empty_entry : Str → Entry
empty_entry t = record { type = t; ip = []; port = []; net = [] }

-- EntryToString: `none` is the error "invalid entry type"
unfoldable pub entry_to_string : Entry → Option Str
unfolding str_equal
entry_to_string entry =
    if str_equal entry.type type_hash_ip
    then some entry.ip
    else if str_equal entry.type type_hash_net
    then some entry.net
    else if str_equal entry.type type_hash_ip_port
    then some (entry.ip ++ (b',' ∷ entry.port))
    else if str_equal entry.type type_hash_net_port
    then some (entry.net ++ (b',' ∷ entry.port))
    else none

-- `len(str) != 2` is an error; else the two parts
unfoldable pub two_parts : ℕ → Str → Option (Str × Str)
unfolding split
two_parts sep s = elim (split sep s) [
  | [] ↦ none
  | a ∷ [] ↦ none
  | a ∷ b ∷ [] ↦ some (a, b)
  | a ∷ b ∷ c ∷ r ↦ none
]

infixl 5 ◌>>=◌
abbrev pub ◌>>=◌ : {A B : Type 0} → Option A → (A → Option B) → Option B
none >>= f = none
some a >>= f = f a

-- `elem,protocol:port`: the part before the comma, and the port
unfoldable pub address_and_port : Str → Option (Str × Str)
unfolding two_parts
address_and_port entry_elem = do
  (address, rest) ← two_parts b',' entry_elem
  (_, port) ← two_parts b':' rest
  some (address, port)

-- StringToEntry
unfoldable pub string_to_entry : Str → Str → Option Entry
unfolding address_and_port str_equal
string_to_entry entry_type entry_elem =
    if str_equal entry_type type_hash_ip
    then some (record (empty_entry entry_type) { ip = entry_elem })
    else if str_equal entry_type type_hash_net
    then some (record (empty_entry entry_type) { net = entry_elem })
    else if str_equal entry_type type_hash_ip_port
    then (address_and_port entry_elem >>= λ (ip, port).
        some (record (empty_entry entry_type) { ip = ip; port = port }))
    else if str_equal entry_type type_hash_net_port
    then (address_and_port entry_elem >>= λ (net, port).
        some (record (empty_entry entry_type) { net = net; port = port }))
    else none

-- ListEntry's loop over the lines of the output
unfoldable pub entries_of : Str → Bool → List Str → List Entry
unfolding string_to_entry
entries_of type is_entry [] = []
entries_of type false (s ∷ lines) = entries_of type (has_prefix s (str "Members")) lines
entries_of type true (s ∷ lines) =
    let rest = entries_of type true lines in
    if str_equal s []
    then rest
    else elim (string_to_entry type s) [ none ↦ rest | some entry ↦ entry ∷ rest ]

abbrev pub newline : ℕ
newline = 10

-- the arguments with `-exist` behind them, if an existing or missing element is no error
abbrev pub with_exist : List Str → Bool → List Str
with_exist args true = args ++ str "-exist" ∷ []
with_exist args false = args

-- the last element goes if it is empty
unfoldable pub drop_empty_last : List Str → List Str
drop_empty_last [] = []
drop_empty_last (s ∷ []) = if str_equal s [] then [] else s ∷ []
drop_empty_last (s ∷ t ∷ r) = s ∷ drop_empty_last (t ∷ r)

module _ {S : Type 0} (exec : List Str → S → S × Option Str) where
  -- a command whose output does not matter: the state, and whether there was an error
  unfoldable pub command : List Str → S → S × Bool
  command args s = let (s', out) = exec args s in (s', elim out [ none ↦ true | some _ ↦ false ])

  -- FlushAll, DestroyAll, FlushIPSet, CreateIPSet, DestroyIPSet
  unfoldable pub flush_all : S → S × Bool
  unfolding command
  flush_all = command (str "flush" ∷ [])

  unfoldable pub destroy_all : S → S × Bool
  unfolding command
  destroy_all = command (str "destroy" ∷ [])

  unfoldable pub flush_ip_set : IpSet → S → S × Bool
  unfolding command
  flush_ip_set set = command (str "flush" ∷ set.name ∷ [])

  unfoldable pub create_ip_set : IpSet → Bool → S → S × Bool
  unfolding command
  create_ip_set set ignore = command (with_exist (str "create" ∷ set.name ∷ set.type ∷ []) ignore)

  unfoldable pub destroy_ip_set : IpSet → S → S × Bool
  unfolding command
  destroy_ip_set set = command (str "destroy" ∷ set.name ∷ [])

  -- ListIPSetsName
  unfoldable pub list_ip_sets_name : S → S × Option (List Str)
  unfolding drop_empty_last split
  list_ip_sets_name s =
      let (s', out) = exec (str "list" ∷ str "-n" ∷ []) s in
      (s', elim out [ none ↦ none | some text ↦ some (drop_empty_last (split newline text)) ])

  -- AddEntry and DelEntry
  unfoldable pub add_entry : IpSet → Entry → Bool → S → S × Bool
  unfolding command entry_to_string
  add_entry set entry ignore s = elim (entry_to_string entry) [
    | none ↦ (s, true)
    | some e ↦ command (with_exist (str "add" ∷ set.name ∷ e ∷ []) ignore) s
  ]

  unfoldable pub del_entry : IpSet → Entry → Bool → S → S × Bool
  unfolding command entry_to_string
  del_entry set entry ignore s = elim (entry_to_string entry) [
    | none ↦ (s, true)
    | some e ↦ command (with_exist (str "del" ∷ set.name ∷ e ∷ []) ignore) s
  ]

  -- ListEntry
  unfoldable pub list_entry : IpSet → S → S × Option (List Entry)
  unfolding entries_of split
  list_entry set s =
      let (s', out) = exec (str "list" ∷ set.name ∷ []) s in
      (
        s',
        elim out [
          | none ↦ none
          | some text ↦ some (entries_of set.type false (split newline text))
        ],
      )
